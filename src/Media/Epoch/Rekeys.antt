-- ===== src/Media/Epoch/Rekeys.antt =====
-- Which epochs a window accepts, through any number of rekeys.
use ghost_media.Base.{
  ℕ, ◌+◌, ◌≤◌, ◌<◌, ◌^◌, ◌≡◌, ◌≢◌, Option, none, some, leb, ◌==◌, ◌&&◌, if◌then◌else◌, arith, min,
}
use ghost_media.Abi.{ok}
use ghost_media.Media.Epoch.{
  EpochWindow, init, begin_rekey, accept, max_u64, rekey_grace_ns, epoch_current,
  epoch_previous_grace, epoch_rejected,
}

-- The epochs of a window are consecutive, and no epoch is 0.
pub record IsEpochWindow (w : EpochWindow) : Type 0 where
  pub sized : 40 ≤ w.struct_size
  pub versioned : w.abi_version ≡ 1
  pub positive : 1 ≤ w.current_epoch
  pub fits : w.current_epoch < 2 ^ 32
  pub consecutive : w.has_previous_epoch ≢ 0 → w.previous_epoch + 1 ≡ w.current_epoch

pub init-IsEpochWindow :
    (w : Option EpochWindow) (epoch : ℕ) (v : EpochWindow)
    → epoch < 2 ^ 32
    → init w epoch ≡ record { status = ok; window = some v }
    → IsEpochWindow v × (v.current_epoch ≡ epoch)
unfolding init
init-IsEpochWindow none epoch v h e = cc
init-IsEpochWindow (some w) epoch v h e = ground arith

-- A rekey that succeeds keeps the window well formed.
pub begin_rekey-IsEpochWindow :
    (w v : EpochWindow) (new_epoch now_ns : ℕ)
    → IsEpochWindow w
    → begin_rekey (some w) new_epoch now_ns ≡ record { status = ok; window = some v }
    → IsEpochWindow v
unfolding begin_rekey
begin_rekey-IsEpochWindow w v new_epoch now_ns i e = ground arith

-- After a rekey at `start` a datagram of a non-zero epoch is current for the new epoch, in grace
-- for the old one until `start` plus five seconds (or the end of the clock), and else rejected.
pub accept-begin_rekey :
    (w v : EpochWindow) (start key_epoch now_ns old : ℕ)
    → IsEpochWindow w
    → begin_rekey (some w) (w.current_epoch + 1) start ≡ record { status = ok; window = some v }
    → key_epoch ≢ 0
    → accept (some v) key_epoch now_ns (some old) ≡ record {
      status = ok;
      out_acceptance = some (
          if key_epoch == w.current_epoch + 1
          then epoch_current
          else if key_epoch == w.current_epoch && leb now_ns (min (start + rekey_grace_ns) max_u64)
          then epoch_previous_grace
          else epoch_rejected);
    }
unfolding begin_rekey accept
accept-begin_rekey w v start key_epoch now_ns old i e ne = ground arith
