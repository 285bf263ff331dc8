-- ===== src/Media/Epoch.antt =====
-- The key epochs of shared/core/gm_media.cpp: the current one, and the one before it for a grace
-- period after a rekey.
pub mod Rekeys
use ghost_media.Base.{
  ℕ, ◌+◌, ◌-◌, ◌%◌, ◌^◌, ◌*◌, not, ◌&&◌, ◌||◌, Option, none, some, ltb, leb, ◌==◌, if◌then◌else◌,
}
use ghost_media.Abi.{Status, ok, bad_argument, bad_message, abi_version, sizeof_epoch_window}

pub record EpochWindow : Type 0 where
  pub struct_size : ℕ
  pub abi_version : ℕ
  pub current_epoch : ℕ
  pub previous_epoch : ℕ
  pub previous_epoch_expires_ns : ℕ
  pub has_previous_epoch : ℕ

-- GM_REKEY_GRACE_MS in nanoseconds.
abbrev pub rekey_grace_ns : ℕ
rekey_grace_ns = 5000 * 1000 * 1000

abbrev pub max_u64 : ℕ
max_u64 = 2 ^ 64 - 1

abbrev pub epoch_rejected : ℕ
epoch_rejected = 0

abbrev pub epoch_current : ℕ
epoch_current = 1

abbrev pub epoch_previous_grace : ℕ
epoch_previous_grace = 2

pub record WindowResult : Type 0 where
  pub status : Status
  pub window : Option EpochWindow

unfoldable pub init : Option EpochWindow → ℕ → WindowResult
init none initial_epoch = record { status = bad_argument; window = none }
init (some w) initial_epoch =
    if ltb w.struct_size sizeof_epoch_window
    then record { status = bad_argument; window = some w }
    else if initial_epoch == 0
    then record { status = bad_message; window = some w }
    else record {
      status = ok;
      window = some (record {
        struct_size = w.struct_size;
        abi_version = abi_version;
        current_epoch = initial_epoch;
        previous_epoch = 0;
        previous_epoch_expires_ns = 0;
        has_previous_epoch = 0;
      });
    }

unfoldable pub begin_rekey : Option EpochWindow → (new_epoch now_ns : ℕ) → WindowResult
begin_rekey none new_epoch now_ns = record { status = bad_argument; window = none }
begin_rekey (some w) new_epoch now_ns =
    if ltb w.struct_size sizeof_epoch_window || not (w.abi_version == abi_version)
    then record { status = bad_argument; window = some w }
    else if new_epoch == 0
        || w.current_epoch == 0
        || not (new_epoch == (w.current_epoch + 1) % 2 ^ 32)
    then record { status = bad_message; window = some w }
    else record {
      status = ok;
      window = some (record w {
        previous_epoch = w.current_epoch;
        current_epoch = new_epoch;
        has_previous_epoch = 1;
        previous_epoch_expires_ns =
            if ltb (max_u64 - rekey_grace_ns) now_ns then max_u64 else now_ns + rekey_grace_ns;
      });
    }

pub record AcceptResult : Type 0 where
  pub status : Status
  pub out_acceptance : Option ℕ

-- The arguments are the window, the epoch of a datagram, the time and the place of the verdict.
unfoldable pub accept : Option EpochWindow → (key_epoch now_ns : ℕ) → Option ℕ → AcceptResult
accept none key_epoch now_ns out = record { status = bad_argument; out_acceptance = out }
accept (some w) key_epoch now_ns none = record { status = bad_argument; out_acceptance = none }
accept (some w) key_epoch now_ns (some old) =
    if ltb w.struct_size sizeof_epoch_window
      || not (w.abi_version == abi_version)
      || w.current_epoch == 0
    then record { status = bad_argument; out_acceptance = some old }
    else if key_epoch == 0
    then record { status = bad_message; out_acceptance = some old }
    else if key_epoch == w.current_epoch
    then record { status = ok; out_acceptance = some epoch_current }
    else if not (w.has_previous_epoch == 0)
        && key_epoch == w.previous_epoch
        && leb now_ns w.previous_epoch_expires_ns
    then record { status = ok; out_acceptance = some epoch_previous_grace }
    else record { status = ok; out_acceptance = some epoch_rejected }
