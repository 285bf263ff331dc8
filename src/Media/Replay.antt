-- ===== src/Media/Replay.antt =====
-- The replay window of shared/core/gm_media.cpp: a bitmap of the 1024 sequence numbers up to the
-- highest one seen. Bit d stands for `highest_sequence - d`.
pub mod Bitmap
pub mod Shift
pub mod History
pub mod Tracking
pub mod Refinement
use ghost_media.Base.{
  ℕ, zero, suc, ◌-◌, ◌*◌, ◌/◌, ◌%◌, ◌^◌, bit_and, bit_or, Bool, not, ◌&&◌, ◌||◌, Option, none, some,
  List, ltb, leb, ◌==◌, if◌then◌else◌, get_or, set, replicate,
}
use ghost_media.Abi.{Status, ok, bad_argument, abi_version, sizeof_replay_window}

pub record ReplayWindow : Type 0 where
  pub struct_size : ℕ
  pub abi_version : ℕ
  pub initialized : ℕ
  pub highest_sequence : ℕ
  pub bitmap : List ℕ

abbrev pub replay_window_bits : ℕ
replay_window_bits = 1024

abbrev pub replay_accepted : ℕ
replay_accepted = 1

abbrev pub replay_duplicate : ℕ
replay_duplicate = 2

abbrev pub replay_too_old : ℕ
replay_too_old = 3

-- `x << k` on uint64_t.
abbrev pub shl64 : ℕ → ℕ → ℕ
shl64 x k = x * 2 ^ k % 2 ^ 64

abbrev pub word : List ℕ → ℕ → ℕ
word bitmap index = get_or bitmap index 0

unfoldable pub get_bit : List ℕ → ℕ → Bool
get_bit bitmap bit = not (bit_and (word bitmap (bit / 64)) (shl64 1 (bit % 64)) == 0)

unfoldable pub set_bit : List ℕ → ℕ → List ℕ
set_bit bitmap bit = set bitmap (bit / 64) (bit_or (word bitmap (bit / 64)) (shl64 1 (bit % 64)))

-- The loop over the 16 words, from the word `index` with `left` of them to go.
pub clear_words : (left index : ℕ) → List ℕ → List ℕ
clear_words zero index bitmap = bitmap
clear_words (suc left) index bitmap = clear_words left (suc index) (set bitmap index 0)

pub clear_bitmap : List ℕ → List ℕ
unfolding clear_words
clear_bitmap bitmap = clear_words 16 0 bitmap

-- What the loop body of `shift_bitmap_left` stores into the word `index`.
pub shifted_word : (word_shift bit_shift : ℕ) → List ℕ → ℕ → ℕ
shifted_word word_shift bit_shift bitmap index =
    if leb word_shift index
    then (let value = shl64 (word bitmap (index - word_shift)) bit_shift in
        if not (bit_shift == 0) && ltb word_shift index
        then bit_or value (word bitmap (index - word_shift - 1) / 2 ^ (64 - bit_shift))
        else value)
    else 0

-- The loop runs in place, from the highest word down; `reverse_index` words are left.
pub shift_words : (word_shift bit_shift reverse_index : ℕ) → List ℕ → List ℕ
shift_words word_shift bit_shift zero bitmap = bitmap
shift_words word_shift bit_shift (suc index) bitmap =
    shift_words word_shift bit_shift index
      (set bitmap index (shifted_word word_shift bit_shift bitmap index))

pub shift_bitmap_left : List ℕ → ℕ → List ℕ
unfolding clear_bitmap shift_words shifted_word
shift_bitmap_left bitmap shift =
    if leb replay_window_bits shift
    then clear_bitmap bitmap
    else shift_words (shift / 64) (shift % 64) 16 bitmap

pub record InitResult : Type 0 where
  pub status : Status
  pub window : Option ReplayWindow

unfoldable pub init : Option ReplayWindow → InitResult
init none = record { status = bad_argument; window = none }
init (some w) =
    if ltb w.struct_size sizeof_replay_window
    then record { status = bad_argument; window = some w }
    else record {
      status = ok;
      window = some (record {
        struct_size = w.struct_size;
        abi_version = abi_version;
        initialized = 0;
        highest_sequence = 0;
        bitmap = replicate 16 0;
      });
    }

pub record Acceptance : Type 0 where
  pub window : ReplayWindow
  pub result : ℕ

-- `gm_replay_window_accept` behind its argument checks.
unfoldable pub accept_sequence : ReplayWindow → ℕ → Acceptance
accept_sequence w sequence =
    if w.initialized == 0
    then record {
      window = record w {
        initialized = 1;
        highest_sequence = sequence;
        bitmap = set_bit (clear_bitmap w.bitmap) 0;
      };
      result = replay_accepted;
    }
    else if ltb w.highest_sequence sequence
    then record {
      window = record w {
        highest_sequence = sequence;
        bitmap = set_bit (shift_bitmap_left w.bitmap (sequence - w.highest_sequence)) 0;
      };
      result = replay_accepted;
    }
    else (let delta = w.highest_sequence - sequence in
        if leb replay_window_bits delta
        then record { window = w; result = replay_too_old }
        else if get_bit w.bitmap delta
        then record { window = w; result = replay_duplicate }
        else record {
          window = record w { bitmap = set_bit w.bitmap delta };
          result = replay_accepted;
        })

pub record AcceptResult : Type 0 where
  pub status : Status
  pub window : Option ReplayWindow
  pub out_result : Option ℕ

-- The arguments are the window, the sequence number and the place of the verdict.
unfoldable pub accept : Option ReplayWindow → ℕ → Option ℕ → AcceptResult
accept none sequence out = record { status = bad_argument; window = none; out_result = out }
accept (some w) sequence none = record { status = bad_argument; window = some w; out_result = none }
accept (some w) sequence (some old) =
    if ltb w.struct_size sizeof_replay_window || not (w.abi_version == abi_version)
    then record { status = bad_argument; window = some w; out_result = some old }
    else (let step = accept_sequence w sequence in
        record { status = ok; window = some step.window; out_result = some step.result })
