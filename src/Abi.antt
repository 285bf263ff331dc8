-- ===== src/Abi.antt =====
-- What every entry point of the C interface shares (shared/include/ghostmedia/gm_core.h): status
-- codes, byte views and the sizes of the structs.
-- A pointer to a struct or to a scalar is an `Option`, `none` for null; after a call it holds what
-- the callee left there. The sizes are those of the LP64 layout.
use ghost_media.Base.{ℕ, Bool, true, ◌==◌, List, [], length}

pub data Status : Type 0 where
  ok bad_argument bad_message state_conflict limit_exceeded buffer_too_small : Status
  unauthorized need_more_data unsupported_version internal : Status

-- `gm_bytes` and `gm_mut_bytes`: a null pointer with the size that it claims, or memory.
pub data Bytes : Type 0 where
  null : ℕ → Bytes
  memory : List ℕ → Bytes

abbrev pub size : Bytes → ℕ
size (null n) = n
size (memory xs) = length xs

abbrev pub contents : Bytes → List ℕ
contents (null n) = []
contents (memory xs) = xs

-- Also `has_writable_data`, which makes the same test.
abbrev pub has_readable_data : Bytes → Bool
has_readable_data (null n) = n == 0
has_readable_data (memory xs) = true

abbrev pub abi_version : ℕ
abi_version = 1

abbrev pub sizeof_media_header : ℕ
sizeof_media_header = 72

abbrev pub sizeof_replay_window : ℕ
sizeof_replay_window = 152

abbrev pub sizeof_epoch_window : ℕ
sizeof_epoch_window = 40

abbrev pub sizeof_audio_profile : ℕ
sizeof_audio_profile = 40

abbrev pub sizeof_audio_timing_plan : ℕ
sizeof_audio_timing_plan = 64

abbrev pub sizeof_control_session_config : ℕ
sizeof_control_session_config = 152

abbrev pub sizeof_control_session : ℕ
sizeof_control_session = 320

abbrev pub sizeof_control_action : ℕ
sizeof_control_action = 640

abbrev pub sizeof_control_metrics : ℕ
sizeof_control_metrics = 88
