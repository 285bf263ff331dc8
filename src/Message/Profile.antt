-- ===== src/Message/Profile.antt =====
-- The parts of a message in shared/core/gm_control.cpp: `parse_profile`, `validate_capabilities`,
-- `validate_limits`, `validate_versions`.
use Prim.Native.String.{String}
use ghost_media.Base.{
  ℕ, ◌-◌, ◌^◌, Bool, false, not, ◌&&◌, ◌||◌, some, List, [], ◌∷◌, ltb, leb, ◌==◌, if◌then◌else◌,
  length,
}
use ghost_media.Abi.{Status, ok, bad_argument, abi_version, sizeof_audio_profile}
use ghost_media.Text.{codes, padded}
use ghost_media.Audio.{
  AudioProfile, validate, pcm_s16le, opus, stereo, pcm_payload_bytes, opus_max_payload_bytes,
}
use ghost_media.Json.{
  no_data, malformed, other_version, Answer, done, failed, ◌>>=◌, ◌>>◌, demand, JsonValue, number,
  Values, no_values, value, count_values, same_string,
}
use ghost_media.Message.{MessageInfo}
use ghost_media.Message.Access.{
  object_has_exact_keys, get_required_string, get_required_array, get_required_bool,
  get_required_u32,
}

abbrev pub u32_max : ℕ
u32_max = 2 ^ 32 - 1

abbrev pub u16_max : ℕ
u16_max = 2 ^ 16 - 1

-- A status that is returned on, unless it is GM_OK.
abbrev returned : Status → Answer (Unit {0})
returned ok = done tt
returned bad_argument = failed no_data
returned _ = failed malformed

unfoldable pub is_text : List ℕ → String → Bool
unfolding same_string
is_text text literal = same_string text (codes literal)

unfoldable pub profile_keys : List (List ℕ)
profile_keys =
    codes "codec"
    ∷ codes "sample_rate_hz"
    ∷ codes "channels"
    ∷ codes "channel_layout"
    ∷ codes "frames_per_packet"
    ∷ []

-- The profile of a codec, with what it fixes; the codec is PCM or else Opus.
abbrev profile_of : Bool → (sample_rate channels frames_per_packet : ℕ) → AudioProfile
profile_of pcm sample_rate channels frames_per_packet = record {
  struct_size = sizeof_audio_profile;
  abi_version = abi_version;
  codec = if pcm then pcm_s16le else opus;
  sample_rate_hz = sample_rate;
  channels = channels;
  frames_per_packet = frames_per_packet;
  channel_layout = stereo;
  packet_interval_us = if pcm then 5000 else 10000;
  payload_bytes = if pcm then pcm_payload_bytes else opus_max_payload_bytes;
}

unfoldable pub parse_profile : JsonValue → Answer AudioProfile
unfolding profile_keys object_has_exact_keys get_required_string get_required_u32 validate is_text
parse_profile o = do
  demand (object_has_exact_keys o profile_keys) malformed
  codec_text ← get_required_string o (codes "codec")
  sample_rate ← get_required_u32 o (codes "sample_rate_hz") 0 u32_max
  channels ← get_required_u32 o (codes "channels") 0 u16_max
  layout_text ← get_required_string o (codes "channel_layout")
  frames_per_packet ← get_required_u32 o (codes "frames_per_packet") 0 u16_max
  demand (is_text codec_text "pcm_s16le" || is_text codec_text "opus") malformed
  demand (is_text layout_text "stereo") malformed
  let profile = profile_of (is_text codec_text "pcm_s16le") sample_rate channels frames_per_packet
  returned (validate (some profile))
  done profile

unfoldable pub parse_profiles : Values → Answer (Unit {0})
unfolding parse_profile
parse_profiles no_values = done tt
parse_profiles (value v vs) = parse_profile v >>= λ _. parse_profiles vs

unfoldable pub validate_capabilities : JsonValue → Answer (Unit {0})
unfolding object_has_exact_keys get_required_bool get_required_array parse_profiles
validate_capabilities o = do
  demand
      (object_has_exact_keys o (
        codes "audio_send"
        ∷ codes "audio_receive"
        ∷ codes "microphone"
        ∷ codes "camera"
        ∷ codes "audio_profiles"
        ∷ []))
      malformed
  audio_send ← get_required_bool o (codes "audio_send")
  audio_receive ← get_required_bool o (codes "audio_receive")
  microphone ← get_required_bool o (codes "microphone")
  camera ← get_required_bool o (codes "camera")
  profiles ← get_required_array o (codes "audio_profiles")
  demand (not (audio_send || microphone || camera)) malformed
  demand
      (if audio_receive
        then ltb 0 (count_values profiles) && leb (count_values profiles) 2
        else count_values profiles == 0)
      malformed
  parse_profiles profiles

unfoldable pub validate_limits : JsonValue → Answer (Unit {0})
unfolding object_has_exact_keys get_required_u32
validate_limits o = do
  demand
      (object_has_exact_keys o (
        codes "max_audio_subscribers"
        ∷ codes "playout_target_ms_min"
        ∷ codes "playout_target_ms_max"
        ∷ []))
      malformed
  _ ← get_required_u32 o (codes "max_audio_subscribers") 0 u32_max
  playout_min ← get_required_u32 o (codes "playout_target_ms_min") 0 u32_max
  playout_max ← get_required_u32 o (codes "playout_target_ms_max") 0 u32_max
  demand (leb playout_min playout_max) malformed

-- The loop of `validate_versions`: numbers from 255 down.
unfoldable pub versions_loop : (previous : ℕ) → Values → Answer (List ℕ)
versions_loop previous no_values = done []
versions_loop previous (value (number n) vs) = do
  demand (leb 1 n && leb n 255 && ltb n previous) malformed
  rest ← versions_loop n vs
  done (n ∷ rest)
versions_loop previous (value _ vs) = failed malformed

abbrev has_v1 : List ℕ → Bool
has_v1 [] = false
has_v1 (n ∷ ns) = n == 1 || has_v1 ns

unfoldable pub validate_versions : Values → MessageInfo → Answer MessageInfo
unfolding versions_loop
validate_versions vs info = do
  demand (ltb 0 (count_values vs) && leb (count_values vs) 8) malformed
  versions ← versions_loop 256 vs
  demand (has_v1 versions) other_version
  done (record info {
    versions_count = count_values vs;
    versions = padded 8 (length versions) versions;
  })
