-- ===== src/Audio.antt =====
-- Audio profiles (shared/core/gm_control.cpp, `gm_audio_profile_validate`) and the timing plan
-- (shared/core/gm_state.cpp, `gm_audio_calculate_timing_plan`).
pub mod Plan
use ghost_media.Base.{
  ℕ, ◌+◌, ◌-◌, ◌*◌, ◌/◌, ◌%◌, ◌^◌, Bool, not, ◌&&◌, ◌||◌, Option, none, some, ltb, ◌==◌,
  if◌then◌else◌, min,
}
use ghost_media.Abi.{
  Status, ok, bad_argument, bad_message, abi_version, sizeof_audio_profile,
  sizeof_audio_timing_plan,
}

pub record AudioProfile : Type 0 where
  pub struct_size : ℕ
  pub abi_version : ℕ
  pub codec : ℕ
  pub sample_rate_hz : ℕ
  pub channels : ℕ
  pub frames_per_packet : ℕ
  pub channel_layout : ℕ
  pub packet_interval_us : ℕ
  pub payload_bytes : ℕ

abbrev pub pcm_s16le : ℕ
pcm_s16le = 1

abbrev pub opus : ℕ
opus = 2

abbrev pub stereo : ℕ
stereo = 1

abbrev pub pcm_payload_bytes : ℕ
pcm_payload_bytes = 960

abbrev pub opus_max_payload_bytes : ℕ
opus_max_payload_bytes = 1128

-- A field that is 0 is not yet filled in.
abbrev pub set_to_other : ℕ → ℕ → Bool
set_to_other field expected = not (field == 0) && not (field == expected)

unfoldable pub validate : Option AudioProfile → Status
validate none = bad_argument
validate (some p) =
    if ltb p.struct_size sizeof_audio_profile || not (p.abi_version == abi_version)
    then bad_argument
    else if not (p.sample_rate_hz == 48000)
        || not (p.channels == 2)
        || not (p.channel_layout == stereo)
    then bad_message
    else if p.codec == pcm_s16le
    then (if not (p.frames_per_packet == 240)
        then bad_message
        else if set_to_other p.packet_interval_us 5000
            || set_to_other p.payload_bytes pcm_payload_bytes
        then bad_message
        else ok)
    else if p.codec == opus
    then (if not (p.frames_per_packet == 480)
        then bad_message
        else if set_to_other p.packet_interval_us 10000
            || set_to_other p.payload_bytes opus_max_payload_bytes
        then bad_message
        else ok)
    else bad_message

pub record TimingPlan : Type 0 where
  pub struct_size : ℕ
  pub abi_version : ℕ
  pub packet_interval_us : ℕ
  pub frames_per_packet : ℕ
  pub playout_target_ms : ℕ
  pub playout_target_frames : ℕ
  pub jitter_capacity_packets : ℕ
  pub jitter_capacity_bytes : ℕ
  pub lookbehind_frames : ℕ
  pub lookahead_frames : ℕ
  pub bridge_capacity_frames : ℕ
  pub bridge_freshness_frames : ℕ
  pub send_capacity_frames : ℕ
  pub send_freshness_frames : ℕ

unfoldable pub frames_for_milliseconds : ℕ → ℕ
frames_for_milliseconds milliseconds = 48000 * milliseconds / 1000 % 2 ^ 32

pub record PlanResult : Type 0 where
  pub status : Status
  pub plan : Option TimingPlan

-- The plan of a valid profile and target.
unfoldable pub timing_plan : (caller_size : ℕ) → AudioProfile → (playout_target_ms : ℕ) → TimingPlan
unfolding frames_for_milliseconds
timing_plan caller_size p playout_target_ms =
    let interval = if p.codec == opus then 10000 else 5000 in
    let payload = if p.codec == opus then opus_max_payload_bytes else pcm_payload_bytes in
    let by_time = (300 * 1000 + interval - 1) / interval in
    let by_bytes = 65536 / payload in
    let jitter_packets = min by_time by_bytes in
    record {
      struct_size = caller_size;
      abi_version = abi_version;
      packet_interval_us = interval;
      frames_per_packet = p.frames_per_packet;
      playout_target_ms = playout_target_ms;
      playout_target_frames = frames_for_milliseconds playout_target_ms;
      jitter_capacity_packets = jitter_packets;
      jitter_capacity_bytes = jitter_packets * payload % 2 ^ 32;
      lookbehind_frames = frames_for_milliseconds 120;
      lookahead_frames = frames_for_milliseconds 250;
      bridge_capacity_frames = frames_for_milliseconds 100;
      bridge_freshness_frames = frames_for_milliseconds 50;
      send_capacity_frames = frames_for_milliseconds 40;
      send_freshness_frames = frames_for_milliseconds 20;
    }

unfoldable pub calculate_timing_plan :
    Option AudioProfile → (playout_target_ms : ℕ) → Option TimingPlan → PlanResult
unfolding validate timing_plan
calculate_timing_plan none target out = record { status = bad_argument; plan = out }
calculate_timing_plan (some p) target none = record { status = bad_argument; plan = none }
calculate_timing_plan (some p) target (some out) =
    if ltb out.struct_size sizeof_audio_timing_plan
    then record { status = bad_argument; plan = some out }
    else elim (validate (some p)) [
      | ok ↦
          if ltb target 15 || ltb 120 target
          then record { status = bad_message; plan = some out }
          else record { status = ok; plan = some (timing_plan out.struct_size p target) }
      | other ↦ record { status = other; plan = some out }
    ]
