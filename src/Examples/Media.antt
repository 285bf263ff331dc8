-- ===== src/Examples/Media.antt =====
-- Instances of the theorems on media datagrams and timing plans.
use ghost_media.Base.{
  ℕ, zero, suc, Bool, ◌*◌, ◌≤◌, ◌≡◌, ◌≢◌, refl, some, true, List, [], ◌∷◌, ◌++◌, map, length, drop,
  take, replicate, ltb, arith, ◌&&◌,
}
use ghost_media.Abi.{ok, memory}
use ghost_media.Audio.{AudioProfile, TimingPlan, calculate_timing_plan}
use ghost_media.Audio.Plan.{plan_bounds}
use ghost_media.Media.Replay.{ReplayWindow, replay_accepted}
use ghost_media.Media.Replay as Replay
use ghost_media.Media.Replay.History.{verdicts}
use ghost_media.Media.Replay.Refinement.{call, run, after, run-refines, presented_twice}
use ghost_media.Media.Epoch.{EpochWindow, begin_rekey, accept, epoch_previous_grace}
use ghost_media.Media.Epoch.Rekeys.{IsEpochWindow, begin_rekey-IsEpochWindow, accept-begin_rekey}
use ghost_media.Media.Nonce.{build_nonce, build_nonce-injective}
use ghost_media.Media.Header.{
  MediaHeader, validate_media_header_fields, encode_header, decode_header, decode_bytes, has_magic,
  all_zero_from,
}
use ghost_media.Media.Header.RoundTrip.{FitsTypes, decode-encode}
use ghost_media.Media.Header.Canonical.{encode-decode}
use ghost_media.Wire.Fields.{AreBytes}
use ghost_media.Wire.{byte_of, read_u16_be, read_u32_be, read_u64_be}

abbrev old_window : ReplayWindow
old_window = record {
  struct_size = 152;
  abi_version = 9;
  initialized = 7;
  highest_sequence = 3;
  bitmap = replicate 16 5;
}

abbrev arrivals : List ℕ
arrivals = 10 ∷ 9 ∷ 10 ∷ 1033 ∷ 10 ∷ 9 ∷ 1034 ∷ 2000 ∷ 976 ∷ 977 ∷ []

run-refines_example :
    run (Replay.init (some old_window)).window arrivals
    ≡ map (λ v. (ok, some v)) (verdicts [] arrivals)
unfolding Replay.init
run-refines_example = run-refines (some old_window) arrivals refl

presented_twice_example :
    (call
      (after (Replay.init (some old_window)).window ((10 ∷ 9 ∷ []) ++ 12 ∷ (300 ∷ [])))
      12).out_result
    ≢ some replay_accepted
unfolding Replay.init
presented_twice_example = presented_twice (some old_window) (10 ∷ 9 ∷ []) 12 (300 ∷ []) refl

abbrev third_epoch : EpochWindow
third_epoch = record {
  struct_size = 40;
  abi_version = 1;
  current_epoch = 3;
  previous_epoch = 2;
  previous_epoch_expires_ns = 5000000010;
  has_previous_epoch = 1;
}

abbrev fourth_epoch : EpochWindow
fourth_epoch = record {
  struct_size = 40;
  abi_version = 1;
  current_epoch = 4;
  previous_epoch = 3;
  previous_epoch_expires_ns = 7000000000;
  has_previous_epoch = 1;
}

third_epoch-IsEpochWindow : IsEpochWindow third_epoch
third_epoch-IsEpochWindow = record {
  sized = omega arith;
  versioned = refl;
  positive = omega arith;
  fits = omega arith;
  consecutive = λ _. refl;
}

rekeyed :
    begin_rekey (some third_epoch) 4 2000000000 ≡ record { status = ok; window = some fourth_epoch }
unfolding begin_rekey
rekeyed = refl

begin_rekey-IsEpochWindow_example : IsEpochWindow fourth_epoch
begin_rekey-IsEpochWindow_example =
    begin_rekey-IsEpochWindow third_epoch fourth_epoch 4 2000000000 third_epoch-IsEpochWindow
      rekeyed

accept-begin_rekey_example :
    accept (some fourth_epoch) 3 6999999999 (some 0)
    ≡ record { status = ok; out_acceptance = some epoch_previous_grace }
accept-begin_rekey_example =
    accept-begin_rekey third_epoch fourth_epoch 2000000000 3 6999999999 0 third_epoch-IsEpochWindow
      rekeyed (omega arith)

abbrev seven : ℕ
seven = 7

abbrev large : ℕ
large = 300

build_nonce-injective_example : (seven ≡ seven) × (large ≡ large)
unfolding build_nonce byte_of
build_nonce-injective_example =
    build_nonce-injective seven seven large large (replicate 12 0) (replicate 14 9)
      (record {
        nonzero = omega arith;
        epoch_fits = omega arith;
        sequence_fits = omega arith;
        room = omega arith;
      })
      (record {
        nonzero = omega arith;
        epoch_fits = omega arith;
        sequence_fits = omega arith;
        room = omega arith;
      })
      refl

abbrev sample_header : MediaHeader
sample_header = record {
  struct_size = 72;
  abi_version = 1;
  kind = 1;
  session_id = replicate 16 171;
  stream_id = 1;
  direction = 1;
  key_epoch = 2;
  sequence = 258;
  media_timestamp = 4800;
  payload_length = 4;
}

abbrev old_header : MediaHeader
old_header = record sample_header { struct_size = 80; kind = 0; payload_length = 0 }

abbrev body : List ℕ
body = replicate 20 33

abbrev buffer : List ℕ
buffer = replicate 70 255

sample-FitsTypes : FitsTypes sample_header
sample-FitsTypes = record {
  session = refl;
  stream = omega arith;
  epoch = omega arith;
  sequence = omega arith;
  timestamp = omega arith;
}

sample_header-valid : validate_media_header_fields sample_header ≡ true
unfolding validate_media_header_fields
sample_header-valid = refl

decode-encode_example :
    (header : List ℕ) × (length header ≡ 64)
    × (encode_header (some sample_header) (memory buffer) (some 0)
        ≡ record { status = ok; output = memory (header ++ drop 64 buffer); written = some 64 })
    × (decode_header (memory (header ++ body)) (some old_header) ≡ record {
      status = ok;
      header = some (record sample_header { struct_size = 80; abi_version = 1 });
    })
decode-encode_example =
    decode-encode sample_header old_header buffer body 0 sample-FitsTypes sample_header-valid
      (omega arith) (omega arith) refl

-- What an encoder wrote for the sample header.
abbrev datagram : List ℕ
datagram =
    (b'G' ∷ b'M' ∷ b'A' ∷ b'1' ∷ 1 ∷ 1 ∷ 0 ∷ 0 ∷ [])
    ++ replicate 16 171
    ++ (0 ∷ 0 ∷ 0 ∷ 1 ∷ 1 ∷ 0 ∷ 0 ∷ 0 ∷ [])
    ++ (0 ∷ 0 ∷ 0 ∷ 2 ∷ 0 ∷ 0 ∷ 0 ∷ 0 ∷ [])
    ++ (0 ∷ 0 ∷ 1 ∷ 2 ∷ 0 ∷ 0 ∷ 0 ∷ 0 ∷ [])
    ++ (0 ∷ 0 ∷ 18 ∷ 192 ∷ 0 ∷ 0 ∷ 0 ∷ 4 ∷ [])
    ++ replicate 8 0
    ++ body

abbrev are_small : List ℕ → Bool
are_small [] = true
are_small (x ∷ xs) = ltb x 256 && are_small xs

are_small-AreBytes : (xs : List ℕ) → are_small xs ≡ true → AreBytes xs
are_small-AreBytes [] h i = omega arith
are_small-AreBytes (x ∷ xs) h zero = ground arith
are_small-AreBytes (x ∷ xs) h (suc i) = are_small-AreBytes xs (ground arith) i

datagram-AreBytes : AreBytes datagram
datagram-AreBytes = are_small-AreBytes datagram refl

decoded :
    decode_header (memory datagram) (some old_header)
    ≡ record { status = ok; header = some (record sample_header { struct_size = 80 }) }
unfolding decode_header decode_bytes has_magic read_u16_be all_zero_from read_u32_be
    validate_media_header_fields read_u64_be
decoded = refl

encode-decode_example :
    encode_header (some (record sample_header { struct_size = 80 })) (memory buffer) (some 0)
    ≡ record {
      status = ok;
      output = memory (take 64 datagram ++ drop 64 buffer);
      written = some 64;
    }
encode-decode_example =
    encode-decode datagram buffer old_header (record sample_header { struct_size = 80 }) 0
      datagram-AreBytes decoded (omega arith)

abbrev opus_profile : AudioProfile
opus_profile = record {
  struct_size = 40;
  abi_version = 1;
  codec = 2;
  sample_rate_hz = 48000;
  channels = 2;
  frames_per_packet = 480;
  channel_layout = 1;
  packet_interval_us = 0;
  payload_bytes = 1128;
}

abbrev old_plan : TimingPlan
old_plan = record {
  struct_size = 64;
  abi_version = 1;
  packet_interval_us = 0;
  frames_per_packet = 0;
  playout_target_ms = 0;
  playout_target_frames = 0;
  jitter_capacity_packets = 0;
  jitter_capacity_bytes = 0;
  lookbehind_frames = 0;
  lookahead_frames = 0;
  bridge_capacity_frames = 0;
  bridge_freshness_frames = 0;
  send_capacity_frames = 0;
  send_freshness_frames = 0;
}

abbrev opus_plan : TimingPlan
opus_plan = record {
  struct_size = 64;
  abi_version = 1;
  packet_interval_us = 10000;
  frames_per_packet = 480;
  playout_target_ms = 60;
  playout_target_frames = 2880;
  jitter_capacity_packets = 30;
  jitter_capacity_bytes = 33840;
  lookbehind_frames = 5760;
  lookahead_frames = 12000;
  bridge_capacity_frames = 4800;
  bridge_freshness_frames = 2400;
  send_capacity_frames = 1920;
  send_freshness_frames = 960;
}

planned :
    calculate_timing_plan (some opus_profile) 60 (some old_plan)
    ≡ record { status = ok; plan = some opus_plan }
unfolding calculate_timing_plan
planned = refl

plan_bounds_example :
    (10000 * 48 ≡ 480 * 1000)
    × (30 * 10000 ≡ 300000)
    × (33840 ≤ 65536)
    × (15 ≤ 60)
    × (60 ≤ 120)
    × (2880 ≡ 48 * 60)
    × (2400 ≤ 4800)
    × (960 ≤ 1920)
    × (2880 ≤ 12000)
plan_bounds_example = plan_bounds opus_profile 60 old_plan opus_plan planned
