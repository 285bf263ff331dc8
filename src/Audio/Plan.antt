-- ===== src/Audio/Plan.antt =====
-- What a timing plan guarantees.
use ghost_media.Base.{ℕ, ◌*◌, ◌≤◌, ◌≡◌, some, arith}
use ghost_media.Abi.{ok}
use ghost_media.Audio.{AudioProfile, TimingPlan, calculate_timing_plan}

-- A plan that is given out fits its profile: a packet of the plan's interval carries exactly the
-- profile's frames at 48 kHz; the jitter buffer holds 300 ms of packets, at least the playout
-- target, in at most 65536 bytes; the target lies between 15 and 120 ms, in frames exactly; and
-- the freshness limits lie within the capacities.
pub plan_bounds :
    (p : AudioProfile) (target : ℕ) (out plan : TimingPlan)
    → calculate_timing_plan (some p) target (some out) ≡ record { status = ok; plan = some plan }
    → (plan.packet_interval_us * 48 ≡ plan.frames_per_packet * 1000)
      × (plan.jitter_capacity_packets * plan.packet_interval_us ≡ 300000)
      × (plan.jitter_capacity_bytes ≤ 65536)
      × (15 ≤ plan.playout_target_ms)
      × (plan.playout_target_ms ≤ 120)
      × (plan.playout_target_frames ≡ 48 * target)
      × (plan.bridge_freshness_frames ≤ plan.bridge_capacity_frames)
      × (plan.send_freshness_frames ≤ plan.send_capacity_frames)
      × (plan.playout_target_frames ≤ plan.lookahead_frames)
unfolding calculate_timing_plan
plan_bounds p target out plan e = ground arith
