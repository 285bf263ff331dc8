-- ===== src/Media/Replay/Tracking.antt =====
-- The window of shared/core/gm_media.cpp against the history of the numbers that it accepted.
use ghost_media.Base.{
  ℕ, ◌-◌, ◌≤◌, ◌<◌, ◌≡◌, ◌≢◌, ◌⊎◌, inl, inr, refl, ap, ◌∙◌, sym, subst, false, ◌&&◌, List, [], ◌∷◌,
  ltb, leb, ◌==◌, if◌then◌else◌, length, Bool-cases, arith,
}
use ghost_media.Media.Replay.{
  ReplayWindow, Acceptance, accept_sequence, replay_accepted, replay_duplicate, replay_too_old,
  set_bit, clear_bitmap, shift_bitmap_left, get_bit,
}
use ghost_media.Media.Replay.Bitmap.{
  mark, IsBitmap, get_bit-mark, mark-set_bit, set_bit-IsBitmap, mark-clear_bitmap,
  clear_bitmap-IsBitmap,
}
use ghost_media.Media.Replay.Shift.{mark-shift_bitmap_left, shift_bitmap_left-IsBitmap}
use ghost_media.Media.Replay.History.{contains, newest, verdict, remember, contains-le-newest}

-- A window in use holds exactly the accepted numbers that lie within its reach.
pub record Covers (seen : List ℕ) (highest : ℕ) (bitmap : List ℕ) : Type 0 where
  pub bits : IsBitmap bitmap
  pub top : highest ≡ newest seen
  pub marks :
      (d : ℕ)
      → d < 1024
      → mark bitmap d ≡ (if leb d highest && contains seen (highest - d) then 1 else 0)

pub record Tracks (seen : List ℕ) (w : ReplayWindow) : Type 0 where
  pub sized : length w.bitmap ≡ 16
  pub phase :
      ((w.initialized ≡ 0) × (seen ≡ []))
      ⊎ ((w.initialized ≡ 1) × Covers seen w.highest_sequence w.bitmap)

first-Covers :
    (x : ℕ) (bitmap : List ℕ)
    → length bitmap ≡ 16
    → Covers (x ∷ []) x (set_bit (clear_bitmap bitmap) 0)
first-Covers x bitmap sized = record {
  bits = set_bit-IsBitmap (clear_bitmap bitmap) 0 cleared (omega arith);
  top = unfold newest in omega arith;
  marks = λ d h.
      mark-set_bit (clear_bitmap bitmap) 0 d cleared.sized (omega arith)
      ∙ unfold contains in ground (arith, mark-clear_bitmap bitmap d sized);
}
  where
    cleared : IsBitmap (clear_bitmap bitmap)
    cleared = clear_bitmap-IsBitmap bitmap sized

newer-Covers :
    (seen : List ℕ) (highest x : ℕ) (bitmap : List ℕ)
    → Covers seen highest bitmap
    → highest < x
    → Covers (x ∷ seen) x (set_bit (shift_bitmap_left bitmap (x - highest)) 0)
newer-Covers seen highest x bitmap v newer = record {
  bits = set_bit-IsBitmap (shift_bitmap_left bitmap (x - highest)) 0 shifted (omega arith);
  top = unfold newest in omega (arith, v.top);
  marks = λ d h.
      mark-set_bit (shift_bitmap_left bitmap (x - highest)) 0 d shifted.sized (omega arith)
      ∙ unfold contains in
        ground (
          arith,
          mark-shift_bitmap_left bitmap (x - highest) d v.bits h,
          v.marks (d - (x - highest)),
          contains-le-newest seen (x - d),
          v.top,
          same_number d,
        );
}
  where
    shifted : IsBitmap (shift_bitmap_left bitmap (x - highest))
    shifted = shift_bitmap_left-IsBitmap bitmap (x - highest) v.bits

    same_number :
        (d : ℕ)
        → d ≤ x
        → x - highest ≤ d
        → contains seen (highest - (d - (x - highest))) ≡ contains seen (x - d)
    same_number d p q = ap (contains seen) (omega arith)

older-Covers :
    (seen : List ℕ) (highest x : ℕ) (bitmap : List ℕ)
    → Covers seen highest bitmap
    → x ≤ highest
    → highest - x < 1024
    → Covers (x ∷ seen) highest (set_bit bitmap (highest - x))
older-Covers seen highest x bitmap v older near = record {
  bits = set_bit-IsBitmap bitmap (highest - x) v.bits near;
  top = unfold newest in omega (arith, v.top);
  marks = λ d h.
      mark-set_bit bitmap (highest - x) d v.bits.sized near
      ∙ unfold contains in ground (arith, v.marks d h);
}

-- What a step does to a window that covers its history.
abbrev pub Agrees : List ℕ → ℕ → Acceptance → Type 0
Agrees seen x step = (step.result ≡ verdict seen x) × Tracks (remember seen x) step.window

first-Agrees :
    (w : ReplayWindow) (x : ℕ)
    → length w.bitmap ≡ 16
    → w.initialized ≡ 0
    → Agrees [] x (accept_sequence w x)
unfolding accept_sequence
first-Agrees w x sized fresh =
    let first : Covers (x ∷ []) x (set_bit (clear_bitmap w.bitmap) 0) =
      first-Covers x w.bitmap sized in
    let empty : verdict [] x ≡ replay_accepted = unfold verdict newest contains in ground arith in
    rw fresh (
      sym empty,
      unfold remember in rw empty (record { sized = first.bits.sized; phase = inr (refl, first) }),
    )

-- The two ways on: a number that is taken joins the history, any other leaves all as it was.
Agrees-taken :
    (seen : List ℕ) (x : ℕ) (w : ReplayWindow)
    → w.initialized ≡ 1
    → verdict seen x ≡ replay_accepted
    → Covers (x ∷ seen) w.highest_sequence w.bitmap
    → Agrees seen x (record { window = w; result = replay_accepted })
Agrees-taken seen x w started e v =
    (sym e, unfold remember in rw e (record { sized = v.bits.sized; phase = inr (started, v) }))

Agrees-refused :
    (seen : List ℕ) (x result : ℕ) (w : ReplayWindow)
    → Tracks seen w
    → result ≢ replay_accepted
    → verdict seen x ≡ result
    → Agrees seen x (record { window = w; result = result })
Agrees-refused seen x result w t ne e =
    let same : seen ≡ remember seen x = unfold remember in ground (arith, ne) in
    (sym e, subst (λ s. Tracks s w) same t)

module _ (seen : List ℕ) (w : ReplayWindow) (x : ℕ) (started : w.initialized ≡ 1)
    (v : Covers seen w.highest_sequence w.bitmap) where
  verdict_newer : w.highest_sequence < x → verdict seen x ≡ replay_accepted
  unfolding verdict
  verdict_newer h = ground (arith, v.top, contains-le-newest seen x)

  verdict_older :
      (delta : ℕ)
      → delta ≡ w.highest_sequence - x
      → x ≤ w.highest_sequence
      → verdict seen x ≡ (
          if leb 1024 delta
          then replay_too_old
          else if get_bit w.bitmap delta
          then replay_duplicate
          else replay_accepted)
  unfolding verdict
  verdict_older delta e h =
      let back : w.highest_sequence - delta ≡ x = omega arith in
      ground (arith, v.top, v.marks delta, get_bit-mark w.bitmap delta, ap (contains seen) back)

  started-Tracks : Tracks seen w
  started-Tracks = record { sized = v.bits.sized; phase = inr (started, v) }

  started-Agrees : Agrees seen x (accept_sequence w x)
  unfolding accept_sequence
  started-Agrees =
      let in_use : (w.initialized == 0) ≡ false = ground arith in
      let delta : ℕ = w.highest_sequence - x in
      elim (Bool-cases (ltb w.highest_sequence x)) [
        | inl newer ↦
            let above : w.highest_sequence < x = ground arith in
            rw (in_use, newer)
              (Agrees-taken seen x _ started (verdict_newer above)
                (newer-Covers seen w.highest_sequence x w.bitmap v above))
        | inr older ↦
            let below : x ≤ w.highest_sequence = ground arith in
            let answer = verdict_older delta refl below in
            elim (Bool-cases (leb 1024 delta)) [
              | inl far ↦
                  rw (in_use, older, far)
                    (Agrees-refused seen x replay_too_old w started-Tracks (omega arith)
                      (answer ∙ rw far))
              | inr near ↦ elim (Bool-cases (get_bit w.bitmap delta)) [
                | inl set ↦
                    rw (in_use, older, near, set)
                      (Agrees-refused seen x replay_duplicate w started-Tracks (omega arith)
                        (answer ∙ rw (near, set)))
                | inr clear ↦
                    rw (in_use, older, near, clear)
                      (Agrees-taken seen x _ started (answer ∙ rw (near, clear))
                        (older-Covers seen w.highest_sequence x w.bitmap v below (ground arith)))
              ]
            ]
      ]

-- The bitmap answers as the history does.
pub accept_sequence-Tracks :
    (seen : List ℕ) (w : ReplayWindow) (x : ℕ) → Tracks seen w → Agrees seen x (accept_sequence w x)
accept_sequence-Tracks seen w x t = elim t.phase [
  | inl (fresh, empty) ↦ rw empty (first-Agrees w x t.sized fresh)
  | inr (started, v) ↦ started-Agrees seen w x started v
]
