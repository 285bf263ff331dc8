-- ===== src/Media/Replay/Refinement.antt =====
-- The entry points of the replay window, called one after the other, against the history.
use ghost_media.Base.{
  ℕ, ◌≤◌, ◌≡◌, ◌≢◌, inl, refl, ap, Option, none, some, List, [], ◌∷◌, ◌++◌, map, ltb, arith,
  replicate, Bool-cases, inr,
}
use ghost_media.Abi.{Status, ok}
use ghost_media.Media.Replay.{
  ReplayWindow, AcceptResult, accept_sequence, accept, init, replay_accepted,
}
use ghost_media.Media.Replay.History.{
  verdict, remember, verdicts, recall, stale-ne-accepted, presented-IsStale, IsStale,
}
use ghost_media.Media.Replay.Tracking.{Tracks, accept_sequence-Tracks}

-- A call with a place for the verdict.
abbrev pub call : Option ReplayWindow → ℕ → AcceptResult
call w sequence = accept w sequence (some 0)

-- Status and verdict of successive calls, and the window after them.
pub run : Option ReplayWindow → List ℕ → List (Status × Option ℕ)
run w [] = []
run w (x ∷ xs) = ((call w x).status, (call w x).out_result) ∷ run (call w x).window xs

pub after : Option ReplayWindow → List ℕ → Option ReplayWindow
after w [] = w
after w (x ∷ xs) = after (call w x).window xs

-- A window that `init` accepted and that has seen some numbers.
record Serves (seen : List ℕ) (w : ReplayWindow) : Type 0 where
  sized : 152 ≤ w.struct_size
  versioned : w.abi_version ≡ 1
  tracks : Tracks seen w

call-Serves :
    (seen : List ℕ) (w : ReplayWindow) (x : ℕ)
    → Serves seen w
    → ((call (some w) x).status ≡ ok)
      × ((call (some w) x).out_result ≡ some (verdict seen x))
      × ((call (some w) x).window ≡ some (accept_sequence w x).window)
unfolding accept
call-Serves seen w x s =
    let answer = (accept_sequence-Tracks seen w x s.tracks).0 in
    (
      ground (arith, s.sized, s.versioned),
      ground (arith, s.sized, s.versioned, answer),
      ground (arith, s.sized, s.versioned),
    )

step-Serves :
    (seen : List ℕ) (w : ReplayWindow) (x : ℕ)
    → Serves seen w
    → Serves (remember seen x) (accept_sequence w x).window
step-Serves seen w x s = record {
  sized = unfold accept_sequence in ground (arith, s.sized);
  versioned = unfold accept_sequence in ground (arith, s.versioned);
  tracks = (accept_sequence-Tracks seen w x s.tracks).1;
}

init-Serves :
    (w : Option ReplayWindow)
    → (init w).status ≡ ok
    → (fresh : ReplayWindow) × ((init w).window ≡ some fresh) × Serves [] fresh
unfolding init
init-Serves none good = cc
init-Serves (some w) good = elim (Bool-cases (ltb w.struct_size 152)) [
  | inl small ↦ absurd (ground (arith, small))
  | inr fits ↦ rw fits (
    record {
      struct_size = w.struct_size;
      abi_version = 1;
      initialized = 0;
      highest_sequence = 0;
      bitmap = replicate 16 0;
    },
    refl,
    record {
      sized = ground arith;
      versioned = refl;
      tracks = record { sized = refl; phase = inl (refl, refl) };
    },
  )
]

run-verdicts :
    (seen : List ℕ) (w : ReplayWindow) (xs : List ℕ)
    → Serves seen w
    → run (some w) xs ≡ map (λ v. (ok, some v)) (verdicts seen xs)
unfolding run verdicts
run-verdicts seen w [] s = refl
run-verdicts seen w (x ∷ xs) s =
    let c = call-Serves seen w x s in
    rw (c.0, c.1, c.2)
      (ap (◌∷◌ (ok, some (verdict seen x)))
        (run-verdicts (remember seen x) (accept_sequence w x).window xs (step-Serves seen w x s)))

after-Serves :
    (seen : List ℕ) (w : ReplayWindow) (xs : List ℕ)
    → Serves seen w
    → (v : ReplayWindow) × (after (some w) xs ≡ some v) × Serves (recall seen xs) v
unfolding after recall
after-Serves seen w [] s = (w, refl, s)
after-Serves seen w (x ∷ xs) s =
    rw (call-Serves seen w x s).2
      (after-Serves (remember seen x) (accept_sequence w x).window xs (step-Serves seen w x s))

-- After an initialisation that succeeded, any sequence of calls succeeds and gives the verdicts of
-- the unbounded history: too old for a number 1024 or more below the newest accepted one, else
-- duplicate for one that was accepted before, else accepted.
pub run-refines :
    (w : Option ReplayWindow) (xs : List ℕ)
    → (init w).status ≡ ok
    → run (init w).window xs ≡ map (λ v. (ok, some v)) (verdicts [] xs)
run-refines w xs good =
    let (fresh, made, serves) = init-Serves w good in rw made (run-verdicts [] fresh xs serves)

-- After an initialisation that succeeded, a sequence number that has been presented once is never
-- accepted later, whatever was presented before it and in between.
pub presented_twice :
    (w : Option ReplayWindow) (xs : List ℕ) (x : ℕ) (ys : List ℕ)
    → (init w).status ≡ ok
    → (call (after (init w).window (xs ++ x ∷ ys)) x).out_result ≢ some replay_accepted
presented_twice w xs x ys good =
    let (fresh, made, serves) = init-Serves w good in
    let (v, reached, serving) = after-Serves [] fresh (xs ++ x ∷ ys) serves in
    let past : List ℕ = recall [] (xs ++ x ∷ ys) in
    let stale : IsStale past x = presented-IsStale [] xs x ys in
    rw (made, reached, (call-Serves past v x serving).1)
      (λ e. stale-ne-accepted past x stale (ground (arith, e)))
