-- ===== src/Media/Replay/History.antt =====
-- The specification of the replay window: it remembers every sequence number that it accepted,
-- and refuses those that lie 1024 or more below the newest. No bitmap, no bound on the memory.
use ghost_media.Base.{
  ℕ, ◌+◌, ◌≤◌, max, ◌≡◌, ◌≢◌, ◌⊎◌, Bool, true, false, ◌||◌, List, [], ◌∷◌, ◌++◌, leb, ◌==◌,
  if◌then◌else◌, arith, refl,
}
use ghost_media.Media.Replay.{replay_window_bits, replay_accepted, replay_duplicate, replay_too_old}

unfoldable pub contains : List ℕ → ℕ → Bool
contains [] x = false
contains (y ∷ ys) x = y == x || contains ys x

-- The largest number accepted so far, 0 before the first.
unfoldable pub newest : List ℕ → ℕ
newest [] = 0
newest (y ∷ ys) = max y (newest ys)

unfoldable pub verdict : List ℕ → ℕ → ℕ
verdict seen x =
    if leb (x + replay_window_bits) (newest seen)
    then replay_too_old
    else if contains seen x
    then replay_duplicate
    else replay_accepted

unfoldable pub remember : List ℕ → ℕ → List ℕ
remember seen x = if verdict seen x == replay_accepted then x ∷ seen else seen

unfoldable pub verdicts : List ℕ → List ℕ → List ℕ
verdicts seen [] = []
verdicts seen (x ∷ xs) = verdict seen x ∷ verdicts (remember seen x) xs

-- What is remembered after a run.
unfoldable pub recall : List ℕ → List ℕ → List ℕ
recall seen [] = seen
recall seen (x ∷ xs) = recall (remember seen x) xs

pub contains-le-newest : (seen : List ℕ) (x : ℕ) → contains seen x ≡ true → x ≤ newest seen
unfolding contains newest
contains-le-newest [] x h = ground arith
contains-le-newest (y ∷ ys) x h = ground (arith, contains-le-newest ys x)

-- A number that was accepted or has fallen out of the window.
abbrev pub IsStale : List ℕ → ℕ → Type 0
IsStale seen x = (contains seen x ≡ true) ⊎ (x + replay_window_bits ≤ newest seen)

remember-IsStale : (seen : List ℕ) (x : ℕ) → IsStale (remember seen x) x
unfolding remember verdict contains
remember-IsStale seen x = ground arith

IsStale-remember : (seen : List ℕ) (x y : ℕ) → IsStale seen x → IsStale (remember seen y) x
unfolding remember contains newest
IsStale-remember seen x y h = ground arith

IsStale-recall : (seen : List ℕ) (x : ℕ) (ys : List ℕ) → IsStale seen x → IsStale (recall seen ys) x
unfolding recall
IsStale-recall seen x [] h = h
IsStale-recall seen x (y ∷ ys) h =
    IsStale-recall (remember seen y) x ys (IsStale-remember seen x y h)

pub stale-ne-accepted : (seen : List ℕ) (x : ℕ) → IsStale seen x → verdict seen x ≢ replay_accepted
unfolding verdict
stale-ne-accepted seen x h = ground arith

recall-append : (seen xs ys : List ℕ) → recall seen (xs ++ ys) ≡ recall (recall seen xs) ys
unfolding recall
recall-append seen [] ys = refl
recall-append seen (x ∷ xs) ys = recall-append (remember seen x) xs ys

-- Once presented, a number is stale for ever.
pub presented-IsStale :
    (seen xs : List ℕ) (x : ℕ) (ys : List ℕ) → IsStale (recall seen (xs ++ x ∷ ys)) x
unfolding recall
presented-IsStale seen xs x ys =
    rw (recall-append seen xs (x ∷ ys))
      (IsStale-recall (remember (recall seen xs) x) x ys (remember-IsStale (recall seen xs) x))
