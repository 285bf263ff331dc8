-- ===== src/Media/Header/Layout.antt =====
-- Where the fields of a media header stand in its 64 bytes.
use ghost_media.Base.{
  ℕ, zero, suc, ◌+◌, ◌%◌, ◌^◌, ◌≤◌, ◌≡◌, refl, ap, List, [], ◌∷◌, ◌++◌, length, take, drop,
  replicate, arith,
}
use ghost_media.Wire.{byte_at, byte_of}
use ghost_media.Media.Header.{MediaHeader, write_header}

-- The first n bytes that a function gives.
abbrev pub tabulate : ℕ → (ℕ → ℕ) → List ℕ
tabulate zero f = []
tabulate (suc n) f = f 0 ∷ tabulate n (λ i. f (suc i))

pub take-tabulate : (n : ℕ) (xs : List ℕ) → n ≤ length xs → take n xs ≡ tabulate n (byte_at xs)
take-tabulate zero xs h = refl
take-tabulate (suc n) [] h = absurd (omega arith)
take-tabulate (suc n) (x ∷ xs) h = ap (◌∷◌ x) (take-tabulate n xs (omega arith))

abbrev pub u32_be : ℕ → List ℕ → List ℕ
u32_be v rest = byte_of v 24 ∷ byte_of v 16 ∷ byte_of v 8 ∷ byte_of v 0 ∷ rest

abbrev pub u64_be : ℕ → List ℕ → List ℕ
u64_be v rest = byte_of v 56 ∷ byte_of v 48 ∷ byte_of v 40 ∷ byte_of v 32 ∷ u32_be v rest

-- The layout in one piece, the session id given by its bytes.
abbrev pub layout : MediaHeader → (ℕ → ℕ) → List ℕ → List ℕ
layout h session rest =
    b'G'
    ∷ b'M'
    ∷ b'A'
    ∷ b'1'
    ∷ 1
    ∷ h.kind % 2 ^ 8
    ∷ byte_of 0 8
    ∷ byte_of 0 0
    ∷ (tabulate 16 session
        ++ u32_be h.stream_id (
            h.direction % 2 ^ 8
            ∷ 0
            ∷ 0
            ∷ 0
            ∷ u32_be h.key_epoch (
                u64_be h.sequence
                  (u64_be h.media_timestamp (u32_be h.payload_length (replicate 8 0 ++ rest))))))

pub write_header-layout :
    (h : MediaHeader) (session : ℕ → ℕ) (output : List ℕ)
    → h.session_id ≡ tabulate 16 session
    → write_header h output ≡ layout h session (drop 64 output)
write_header-layout h session output e = rw e

pub eq-tabulate : (n : ℕ) (xs : List ℕ) → length xs ≡ n → xs ≡ tabulate n (byte_at xs)
eq-tabulate zero [] e = refl
eq-tabulate zero (x ∷ xs) e = absurd (omega arith)
eq-tabulate (suc n) [] e = absurd (omega arith)
eq-tabulate (suc n) (x ∷ xs) e = ap (◌∷◌ x) (eq-tabulate n xs (omega arith))

pub length-layout :
    (h : MediaHeader) (session : ℕ → ℕ) (rest : List ℕ)
    → length (layout h session rest) ≡ 64 + length rest
length-layout h session rest = omega arith

pub split-tabulate :
    (n : ℕ) (xs : List ℕ) → n ≤ length xs → xs ≡ tabulate n (byte_at xs) ++ drop n xs
split-tabulate zero xs h = refl
split-tabulate (suc n) [] h = absurd (omega arith)
split-tabulate (suc n) (x ∷ xs) h = ap (◌∷◌ x) (split-tabulate n xs (omega arith))
