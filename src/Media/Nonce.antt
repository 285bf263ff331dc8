-- ===== src/Media/Nonce.antt =====
-- `gm_media_build_nonce` of shared/core/gm_media.cpp: the 12-byte AEAD nonce of a datagram.
use ghost_media.Base.{
  ℕ, ◌^◌, ◌<◌, ◌≤◌, ◌≡◌, ◌≢◌, false, refl, ap, ◌∙◌, sym, not, List, [], ◌++◌, ltb, ◌==◌,
  if◌then◌else◌, length, drop, arith, le→ltb, take,
}
use ghost_media.Abi.{
  Status, ok, bad_argument, bad_message, buffer_too_small, Bytes, null, memory, size, contents,
  has_readable_data,
}
use ghost_media.Wire.{byte_at, write_u32_be, write_u64_be, read_u32_be, read_u64_be}
use ghost_media.Wire.Fields.{read_u32_be_written, read_u64_be_written}
use ghost_media.Media.Header.Layout.{u32_be, u64_be, tabulate, split-tabulate}

abbrev pub media_nonce_bytes : ℕ
media_nonce_bytes = 12

pub record NonceResult : Type 0 where
  pub status : Status
  pub output : Bytes

unfoldable pub build_nonce : ℕ → ℕ → Bytes → NonceResult
build_nonce key_epoch sequence output =
    if not (has_readable_data output)
    then record { status = bad_argument; output = output }
    else if key_epoch == 0
    then record { status = bad_message; output = output }
    else if ltb (size output) media_nonce_bytes
    then record { status = buffer_too_small; output = output }
    else elim output [
      | null n ↦ record { status = bad_argument; output = null n }
      | memory bytes ↦ record {
        status = ok;
        output = memory (write_u64_be (write_u32_be bytes 0 key_epoch) 4 sequence);
      }
    ]

-- The nonce of an epoch and a sequence number.
abbrev nonce : ℕ → ℕ → List ℕ
nonce key_epoch sequence = u32_be key_epoch (u64_be sequence [])

written_over :
    (key_epoch sequence : ℕ) (old : ℕ → ℕ) (rest : List ℕ)
    → write_u64_be (write_u32_be (tabulate 12 old ++ rest) 0 key_epoch) 4 sequence
      ≡ nonce key_epoch sequence ++ rest
written_over key_epoch sequence old rest = refl

-- A buffer with room gets the nonce of a non-zero epoch in its first 12 bytes.
build_nonce-memory :
    (key_epoch sequence : ℕ) (bytes : List ℕ)
    → key_epoch ≢ 0
    → 12 ≤ length bytes
    → build_nonce key_epoch sequence (memory bytes)
      ≡ record { status = ok; output = memory (nonce key_epoch sequence ++ drop 12 bytes) }
unfolding build_nonce
build_nonce-memory key_epoch sequence bytes ne room =
    let positive : (key_epoch == 0) ≡ false = ground arith in
    let fits : ltb (length bytes) 12 ≡ false = le→ltb 12 (length bytes) room in
    rw (positive, fits)
      (ap
          (λ (b : List ℕ). record {
            status = ok;
            output = memory (write_u64_be (write_u32_be b 0 key_epoch) 4 sequence);
          })
          (split-tabulate 12 bytes room)
        ∙ ap (λ (b : List ℕ). record { status = ok; output = memory b })
            (written_over key_epoch sequence (byte_at bytes) (drop 12 bytes)))

nonce_fields :
    (key_epoch sequence : ℕ)
    → key_epoch < 2 ^ 32
    → sequence < 2 ^ 64
    → (read_u32_be (nonce key_epoch sequence) 0 ≡ key_epoch)
      × (read_u64_be (nonce key_epoch sequence) 4 ≡ sequence)
nonce_fields key_epoch sequence h k = (
  read_u32_be_written (nonce key_epoch sequence) 0 key_epoch h (refl, refl, refl, refl),
  read_u64_be_written (nonce key_epoch sequence) 4 sequence k
      (refl, refl, refl, refl, refl, refl, refl, refl),
)

-- The arguments of a call that succeeds: a non-zero epoch of 32 bits, a sequence number of 64 bits
-- and a buffer with room for the nonce.
pub record Usable (key_epoch sequence : ℕ) (bytes : List ℕ) : Type 0 where
  pub nonzero : key_epoch ≢ 0
  pub epoch_fits : key_epoch < 2 ^ 32
  pub sequence_fits : sequence < 2 ^ 64
  pub room : 12 ≤ length bytes

-- Two calls with usable arguments that leave the same nonce in their buffers had the same epoch
-- and the same sequence number.
pub build_nonce-injective :
    (epoch epoch' sequence sequence' : ℕ) (bytes bytes' : List ℕ)
    → Usable epoch sequence bytes
    → Usable epoch' sequence' bytes'
    → take 12 (contents (build_nonce epoch sequence (memory bytes)).output)
      ≡ take 12 (contents (build_nonce epoch' sequence' (memory bytes')).output)
    → (epoch ≡ epoch') × (sequence ≡ sequence')
build_nonce-injective epoch epoch' sequence sequence' bytes bytes' u u' same =
    let first = build_nonce-memory epoch sequence bytes u.nonzero u.room in
    let second = build_nonce-memory epoch' sequence' bytes' u'.nonzero u'.room in
    let equal : nonce epoch sequence ≡ nonce epoch' sequence' = rw (first, second) at same in
    let fields = nonce_fields epoch sequence u.epoch_fits u.sequence_fits in
    let fields' = nonce_fields epoch' sequence' u'.epoch_fits u'.sequence_fits in
    (
      sym fields.0 ∙ ap (λ n. read_u32_be n 0) equal ∙ fields'.0,
      sym fields.1 ∙ ap (λ n. read_u64_be n 4) equal ∙ fields'.1,
    )
