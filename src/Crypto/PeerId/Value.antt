-- ===== src/Crypto/PeerId/Value.antt =====
-- The text of an identity as a number in base 32, and the loops that write its digits.
use ghost_media.Base.{
  ℕ, zero, suc, ◌+◌, ◌-◌, ◌*◌, ◌/◌, ◌%◌, ◌^◌, ◌<◌, ◌≤◌, ◌≡◌, refl, sym, ap, ◌∙◌, bit_and, bit_or,
  true, false, List, [], ◌∷◌, ◌++◌, map, ltb, leb, length, length-append, arith, Bool-cases, inl,
  inr, length-map, le→ltb, drop, some, ◌==◌,
}
use ghost_media.Bits.Fields.{bit_and-ones}
use ghost_media.Wire.{shl32}
use ghost_media.Crypto.PeerId.Digits.{
  value_from, all_below, value_from-snoc, all_below-snoc, map-snoc, five_bits, above_five,
  taken_above, taken_below, last_digit,
}
use ghost_media.Abi.{ok, memory}
use ghost_media.Crypto.PeerId.{
  PeerIdResult, encode_peer_id, write_letters, Encoder, letter, emit, drain, take_byte, take_bytes,
  finish, encode_letters,
}

-- After `count` bytes that write `n`, the digits write what is above the bits that wait.
record Reads (n count : ℕ) (e : Encoder) : Type 0 where
  digits : List ℕ
  spelled : e.letters ≡ map letter digits
  small : all_below 32 digits ≡ true
  worth : value_from 32 0 digits ≡ n / 2 ^ e.bits_available
  counted : e.bits_available + 5 * length digits ≡ 8 * count
  buffered : e.bit_buffer ≡ n % 2 ^ 32

emit-Reads :
    (n count : ℕ) (e : Encoder) (left : ℕ)
    → Reads n count e
    → e.bits_available ≡ left + 5
    → left < 8
    → Reads n count (emit e (bit_and (e.bit_buffer / 2 ^ left) 0x1f) left)
unfolding emit
emit-Reads n count e left r b h =
    let d = n / 2 ^ left % 32 in
    let read : bit_and (e.bit_buffer / 2 ^ left) 0x1f ≡ d =
      bit_and-ones 5 (e.bit_buffer / 2 ^ left)
      ∙ ap (λ t. t / 2 ^ left % 32) r.buffered
      ∙ five_bits n left h in
    record {
      digits = r.digits ++ d ∷ [];
      spelled = rw read (ap (λ t. t ++ letter d ∷ []) r.spelled ∙ sym (map-snoc letter r.digits d));
      small = all_below-snoc 32 r.digits d r.small (omega arith);
      worth =
          value_from-snoc 32 0 r.digits d
          ∙ ap (λ t. t * 32 + d) (r.worth ∙ ap (λ t. n / 2 ^ t) b)
          ∙ above_five n left h;
      counted = omega (arith, length-append r.digits (d ∷ []), r.counted, b);
      buffered = r.buffered;
    }

-- What a round leaves: fewer bits than a digit has.
record Drained (n count : ℕ) (e : Encoder) : Type 0 where
  reads : Reads n count e
  few : e.bits_available < 5

drain-Reads :
    (n count fuel : ℕ) (e : Encoder)
    → Reads n count e
    → e.bits_available ≤ fuel
    → e.bits_available < 13
    → Drained n count (drain fuel e)
unfolding drain emit
drain-Reads n count zero e r b h = record { reads = r; few = omega arith }
drain-Reads n count (suc fuel) e r b h = elim (Bool-cases (leb 5 e.bits_available)) [
  | inl more ↦
      let left = e.bits_available - 5 in
      let five : e.bits_available ≡ left + 5 = ground (arith, more) in
      let next : Drained n count
          (drain fuel (emit e (bit_and (e.bit_buffer / 2 ^ left) 0x1f) left)) =
        drain-Reads n count fuel (emit e (bit_and (e.bit_buffer / 2 ^ left) 0x1f) left)
          (emit-Reads n count e left r five (omega arith)) (omega arith) (omega arith) in
      rw more next
  | inr done ↦ rw done (record { reads = r; few = ground (arith, done) })
]

take_byte-Reads :
    (n count : ℕ) (e : Encoder) (byte : ℕ)
    → byte < 256
    → Drained n count e
    → Drained (n * 256 + byte) (count + 1) (take_byte e byte)
unfolding take_byte
take_byte-Reads n count e byte h d =
    drain-Reads (n * 256 + byte) (count + 1) (e.bits_available + 8)
      record {
        letters = e.letters;
        bit_buffer = bit_or (shl32 e.bit_buffer 8) byte;
        bits_available = e.bits_available + 8;
      }
      record {
        digits = d.reads.digits;
        spelled = d.reads.spelled;
        small = d.reads.small;
        worth = d.reads.worth ∙ taken_above n byte h e.bits_available (omega (arith, d.few));
        counted = omega (arith, d.reads.counted);
        buffered = taken_below n byte e.bit_buffer h d.reads.buffered;
      }
      (omega arith) (omega (arith, d.few))

take_bytes-Reads :
    (bytes : List ℕ) (n count : ℕ) (e : Encoder)
    → all_below 256 bytes ≡ true
    → Drained n count e
    → Drained (value_from 256 n bytes) (count + length bytes) (take_bytes e bytes)
unfolding take_bytes value_from all_below
take_bytes-Reads [] n count e h d = let same : count + 0 ≡ count = omega arith in rw same d
take_bytes-Reads (byte ∷ rest) n count e h d =
    let next : count + suc (length rest) ≡ count + 1 + length rest = omega arith in
    rw next (
      take_bytes-Reads rest (n * 256 + byte) (count + 1) (take_byte e byte) (ground (arith, h))
        (take_byte-Reads n count e byte (ground (arith, h)) d))

-- The digits of the text of 32 bytes: one digit for five bits and one for the last bit.
pub record Spelled (digest letters : List ℕ) : Type 0 where
  pub digits : List ℕ
  pub spelled : letters ≡ map letter digits
  pub small : all_below 32 digits ≡ true
  pub counted : length digits ≡ 52
  pub worth : value_from 32 0 digits ≡ 16 * value_from 256 0 digest

start-Drained : Drained 0 0 record { letters = []; bit_buffer = 0; bits_available = 0 }
unfolding value_from all_below
start-Drained = record {
  reads = record {
    digits = [];
    spelled = refl;
    small = refl;
    worth = refl;
    counted = refl;
    buffered = refl;
  };
  few = omega arith;
}

finish_lem :
    (e : Encoder) (last : ℕ)
    → e.bits_available ≡ 1
    → bit_and (shl32 e.bit_buffer 4) 0x1f ≡ last
    → (finish e).letters ≡ e.letters ++ letter last ∷ []
unfolding finish emit
finish_lem e last one read = rw (one, read) refl

pub encode_letters-Spelled :
    (digest : List ℕ)
    → all_below 256 digest ≡ true
    → length digest ≡ 32
    → Spelled digest (encode_letters digest)
unfolding encode_letters
encode_letters-Spelled digest h k =
    let start : Encoder = record { letters = []; bit_buffer = 0; bits_available = 0 } in
    let n = value_from 256 0 digest in
    let e = take_bytes start digest in
    let d : Drained n (0 + length digest) e = take_bytes-Reads digest 0 0 start h start-Drained in
    let r = d.reads in
    let one : e.bits_available ≡ 1 = omega (arith, r.counted, d.few, k) in
    let last = n % 2 ^ 32 * 2 ^ 4 % 2 ^ 32 % 32 in
    let read : bit_and (shl32 e.bit_buffer 4) 0x1f ≡ last =
      bit_and-ones 5 (shl32 e.bit_buffer 4) ∙ ap (λ t. t * 2 ^ 4 % 2 ^ 32 % 32) r.buffered in
    record {
      digits = r.digits ++ last ∷ [];
      spelled =
          finish_lem e last one read
          ∙ ap (λ t. t ++ letter last ∷ []) r.spelled
          ∙ sym (map-snoc letter r.digits last);
      small = all_below-snoc 32 r.digits last r.small (omega arith);
      counted = omega (arith, length-append r.digits (last ∷ []), r.counted, one, k);
      worth =
          value_from-snoc 32 0 r.digits last
          ∙ ap (λ t. t * 32 + last) (r.worth ∙ ap (λ t. n / 2 ^ t) one)
          ∙ last_digit n;
    }

-- The result of a call that wrote the text of the digest over the front of the output.
pub record IsPeerId (digest bytes : List ℕ) (r : PeerIdResult) : Type 0 where
  pub letters : List ℕ
  pub spelled : Spelled digest letters
  pub result :
      r ≡ record { status = ok; output = memory (letters ++ 0 ∷ drop 53 bytes); written = some 53 }

-- For a digest of 32 bytes and an output with room for 53 bytes, encoding writes the text of the
-- digest with its NUL behind it: 52 letters that spell 16 times the digest's number in base 32.
pub encode_peer_id-IsPeerId :
    (digest bytes : List ℕ) (old : ℕ)
    → all_below 256 digest ≡ true
    → length digest ≡ 32
    → 53 ≤ length bytes
    → IsPeerId digest bytes (encode_peer_id (memory digest) (memory bytes) (some old))
unfolding encode_peer_id write_letters
encode_peer_id-IsPeerId digest bytes old h k room =
    let s = encode_letters-Spelled digest h k in
    let count : length (encode_letters digest) ≡ 52 =
      ap length s.spelled ∙ length-map s.digits letter ∙ s.counted in
    let sized : (length digest == 32) ≡ true = ground (arith, k) in
    let fits : ltb (length bytes) 53 ≡ false = le→ltb 53 (length bytes) room in
    record { letters = encode_letters digest; spelled = s; result = rw (sized, fits, count) refl }
