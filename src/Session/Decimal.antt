-- ===== src/Session/Decimal.antt =====
-- How `gm_control_session_ingest` prints a time into the reply to a ping.
use ghost_media.Base.{
  ℕ, zero, suc, ◌+◌, ◌/◌, ◌%◌, not, ◌&&◌, List, ltb, ◌==◌, if◌then◌else◌, set, drop, replicate,
}

-- The `do` loop: the digits are written downwards from `write_index`. The result is the string
-- `digits + write_index`.
pub print_digits : (write_index : ℕ) → (digits : List ℕ) → (remaining : ℕ) → List ℕ
print_digits zero digits remaining = digits
print_digits (suc write_index) digits remaining =
    let written = set digits write_index (b'0' + remaining % 10) in
    let rest = print_digits write_index written (remaining / 10) in
    if not (remaining / 10 == 0) && ltb 0 write_index then rest else drop write_index written

-- The buffer has 21 characters, all NUL; the last one stays.
pub print_u64 : ℕ → List ℕ
unfolding print_digits
print_u64 now_ns = print_digits 20 (replicate 21 0) now_ns
