-- ===== src/Gguf/Primitives.antt =====
-- src/gguf.cpp, integers, strings and alignment.
use llm_cpp.Prelude.{
  ℕ, zero, suc, ◌+◌, ◌*◌, ◌/◌, ◌%◌, ◌^◌, ◌≤◌, ◌<◌, ◌≡◌, refl, ap, ◌∙◌, subst, false, some, [], ◌∷◌,
  ◌++◌, append_assoc, arith, ltb, length, length-append, take-length, drop-length, nat_eq, list_eq,
  int_eq,
}
use llm_cpp.Text.{digits, to_string}
use native.Mathlib.Nat.{mod-lt, div-add-mod}
use llm_cpp.Gguf.{
  Bytes, le_bytes, from_le, write_u32, write_u64, write_string, read_bytes, read_u32, read_u64,
  read_string, align_offset,
}

length-le_bytes : (n v : ℕ) → length (le_bytes n v) ≡ n
unfolding le_bytes
length-le_bytes zero v = refl
length-le_bytes (suc n) v = ap suc (length-le_bytes n (v / 256))

from_le-le_bytes : (n v : ℕ) → v < 256 ^ n → from_le (le_bytes n v) ≡ v
unfolding le_bytes from_le
from_le-le_bytes zero v h = grind arith
from_le-le_bytes (suc n) v h =
    ap (λ k. v % 256 + 256 * k) (from_le-le_bytes n (v / 256) (grind (arith, div-add-mod)))
    ∙ grind (arith, div-add-mod)

read_bytes-append : (s rest : Bytes) → read_bytes (length s) (s ++ rest) ≡ some (s, rest)
unfolding read_bytes
read_bytes-append s rest =
    let enough : ltb (length (s ++ rest)) (length s) ≡ false =
      ground (arith, length-append s rest) in
    rw (enough, take-length s rest, drop-length s rest) refl

read_bytes-le_bytes :
    (n v : ℕ) (rest : Bytes) → read_bytes n (le_bytes n v ++ rest) ≡ some (le_bytes n v, rest)
read_bytes-le_bytes n v rest =
    subst (λ k. read_bytes k (le_bytes n v ++ rest) ≡ some (le_bytes n v, rest))
      (length-le_bytes n v) (read_bytes-append (le_bytes n v) rest)

pub read_u32-write_u32 :
    (v : ℕ) (rest : Bytes) → v < 2 ^ 32 → read_u32 (write_u32 v ++ rest) ≡ some (v, rest)
unfolding read_u32 write_u32
read_u32-write_u32 v rest h = rw (read_bytes-le_bytes 4 v rest, from_le-le_bytes 4 v h) refl

pub read_u64-write_u64 :
    (v : ℕ) (rest : Bytes) → v < 2 ^ 64 → read_u64 (write_u64 v ++ rest) ≡ some (v, rest)
unfolding read_u64 write_u64
read_u64-write_u64 v rest h = rw (read_bytes-le_bytes 8 v rest, from_le-le_bytes 8 v h) refl

pub read_string-write_string :
    (s rest : Bytes) → length s ≤ 1048576 → read_string (write_string s ++ rest) ≡ some (s, rest)
unfolding read_string write_string
read_string-write_string s rest h =
    let small : ltb 1048576 (length s) ≡ false = ground arith in
    rw
      (
        append_assoc (write_u64 (length s)) s rest,
        read_u64-write_u64 (length s) (s ++ rest) (omega arith),
        small,
      )
      (read_bytes-append s rest)

length-write_string : (s : Bytes) → length (write_string s) ≡ 8 + length s
unfolding write_string write_u64
length-write_string s =
    length-append (le_bytes 8 (length s)) s ∙ ap (λ n. n + length s) (length-le_bytes 8 (length s))

-- Aligning goes up to the next multiple, by less than the alignment.
pub align_offset-bounds :
    (n : ℕ) → (n ≤ align_offset n) × (align_offset n < n + 32) × (align_offset n % 32 ≡ 0)
unfolding align_offset
align_offset-bounds n = (omega (arith, mod-lt), omega (arith, mod-lt), omega arith)

length-digits : (f n : ℕ) (acc : Bytes) → length (digits f n acc) ≤ length acc + f
unfolding digits
length-digits zero n acc = omega arith
length-digits (suc f) n acc = ground (arith, length-digits f (n / 10) ((b'0' + n % 10) ∷ acc))

pub length-to_string : (n : ℕ) → length (to_string n) ≤ 20
unfolding to_string
length-to_string n = length-digits 20 n []
