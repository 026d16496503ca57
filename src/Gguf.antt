-- ===== src/Gguf.antt =====
-- src/gguf.cpp: the GGUF file of a model's parameters, save_gguf and load_gguf. A file is the list
-- of its bytes, a parameter its shape with the bytes of its floats. What read_decoded makes of the
-- quantized formats is a parameter.
pub mod Primitives
pub mod Save
pub mod Load
pub mod Reading
pub mod Writing
pub mod File
mod Tests
use llm_cpp.Prelude.{
  ℕ, zero, suc, ◌+◌, ◌-◌, ◌*◌, ◌/◌, ◌%◌, Option, none, some, List, [], ◌∷◌, ◌++◌, ltb,
  if◌then◌else◌, tests, length, take, drop, nat_eq, list_eq, int_eq,
}

abbrev pub Bytes : Type 0
Bytes = List ℕ

abbrev pub magic : ℕ
magic = 0x46554747

abbrev pub version : ℕ
version = 3

abbrev pub type_string : ℕ
type_string = 8

-- The bytes of an unsigned integer in memory, the lowest first
unfoldable pub le_bytes : ℕ → ℕ → Bytes
le_bytes zero v = []
le_bytes (suc n) v = v % 256 ∷ le_bytes n (v / 256)

unfoldable pub from_le : Bytes → ℕ
from_le [] = 0
from_le (b ∷ bs) = b + 256 * from_le bs

unfoldable pub write_u32 : ℕ → Bytes
write_u32 v = le_bytes 4 v

unfoldable pub write_u64 : ℕ → Bytes
write_u64 v = le_bytes 8 v

unfoldable pub write_string : Bytes → Bytes
write_string s = write_u64 (length s) ++ s

-- in.read: the bytes that were read and the rest, `none` at the end of the file
unfoldable pub read_bytes : ℕ → Bytes → Option (Bytes × Bytes)
read_bytes n file = if ltb (length file) n then none else some (take n file, drop n file)

-- The next read, if the one before did not fail
abbrev pub on_read {ℓ κ} :
    {A : Type ℓ} {B : Type κ} → Option (A × Bytes) → (A → Bytes → Option B) → Option B
on_read none f = none
on_read (some (a, rest)) f = f a rest

unfoldable pub read_u32 : Bytes → Option (ℕ × Bytes)
read_u32 file = on_read (read_bytes 4 file) (λ b rest. some (from_le b, rest))

unfoldable pub read_u64 : Bytes → Option (ℕ × Bytes)
read_u64 file = on_read (read_bytes 8 file) (λ b rest. some (from_le b, rest))

-- A string of more than 2 ^ 20 bytes is refused.
unfoldable pub read_string : Bytes → Option (Bytes × Bytes)
read_string file =
    on_read (read_u64 file) (λ len rest. if ltb 1048576 len then none else read_bytes len rest)

-- (offset + align - 1) & ~(align - 1) for align = 32: the low bits cleared
unfoldable pub align_offset : ℕ → ℕ
align_offset offset = offset + 31 - (offset + 31) % 32

-- A parameter held as floats, not int8
pub record Param : Type 0 where
  pub shape : List ℕ
  pub floats : Bytes

pub record Info : Type 0 where
  pub name : Bytes
  pub dims : List ℕ
  pub dtype : ℕ
  pub offset : ℕ
