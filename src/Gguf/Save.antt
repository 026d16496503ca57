-- ===== src/Gguf/Save.antt =====
-- src/gguf.cpp, the saving side: metadata, offsets, header and data section.
use llm_cpp.Prelude.{
  ℕ, ◌+◌, ◌-◌, ◌&&◌, Option, none, some, List, [], ◌∷◌, ◌++◌, ltb, leb, if◌then◌else◌, length,
  get_elem?, get_or, replicate, nat_eq, list_eq, int_eq,
}
use llm_cpp.Text.{to_string}
use llm_cpp.Gguf.{
  Bytes, magic, version, type_string, write_u32, write_u64, write_string, align_offset, Param, Info,
}

-- The infos of save_gguf, from the i-th parameter and an offset on
unfoldable pub layout : ℕ → ℕ → List Param → List Info
layout i current [] = []
layout i current (p ∷ ps) =
    let start = align_offset current in
    record {
      name = b't' ∷ b'e' ∷ b'n' ∷ b's' ∷ b'o' ∷ b'r' ∷ b'_' ∷ to_string i;
      dims = p.shape;
      dtype = 0;
      offset = start;
    }
    ∷ layout (i + 1) (start + length p.floats) ps

unfoldable pub write_kvs : List (Bytes × Bytes) → Bytes
write_kvs [] = []
write_kvs ((key, value) ∷ kvs) =
    write_string key ++ (write_u32 type_string ++ (write_string value ++ write_kvs kvs))

unfoldable pub write_dims : List ℕ → Bytes
write_dims [] = []
write_dims (d ∷ ds) = write_u64 d ++ write_dims ds

unfoldable pub write_info : Info → Bytes
write_info i =
    write_string i.name
    ++ (write_u32 (length i.dims)
        ++ (write_dims i.dims ++ (write_u32 i.dtype ++ write_u64 i.offset)))

unfoldable pub write_infos : List Info → Bytes
write_infos [] = []
write_infos (i ∷ is) = write_info i ++ write_infos is

unfoldable pub write_header : List (Bytes × Bytes) → List Info → Bytes
write_header kvs infos =
    write_u32 magic
    ++ (write_u32 version
        ++ (write_u64 (length infos)
            ++ (write_u64 (length kvs) ++ (write_kvs kvs ++ write_infos infos))))

-- The data section, with what is written already: `none` where an offset is behind it
unfoldable pub write_data : ℕ → List Info → List Param → Bytes → Option Bytes
write_data start [] ps file = some file
write_data start (i ∷ is) [] file = some file
write_data start (i ∷ is) (p ∷ ps) file =
    let target = start + i.offset in
    let rest = write_data start is ps ((file ++ replicate (target - length file) 0) ++ p.floats) in
    if ltb target (length file) then none else rest

abbrev architecture_key : Bytes
architecture_key =
    b'g' ∷ b'e' ∷ b'n' ∷ b'e' ∷ b'r' ∷ b'a' ∷ b'l' ∷ b'.' ∷ b'a' ∷ b'r' ∷ b'c' ∷ b'h' ∷ b'i' ∷ b't'
    ∷ b'e' ∷ b'c' ∷ b't' ∷ b'u' ∷ b'r' ∷ b'e' ∷ []

abbrev architecture : Bytes
architecture = b'l' ∷ b'l' ∷ b'm' ∷ []

abbrev name_key : Bytes
name_key = b'g' ∷ b'e' ∷ b'n' ∷ b'e' ∷ b'r' ∷ b'a' ∷ b'l' ∷ b'.' ∷ b'n' ∷ b'a' ∷ b'm' ∷ b'e' ∷ []

abbrev library_name : Bytes
library_name = b'l' ∷ b'l' ∷ b'm' ∷ b'-' ∷ b'c' ∷ b'p' ∷ b'p' ∷ []

abbrev vocab_size_key : Bytes
vocab_size_key =
    b'l' ∷ b'l' ∷ b'm' ∷ b'.' ∷ b'v' ∷ b'o' ∷ b'c' ∷ b'a' ∷ b'b' ∷ b'_' ∷ b's' ∷ b'i' ∷ b'z' ∷ b'e'
    ∷ []

abbrev n_embd_key : Bytes
n_embd_key = b'l' ∷ b'l' ∷ b'm' ∷ b'.' ∷ b'n' ∷ b'_' ∷ b'e' ∷ b'm' ∷ b'b' ∷ b'd' ∷ []

abbrev block_size_key : Bytes
block_size_key =
    b'l' ∷ b'l' ∷ b'm' ∷ b'.' ∷ b'b' ∷ b'l' ∷ b'o' ∷ b'c' ∷ b'k' ∷ b'_' ∷ b's' ∷ b'i' ∷ b'z' ∷ b'e'
    ∷ []

abbrev tensor_count_key : Bytes
tensor_count_key =
    b'l' ∷ b'l' ∷ b'm' ∷ b'.' ∷ b't' ∷ b'e' ∷ b'n' ∷ b's' ∷ b'o' ∷ b'r' ∷ b'_' ∷ b'c' ∷ b'o' ∷ b'u'
    ∷ b'n' ∷ b't' ∷ []

-- A size of a tensor as the metadata give it: 0 for fewer than two tensors or fewer than two sizes
unfoldable pub param_dim : ℕ → ℕ → List Param → ℕ
param_dim k d ps = elim (get_elem? ps k) [
  | none ↦ 0
  | some p ↦ if leb 2 (length ps) && leb 2 (length p.shape) then get_or p.shape d 0 else 0
]

-- The entries that save_gguf writes
unfoldable pub metadata : List Param → List (Bytes × Bytes)
metadata ps =
    (architecture_key, architecture)
    ∷ (name_key, library_name)
    ∷ (vocab_size_key, to_string (param_dim 0 0 ps))
    ∷ (n_embd_key, to_string (param_dim 0 1 ps))
    ∷ (block_size_key, to_string (param_dim 1 0 ps))
    ∷ (tensor_count_key, to_string (length ps))
    ∷ []

-- save_gguf
unfoldable pub save_gguf : List Param → Option Bytes
save_gguf ps =
    let infos = layout 0 0 ps in
    let header = write_header (metadata ps) infos in
    let start = align_offset (length header) in
    write_data start infos ps (header ++ replicate (start - length header) 0)
