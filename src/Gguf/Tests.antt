-- ===== src/Gguf/Tests.antt =====
-- One tensor of one float, written and loaded.
use llm_cpp.Prelude.{
  ℕ, ◌+◌, ◌≡◌, refl, true, false, Option, none, some, List, [], ◌∷◌, ◌++◌, arith, length, replicate,
  nat_eq, list_beq, list_eq, int_eq,
}
use llm_cpp.Text.{digits, to_string}
use llm_cpp.Gguf.{
  Bytes, Param, read_string, read_u64, read_u32, read_bytes, from_le, write_u32, write_u64,
  write_string, le_bytes, align_offset,
}
use llm_cpp.Gguf.Save.{
  metadata, param_dim, layout, write_header, save_gguf, write_kvs, write_infos, write_info,
  write_dims,
}
use llm_cpp.Gguf.Load.{
  load_gguf, read_header, read_data, read_decoded, read_kvs, read_infos, read_info, read_dims,
  is_dtype, is_loadable, all_loadable,
}
use llm_cpp.Gguf.Writing.{IsSavable, SameShapes, total}
use llm_cpp.Gguf.File.{filled, load_gguf-save_gguf}

abbrev no_blocks : ℕ → ℕ → Bytes → Option Bytes
no_blocks d n file = none

abbrev model : List Param
model = record { shape = 1 ∷ []; floats = 1 ∷ 2 ∷ 3 ∷ 4 ∷ [] } ∷ []

abbrev fresh : List Param
fresh = record { shape = 1 ∷ []; floats = 0 ∷ 0 ∷ 0 ∷ 0 ∷ [] } ∷ []

shapes : IsSavable (length (write_header (metadata model) (layout 0 0 model)) + 31) model
unfolding layout total write_header write_u32 write_u64 write_string write_kvs write_infos
    write_info write_dims le_bytes align_offset to_string digits metadata param_dim
shapes = record { shapes = ((omega arith, (omega arith, tt)), tt); size = omega arith }

same : SameShapes model fresh
same = ((refl, refl), tt)

load_gguf-save_gguf_example :
    (file : Bytes) × (save_gguf model ≡ some file)
    × (load_gguf no_blocks file fresh ≡ (true, filled model fresh))
load_gguf-save_gguf_example = load_gguf-save_gguf no_blocks model fresh shapes same

-- A file that ends after two of the four bytes of the float
abbrev truncated : Bytes
truncated = write_header (metadata model) (layout 0 0 model) ++ (replicate 4 0 ++ (9 ∷ 9 ∷ []))

-- The load fails, and the two bytes stand in the float.
load_gguf-truncated :
    load_gguf no_blocks truncated fresh
    ≡ (false, record { shape = 1 ∷ []; floats = 9 ∷ 9 ∷ 0 ∷ 0 ∷ [] } ∷ [])
unfolding load_gguf read_header read_data read_decoded read_kvs read_infos read_info read_dims
    read_string read_u64 read_u32 read_bytes from_le is_dtype is_loadable all_loadable layout
    write_header write_u32 write_u64 write_string write_kvs write_infos write_info write_dims
    le_bytes align_offset to_string digits list_beq metadata param_dim
load_gguf-truncated = refl
