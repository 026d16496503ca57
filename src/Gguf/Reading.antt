-- ===== src/Gguf/Reading.antt =====
-- src/gguf.cpp, the header, written and read.
use llm_cpp.Prelude.{
  ℕ, ◌-◌, ◌^◌, ◌≤◌, ◌<◌, ◌≡◌, refl, sym, ap, ◌∙◌, subst, true, false, some, List, [], ◌∷◌, ◌++◌,
  append_assoc, arith, ltb, ◌==◌, length, length-append, All, nat_eq, list_eq, int_eq,
}
use llm_cpp.Gguf.{
  Bytes, Info, magic, version, type_string, write_u32, write_u64, write_string, align_offset,
}
use llm_cpp.Gguf.Save.{write_kvs, write_dims, write_info, write_infos, write_header}
use llm_cpp.Gguf.Load.{read_kvs, read_dims, read_info, read_infos, read_header, is_dtype}
use llm_cpp.Gguf.Primitives.{read_u32-write_u32, read_u64-write_u64, read_string-write_string}

-- What the format can hold of an info and of an entry of the metadata
pub record IsWritable (i : Info) : Type 0 where
  pub name : length i.name ≤ 1048576
  pub few : length i.dims ≤ 8
  pub dims : All (λ d. d < 2 ^ 64) i.dims
  pub dtype : (is_dtype i.dtype ≡ true) × (i.dtype < 2 ^ 32)
  pub offset : i.offset < 2 ^ 64

abbrev pub IsEntry : Bytes × Bytes → Type 0
IsEntry kv = (length kv.0 ≤ 1048576) × (length kv.1 ≤ 1048576)

read_dims-write_dims :
    (ds : List ℕ) (rest : Bytes)
    → All (λ d. d < 2 ^ 64) ds
    → read_dims (length ds) (write_dims ds ++ rest) ≡ some (ds, rest)
unfolding read_dims write_dims
read_dims-write_dims [] rest h = refl
read_dims-write_dims (d ∷ ds) rest h =
    rw
      (
        append_assoc (write_u64 d) (write_dims ds) rest,
        read_u64-write_u64 d (write_dims ds ++ rest) h.0,
        read_dims-write_dims ds rest h.1,
      )
      refl

read_kvs-write_kvs :
    (kvs : List (Bytes × Bytes)) (rest : Bytes)
    → All IsEntry kvs
    → read_kvs (length kvs) (write_kvs kvs ++ rest) ≡ some (kvs, rest)
unfolding read_kvs write_kvs
read_kvs-write_kvs [] rest h = refl
read_kvs-write_kvs ((key, value) ∷ kvs) rest h =
    rw
      (
        append_assoc (write_string key)
            (write_u32 type_string ++ (write_string value ++ write_kvs kvs)) rest,
        append_assoc (write_u32 type_string) (write_string value ++ write_kvs kvs) rest,
        append_assoc (write_string value) (write_kvs kvs) rest,
        read_string-write_string key
            (write_u32 type_string ++ (write_string value ++ (write_kvs kvs ++ rest))) h.0.0,
        read_u32-write_u32 type_string (write_string value ++ (write_kvs kvs ++ rest))
            (omega arith),
        read_string-write_string value (write_kvs kvs ++ rest) h.0.1,
        read_kvs-write_kvs kvs rest h.1,
      )
      refl

read_info-write_info :
    (i : Info) (rest : Bytes) → IsWritable i → read_info (write_info i ++ rest) ≡ some (i, rest)
unfolding read_info write_info
read_info-write_info i rest h =
    let few : ltb 8 (length i.dims) ≡ false = ground (arith, h.few) in
    rw
      (
        append_assoc (write_string i.name)
            (write_u32 (length i.dims)
              ++ (write_dims i.dims ++ (write_u32 i.dtype ++ write_u64 i.offset)))
            rest,
        append_assoc (write_u32 (length i.dims))
            (write_dims i.dims ++ (write_u32 i.dtype ++ write_u64 i.offset)) rest,
        append_assoc (write_dims i.dims) (write_u32 i.dtype ++ write_u64 i.offset) rest,
        append_assoc (write_u32 i.dtype) (write_u64 i.offset) rest,
        read_string-write_string i.name
            (write_u32 (length i.dims)
              ++ (write_dims i.dims ++ (write_u32 i.dtype ++ (write_u64 i.offset ++ rest))))
            h.name,
        read_u32-write_u32 (length i.dims)
            (write_dims i.dims ++ (write_u32 i.dtype ++ (write_u64 i.offset ++ rest)))
            (omega (arith, h.few)),
        few,
        read_dims-write_dims i.dims (write_u32 i.dtype ++ (write_u64 i.offset ++ rest)) h.dims,
        read_u32-write_u32 i.dtype (write_u64 i.offset ++ rest) h.dtype.1,
        read_u64-write_u64 i.offset rest h.offset,
        h.dtype.0,
      )
      refl

read_infos-write_infos :
    (is : List Info) (rest : Bytes)
    → All IsWritable is
    → read_infos (length is) (write_infos is ++ rest) ≡ some (is, rest)
unfolding read_infos write_infos
read_infos-write_infos [] rest h = refl
read_infos-write_infos (i ∷ is) rest h =
    rw
      (
        append_assoc (write_info i) (write_infos is) rest,
        read_info-write_info i (write_infos is ++ rest) h.0,
        read_infos-write_infos is rest h.1,
      )
      refl

module _ (kvs : List (Bytes × Bytes)) (is : List Info) (rest : Bytes) where
  -- The header with the rest of the file behind it, part by part
  parts : Bytes
  parts =
      write_u32 magic
      ++ (write_u32 version
          ++ (write_u64 (length is)
              ++ (write_u64 (length kvs) ++ (write_kvs kvs ++ (write_infos is ++ rest)))))

  write_header-parts : write_header kvs is ++ rest ≡ parts
  unfolding write_header parts
  write_header-parts =
      let a = write_u64 (length is) in
      let b = write_u64 (length kvs) in
      rw
        (
          append_assoc (write_u32 magic)
              (write_u32 version ++ (a ++ (b ++ (write_kvs kvs ++ write_infos is)))) rest,
          append_assoc (write_u32 version) (a ++ (b ++ (write_kvs kvs ++ write_infos is))) rest,
          append_assoc a (b ++ (write_kvs kvs ++ write_infos is)) rest,
          append_assoc b (write_kvs kvs ++ write_infos is) rest,
          append_assoc (write_kvs kvs) (write_infos is) rest,
        )
        refl

  read_header-parts :
      All IsEntry kvs
      → All IsWritable is
      → length kvs < 2 ^ 64
      → length is < 2 ^ 64
      → read_header (length is) parts ≡ some (is, align_offset (length parts - length rest))
  unfolding read_header parts
  read_header-parts hk hi nk ni =
      let same : (length is == length is) ≡ true = ground arith in
      let a = write_u64 (length is) in
      let b = write_u64 (length kvs) in
      rw
        (
          read_u32-write_u32 magic
              (write_u32 version ++ (a ++ (b ++ (write_kvs kvs ++ (write_infos is ++ rest)))))
              (omega arith),
          read_u32-write_u32 version (a ++ (b ++ (write_kvs kvs ++ (write_infos is ++ rest))))
              (omega arith),
          read_u64-write_u64 (length is) (b ++ (write_kvs kvs ++ (write_infos is ++ rest))) ni,
          read_u64-write_u64 (length kvs) (write_kvs kvs ++ (write_infos is ++ rest)) nk,
          read_kvs-write_kvs kvs (write_infos is ++ rest) hk,
          same,
          read_infos-write_infos is rest hi,
        )
        refl

  -- A header whose metadata and infos the format can hold, each in a number that fits in 64 bits,
  -- is read back, whatever follows it, as its infos together with the aligned offset of its end.
  pub read_header-write_header :
      All IsEntry kvs
      → All IsWritable is
      → length kvs < 2 ^ 64
      → length is < 2 ^ 64
      → read_header (length is) (write_header kvs is ++ rest)
        ≡ some (is, align_offset (length (write_header kvs is)))
  read_header-write_header hk hi nk ni =
      let at_end : length (write_header kvs is ++ rest) - length rest
          ≡ length (write_header kvs is) =
        omega (arith, length-append (write_header kvs is) rest) in
      subst
        (λ file. read_header (length is) file ≡ some (is, align_offset (length file - length rest)))
        (sym write_header-parts) (read_header-parts hk hi nk ni)
      ∙ ap (λ n. some (is, align_offset n)) at_end
