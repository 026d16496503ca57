-- ===== src/Gguf/Load.antt =====
-- src/gguf.cpp, the loading side: header, validation and data section.
use llm_cpp.Prelude.{
  ℕ, zero, suc, ◌+◌, ◌-◌, ◌%◌, ◌^◌, Bool, true, false, not, ◌&&◌, ◌||◌, Option, none, some, List,
  [], ◌∷◌, ◌++◌, ltb, ◌==◌, if◌then◌else◌, length, take, drop, ◌=?◌, nat_eq, list_eq, int_eq,
}
use llm_cpp.Gguf.{
  Bytes, magic, version, type_string, on_read, read_u32, read_u64, read_string, align_offset, Param,
  Info,
}

unfoldable pub read_kvs : ℕ → Bytes → Option (List (Bytes × Bytes) × Bytes)
read_kvs zero file = some ([], file)
read_kvs (suc n) file = on_read (read_string file) (λ key r1. on_read (read_u32 r1) (λ type r2.
    on_read (read_string r2) (λ value r3.
      if type == type_string
      then on_read (read_kvs n r3) (λ kvs r4. some ((key, value) ∷ kvs, r4))
      else none)))

unfoldable pub read_dims : ℕ → Bytes → Option (List ℕ × Bytes)
read_dims zero file = some ([], file)
read_dims (suc n) file =
    on_read (read_u64 file) (λ d r1. on_read (read_dims n r1) (λ ds r2. some (d ∷ ds, r2)))

-- dtype F32, Q8_0, Q4_0 or Q4_K
unfoldable pub is_dtype : ℕ → Bool
is_dtype d = d == 0 || d == 8 || d == 2 || d == 12

unfoldable pub read_info : Bytes → Option (Info × Bytes)
read_info file = on_read (read_string file) (λ name r1. on_read (read_u32 r1) (λ n_dims r2.
    if ltb 8 n_dims
    then none
    else on_read (read_dims n_dims r2) (λ dims r3. on_read (read_u32 r3) (λ dtype r4.
      on_read (read_u64 r4) (λ offset r5.
        if is_dtype dtype
        then some (record { name = name; dims = dims; dtype = dtype; offset = offset }, r5)
        else none)))))

unfoldable pub read_infos : ℕ → Bytes → Option (List Info × Bytes)
read_infos zero file = some ([], file)
read_infos (suc n) file =
    on_read (read_info file) (λ i r1. on_read (read_infos n r1) (λ is r2. some (i ∷ is, r2)))

-- The checks of load_gguf on each tensor, before the model is changed
unfoldable pub is_loadable : Info → Param → Bool
is_loadable i p =
    (i.dims =? p.shape)
    && not (ltb ((i.offset + length p.floats) % 2 ^ 64) i.offset && i.dtype == 0)

unfoldable pub all_loadable : List Info → List Param → Bool
all_loadable [] ps = true
all_loadable (i ∷ is) [] = true
all_loadable (i ∷ is) (p ∷ ps) = is_loadable i p && all_loadable is ps

-- The header: the infos, and where the data section begins. `size` is the number of parameters.
unfoldable pub read_header : ℕ → Bytes → Option (List Info × ℕ)
read_header size file = on_read (read_u32 file) (λ m r1. on_read (read_u32 r1) (λ v r2.
    on_read (read_u64 r2) (λ tensor_count r3. on_read (read_u64 r3) (λ kv_count r4.
      if not (m == magic) || not (v == version)
      then none
      else on_read (read_kvs kv_count r4) (λ kvs r5.
        if not (size == tensor_count)
        then none
        else on_read (read_infos tensor_count r5)
            (λ infos r6. some (infos, align_offset (length file - length r6))))))))

module _ (decode : ℕ → ℕ → Bytes → Option Bytes) where
  -- read_decoded: whether it succeeded, and the floats of the tensor after it. A short read of F32
  -- has overwritten the front of them. Another type changes them once `decode` has all blocks.
  unfoldable pub read_decoded : Bytes → ℕ → Bytes → Info → Bool × Bytes
  read_decoded file start floats i =
      let rest = drop ((start + i.offset) % 2 ^ 64) file in
      let got = take (length floats) rest in
      if i.dtype == 0
      then (length got == length floats, got ++ drop (length got) floats)
      else elim (decode i.dtype (length floats) rest) [
        | none ↦ (false, floats)
        | some b ↦ (true, b)
      ]

  -- The loop that fills the parameters: a failure leaves those after it as they were.
  unfoldable pub read_data : Bytes → ℕ → List Info → List Param → Bool × List Param
  read_data file start [] ps = (true, ps)
  read_data file start (i ∷ is) [] = (true, [])
  read_data file start (i ∷ is) (p ∷ ps) =
      let r = read_decoded file start p.floats i in
      let filled = record p { floats = r.1 } in
      let later = read_data file start is ps in
      if r.0 then (later.0, filled ∷ later.1) else (false, filled ∷ ps)

  -- load_gguf: whether it succeeded, and the parameters after it
  unfoldable pub load_gguf : Bytes → List Param → Bool × List Param
  load_gguf file ps = elim (read_header (length ps) file) [
    | none ↦ (false, ps)
    | some (infos, start) ↦
        if all_loadable infos ps then read_data file start infos ps else (false, ps)
  ]
