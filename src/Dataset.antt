-- ===== src/Dataset.antt =====
-- src/dataset.cpp and include/llm/dataset.h: Dataset::get_batch, DataLoader and pack_with_eos.
-- A data set is its list of tokens; std::shuffle is a parameter.
pub mod Batches
pub mod Packing
mod Tests
use llm_cpp.Prelude.{
  pos, ℕ, zero, suc, ◌+◌, ◌-◌, min, Bool, List, [], ◌∷◌, ◌++◌, ltb, leb, ◌==◌, if◌then◌else◌, tests,
  length, get_or, take, replicate, nat_eq, list_eq, ℤ, int_eq,
}

-- for (i = 0; i < batch_size && idx + i < tokens_.size(); ++i), with the rounds that are left
unfoldable pub get_batch : List ℤ → ℕ → ℕ → List ℤ
get_batch tokens idx zero = []
get_batch tokens idx (suc n) =
    let rest = get_batch tokens (idx + 1) n in
    if ltb idx (length tokens) then get_or tokens idx (pos 0) ∷ rest else []

pub record DataLoader : Type 0 where
  pub tokens : List ℤ
  pub batch_size : ℕ
  pub cursor : ℕ
  pub shuffle : Bool
  pub seed : ℕ
  pub order : List ℕ

-- for (s = 0; s < ds_.size(); s += batch_size_), on fuel: the size, for a batch size that is not 0
unfoldable pub starts : ℕ → ℕ → ℕ → ℕ → List ℕ
starts size batch_size zero s = []
starts size batch_size (suc n) s =
    let rest = starts size batch_size n (s + batch_size) in if ltb s size then s ∷ rest else []

module _ (shuffle : ℕ → List ℕ → List ℕ) where
  unfoldable pub build_order : DataLoader → DataLoader
  build_order d =
      let order = starts (length d.tokens) d.batch_size (length d.tokens) 0 in
      record d { order = if d.shuffle then shuffle d.seed order else order }

  -- DataLoader::DataLoader
  unfoldable pub make_loader : List ℤ → ℕ → Bool → ℕ → DataLoader
  make_loader tokens batch_size shuffled seed = build_order (record {
    tokens = tokens;
    batch_size = batch_size;
    cursor = 0;
    shuffle = shuffled;
    seed = seed;
    order = [];
  })

  unfoldable reset : DataLoader → DataLoader
  reset d =
      let d' : DataLoader = record d { cursor = 0 } in if d.shuffle then build_order d' else d'

unfoldable pub has_next : DataLoader → Bool
has_next d = ltb d.cursor (length d.order)

-- At most one batch, and the loader after it
unfoldable pub next_batch : DataLoader → List (List ℤ) × DataLoader
next_batch d = if leb (length d.order) d.cursor then ([], d) else (
  get_batch d.tokens (get_or d.order d.cursor 0) d.batch_size ∷ [],
  record d { cursor = d.cursor + 1 },
)

-- while (loader.has_next()) loader.next_batch(), with the rounds that are left
unfoldable pub epoch : ℕ → DataLoader → List (List ℤ)
epoch zero d = []
epoch (suc n) d =
    let r = next_batch d in let rest = epoch n r.1 in if has_next d then r.0 ++ rest else []

pub record PackedBatch : Type 0 where
  pub input : List (List ℤ)
  pub mask : List (List ℕ)

-- The `flush` of pack_with_eos: one row of the block size, the rest of it padding.
unfoldable pub flush : ℕ → ℤ → List ℤ → PackedBatch → PackedBatch
flush block_size eos_id cur out =
    let n = min (length cur) block_size in
    record {
      input = out.input ++ (take n cur ++ replicate (block_size - n) eos_id) ∷ [];
      mask = out.mask ++ (replicate n 1 ++ replicate (block_size - n) 0) ∷ [];
    }

-- for (int t : tokens), and the last row
unfoldable pub pack_tokens : ℕ → ℤ → List ℤ → List ℤ → PackedBatch → PackedBatch
pack_tokens block_size eos_id [] [] out = out
pack_tokens block_size eos_id [] (c ∷ cur) out = flush block_size eos_id (c ∷ cur) out
pack_tokens block_size eos_id (t ∷ ts) cur out =
    let cur' = cur ++ t ∷ [] in
    let full = pack_tokens block_size eos_id ts [] (flush block_size eos_id cur' out) in
    let more = pack_tokens block_size eos_id ts cur' out in
    if length cur' == block_size then full else more

unfoldable pub pack_with_eos : List ℤ → ℕ → ℤ → PackedBatch
pack_with_eos tokens block_size eos_id =
    pack_tokens block_size eos_id tokens [] (record { input = []; mask = [] })
