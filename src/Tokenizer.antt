-- ===== src/Tokenizer.antt =====
-- src/tokenizer.cpp and include/llm/tokenizer.h: the byte-level BPE tokenizer. A `std::string` is
-- the list of its bytes, an `int` an unbounded integer, an `unordered_map` an association list.
pub mod Merge
pub mod Vocabulary
pub mod Training
pub mod RoundTrip
pub mod Stream
pub mod Pretokenize
pub mod Escape
pub mod MergesFile
mod Tests
use llm_cpp.Prelude.{
  ℕ, zero, suc, ◌+◌, ◌%◌, true, false, ◌&&◌, none, some, List, [], ◌∷◌, ◌++◌, map, concat, length,
  ltb, if◌then◌else◌, ◌=?◌, find, insert, ℤ, pos, negsuc, min, nat_eq, list_eq, int_eq,
}

abbrev pub Bytes : Type 0
Bytes = List ℕ

pub record Tokenizer : Type 0 where
  pub merges : List (Bytes × Bytes)
  pub vocab_size : ℕ
  pub vocab : List (Bytes × ℤ)
  pub inv_vocab : List (ℤ × Bytes)

abbrev pub unk : ℕ
unk = 3

-- vocab_[s] = i; inv_vocab_[i] = s;
unfoldable pub assign : Tokenizer → Bytes → ℤ → Tokenizer
assign t s i = record t { vocab = insert t.vocab s i; inv_vocab = insert t.inv_vocab i s }

-- The loop of the constructor, with the rounds that are left.
unfoldable pub init_bytes : ℕ → ℕ → Tokenizer → Tokenizer
init_bytes zero i t = t
init_bytes (suc n) i t = init_bytes n (i + 1) (assign t (i ∷ []) (pos i))

-- Tokenizer::Tokenizer
unfoldable pub init : ℕ → Tokenizer
init vocab_size =
    init_bytes (min 256 vocab_size) 0
      (record { merges = []; vocab_size = vocab_size; vocab = []; inv_vocab = [] })

-- One pass of a merge over the tokens, at the token `x`. A merged token is compared once more.
unfoldable pub merge_at : Bytes → Bytes → Bytes → List Bytes → List Bytes
merge_at a b x [] = x ∷ []
merge_at a b x (y ∷ rest) =
    let merged = merge_at a b (a ++ b) rest in
    let next = merge_at a b y rest in if x =? a && y =? b then merged else x ∷ next

unfoldable pub merge_pass : Bytes × Bytes → List Bytes → List Bytes
merge_pass (a, b) [] = []
merge_pass (a, b) (x ∷ rest) = merge_at a b x rest

-- Every merge in the order learned.
unfoldable pub apply_merges : List (Bytes × Bytes) → List Bytes → List Bytes
apply_merges [] tokens = tokens
apply_merges (m ∷ ms) tokens = apply_merges ms (merge_pass m tokens)

abbrev pub singles : Bytes → List Bytes
singles = map λ c. c ∷ []

unfoldable pub segment : Tokenizer → Bytes → List Bytes
segment t text = apply_merges t.merges (singles text)

unfoldable pub token_id : Tokenizer → Bytes → ℤ
token_id t token = elim (find t.vocab token) [ some i ↦ i | none ↦ pos (unk % t.vocab_size) ]

unfoldable pub encode : Tokenizer → Bytes → List ℤ
encode t text = map (token_id t) (segment t text)

-- The fallback of `decode` for an id that the inverse vocabulary lacks.
unfoldable pub raw_byte : ℤ → Bytes
raw_byte (pos n) = if ltb n 256 then n ∷ [] else b'?' ∷ []
raw_byte (negsuc n) = b'?' ∷ []

unfoldable pub id_bytes : Tokenizer → ℤ → Bytes
id_bytes t i = elim (find t.inv_vocab i) [ some s ↦ s | none ↦ raw_byte i ]

unfoldable pub decode : Tokenizer → List ℤ → Bytes
decode t ids = concat (map (id_bytes t) ids)

-- Training. The unit separator joins the two halves of a key of `freq`.
abbrev pub sep : ℕ
sep = 0x1F

unfoldable pub bump : List (Bytes × ℕ) → Bytes → List (Bytes × ℕ)
bump freq pair = insert freq pair (elim (find freq pair) [ some n ↦ n + 1 | none ↦ 1 ])

unfoldable pub count_pairs : List (Bytes × ℕ) → Bytes → List Bytes → List (Bytes × ℕ)
count_pairs freq x [] = freq
count_pairs freq x (y ∷ rest) = count_pairs (bump freq (x ++ sep ∷ y)) y rest

unfoldable pub frequencies : List Bytes → List (Bytes × ℕ)
frequencies [] = []
frequencies (x ∷ rest) = count_pairs [] x rest

-- std::max_element: the first of the largest counts.
unfoldable pub max_element : Bytes × ℕ → List (Bytes × ℕ) → Bytes × ℕ
max_element best [] = best
max_element best (e ∷ rest) = max_element (if ltb best.1 e.1 then e else best) rest

-- `find` of a byte and the two `substr` around it.
unfoldable pub cut_at : ℕ → Bytes → Bytes × Bytes
cut_at c [] = ([], [])
cut_at c (x ∷ s) = let (a, b) = cut_at c s in if x =? c then ([], s) else (x ∷ a, b)

-- merges_.emplace_back(a, b), and the new token if the vocabulary lacks it.
unfoldable pub learn : Tokenizer → Bytes × Bytes → Tokenizer
learn t (a, b) =
    let t' : Tokenizer = record t { merges = t.merges ++ (a, b) ∷ [] } in
    elim (find t.vocab (a ++ b)) [ some i ↦ t' | none ↦ assign t' (a ++ b) (pos (length t.vocab)) ]

-- The hash map's order of iteration decides between equal counts: `order` lists the entries in it.
unfoldable pub train_loop :
    (List (Bytes × ℕ) → List (Bytes × ℕ)) → ℕ → Tokenizer → List Bytes → Tokenizer × List Bytes
train_loop order zero t words = (t, words)
train_loop order (suc n) t words = elim (ltb (length t.vocab) t.vocab_size) [
  | false ↦ (t, words)
  | true ↦ elim (order (frequencies words)) [
    | [] ↦ (t, words)
    | e ∷ es ↦
        let pair = cut_at sep (max_element e es).0 in
        train_loop order n (learn t pair) (merge_pass pair words)
  ]
]

unfoldable pub train : (List (Bytes × ℕ) → List (Bytes × ℕ)) → Tokenizer → Bytes → ℕ → Tokenizer
train order t text num_merges = (train_loop order num_merges t (singles text)).0
