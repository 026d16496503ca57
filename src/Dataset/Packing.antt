-- ===== src/Dataset/Packing.antt =====
-- src/dataset.cpp, the rows and the mask of pack_with_eos.
use llm_cpp.Prelude.{
  ℕ, zero, suc, ◌-◌, ◌≤◌, ◌<◌, min, ◌≡◌, refl, sym, ap, ◌∙◌, subst, inl, inr, List, [], ◌∷◌, ◌++◌,
  append_assoc, append-nil, arith, ◌==◌, Bool-cases, length, length-append, take, replicate,
  length-replicate, take-length, All, All-append, nat_eq, list_eq, ℤ, int_eq,
}
use llm_cpp.Dataset.{PackedBatch, flush, pack_tokens, pack_with_eos}

-- The tokens of a row that its mask marks
unfoldable pub marked : List ℤ → List ℕ → List ℤ
marked [] ms = []
marked (t ∷ ts) [] = []
marked (t ∷ ts) (zero ∷ ms) = marked ts ms
marked (t ∷ ts) (suc m ∷ ms) = t ∷ marked ts ms

unfoldable pub unpack : List (List ℤ) → List (List ℕ) → List ℤ
unpack [] ms = []
unpack (r ∷ rs) [] = []
unpack (r ∷ rs) (m ∷ ms) = marked r m ++ unpack rs ms

marked-row :
    (ts : List ℤ) (n : ℕ) (e : ℤ)
    → marked (ts ++ replicate n e) (replicate (length ts) 1 ++ replicate n 0) ≡ ts
unfolding marked
marked-row [] zero e = refl
marked-row [] (suc n) e = marked-row [] n e
marked-row (t ∷ ts) n e = ap (◌∷◌ t) (marked-row ts n e)

unpack-snoc :
    (rs : List (List ℤ)) (ms : List (List ℕ)) (r : List ℤ) (m : List ℕ)
    → length rs ≡ length ms
    → unpack (rs ++ r ∷ []) (ms ++ m ∷ []) ≡ unpack rs ms ++ marked r m
unfolding unpack
unpack-snoc [] [] r m h = append-nil (marked r m)
unpack-snoc [] (m' ∷ ms) r m h = absurd (omega arith)
unpack-snoc (r' ∷ rs) [] r m h = absurd (omega arith)
unpack-snoc (r' ∷ rs) (m' ∷ ms) r m h =
    rw (unpack-snoc rs ms r m (omega arith))
      (sym (append_assoc (marked r' m') (unpack rs ms) (marked r m)))

-- Rows and masks of the block size, as many of each, that hold the tokens so far.
record IsPacked (block_size : ℕ) (tokens : List ℤ) (out : PackedBatch) : Type 0 where
  rows : All (λ r. length r ≡ block_size) out.input
  masks : All (λ m. length m ≡ block_size) out.mask
  paired : length out.input ≡ length out.mask
  holds : unpack out.input out.mask ≡ tokens

flush-IsPacked :
    (block_size : ℕ) (eos_id : ℤ) (cur done : List ℤ) (out : PackedBatch)
    → length cur ≤ block_size
    → IsPacked block_size done out
    → IsPacked block_size (done ++ cur) (flush block_size eos_id cur out)
unfolding flush
flush-IsPacked block_size eos_id cur done out h p =
    let all : min (length cur) block_size ≡ length cur = omega arith in
    let whole : take (length cur) cur ≡ cur =
      ap (take (length cur)) (sym (append-nil cur)) ∙ take-length cur [] in
    rw (all, whole)
      (record {
        rows =
            All-append (λ r. length r ≡ block_size) out.input _ p.rows
              (
                omega (
                  arith,
                  length-append cur (replicate (block_size - length cur) eos_id),
                  length-replicate (block_size - length cur) eos_id,
                ),
                tt,
              );
        masks =
            All-append (λ m. length m ≡ block_size) out.mask _ p.masks
              (
                omega (
                  arith,
                  length-append {A = ℕ} (replicate (length cur) 1)
                      (replicate (block_size - length cur) 0),
                  length-replicate {A = ℕ} (length cur) 1,
                  length-replicate {A = ℕ} (block_size - length cur) 0,
                ),
                tt,
              );
        paired = omega (
          arith,
          p.paired,
          length-append out.input ((cur ++ replicate (block_size - length cur) eos_id) ∷ []),
          length-append out.mask
              ((replicate (length cur) 1 ++ replicate (block_size - length cur) 0) ∷ []),
        );
        holds =
            unpack-snoc out.input out.mask _ _ p.paired
            ∙ rw (p.holds, marked-row cur (block_size - length cur) eos_id) refl;
      })

pack_tokens-IsPacked :
    (block_size : ℕ) (eos_id : ℤ) (ts cur done : List ℤ) (out : PackedBatch)
    → length cur < block_size
    → IsPacked block_size done out
    → IsPacked block_size (done ++ (cur ++ ts)) (pack_tokens block_size eos_id ts cur out)
unfolding pack_tokens
pack_tokens-IsPacked block_size eos_id [] [] done out h p =
    subst (λ ds. IsPacked block_size ds out) (sym (append-nil done)) p
pack_tokens-IsPacked block_size eos_id [] (c ∷ cur) done out h p =
    rw (append-nil (c ∷ cur)) (flush-IsPacked block_size eos_id (c ∷ cur) done out (omega arith) p)
pack_tokens-IsPacked block_size eos_id (t ∷ ts) cur done out h p =
    elim (Bool-cases (length (cur ++ t ∷ []) == block_size)) [
      | inl full ↦ rw full (
          subst
            (λ ds.
              IsPacked block_size ds
                (pack_tokens block_size eos_id ts [] (flush block_size eos_id (cur ++ t ∷ []) out)))
            (append_assoc done (cur ++ t ∷ []) ts
              ∙ ap (λ xs. done ++ xs) (append_assoc cur (t ∷ []) ts))
            (pack_tokens-IsPacked block_size eos_id ts [] (done ++ (cur ++ t ∷ []))
              (flush block_size eos_id (cur ++ t ∷ []) out) (omega arith)
              (flush-IsPacked block_size eos_id (cur ++ t ∷ []) done out (ground arith) p)))
      | inr more ↦ rw more (
          subst
            (λ ds. IsPacked block_size ds (pack_tokens block_size eos_id ts (cur ++ t ∷ []) out))
            (ap (λ xs. done ++ xs) (append_assoc cur (t ∷ []) ts))
            (pack_tokens-IsPacked block_size eos_id ts (cur ++ t ∷ []) done out
              (ground (arith, length-append cur (t ∷ []))) p))
    ]

-- With a block size that is not 0, all packed rows and masks have that length, there are as many of
-- each, and the tokens that the masks mark are the tokens that were packed, in their order.
pub pack_with_eos-unpack :
    (tokens : List ℤ) (block_size : ℕ) (eos_id : ℤ)
    → 0 < block_size
    → let out = pack_with_eos tokens block_size eos_id in
      All (λ r. length r ≡ block_size) out.input
      × All (λ m. length m ≡ block_size) out.mask
      × (length out.input ≡ length out.mask)
      × (unpack out.input out.mask ≡ tokens)
unfolding pack_with_eos unpack
pack_with_eos-unpack tokens block_size eos_id h =
    let p =
      pack_tokens-IsPacked block_size eos_id tokens [] [] (record { input = []; mask = [] }) h
        (record { rows = tt; masks = tt; paired = refl; holds = refl }) in
    (p.rows, p.masks, p.paired, p.holds)
