-- ===== src/Beam/Best.antt =====
-- src/beam.cpp, the beam that is returned: no other of the last round has a larger normed score.
use llm_cpp.Prelude.{
  ◌≡◌, refl, subst, inl, inr, true, false, List, [], ◌∷◌, Bool-cases, All, nat_eq, list_eq, int_eq,
}
use llm_cpp.Beam.{BeamState, Scoring, normed, best_of}

module _ {F : Type 0} (v : Scoring F) where
  -- The scores are ordered: `less` is a strict weak order.
  pub record IsOrder : Type 0 where
    pub irreflexive : (a : F) → v.less a a ≡ false
    pub asymmetric : (a b : F) → v.less a b ≡ true → v.less b a ≡ false
    pub not_less : (a b c : F) → v.less a b ≡ false → v.less b c ≡ false → v.less a c ≡ false

  abbrev pub NoBetter : BeamState F → BeamState F → Type 0
  NoBetter r b = v.less (normed v r) (normed v b) ≡ false

  best_of-later :
      (b c : BeamState F) (cs : List (BeamState F))
      → v.less (normed v b) (normed v c) ≡ true
      → best_of v c cs ≡ best_of v b (c ∷ cs)
  unfolding best_of
  best_of-later b c cs e = rw e refl

  best_of-same :
      (b c : BeamState F) (cs : List (BeamState F))
      → v.less (normed v b) (normed v c) ≡ false
      → best_of v b cs ≡ best_of v b (c ∷ cs)
  unfolding best_of
  best_of-same b c cs e = rw e refl

  -- With an order, no beam has a larger normed score than the best.
  pub best_of-NoBetter :
      IsOrder
      → (b : BeamState F) (bs : List (BeamState F))
      → NoBetter (best_of v b bs) b × All (NoBetter (best_of v b bs)) bs
  unfolding best_of
  best_of-NoBetter o b [] = (o.irreflexive (normed v b), tt)
  best_of-NoBetter o b (c ∷ cs) = elim (Bool-cases (v.less (normed v b) (normed v c))) [
    | inl e ↦
        let r = best_of v c cs in
        let ih = best_of-NoBetter o c cs in
        let first = o.not_less (normed v r) (normed v c) (normed v b) ih.0 (o.asymmetric _ _ e) in
        subst (λ x. NoBetter x b × All (NoBetter x) (c ∷ cs)) (best_of-later b c cs e) (first, ih)
    | inr e ↦
        let r = best_of v b cs in
        let ih = best_of-NoBetter o b cs in
        let next = o.not_less (normed v r) (normed v b) (normed v c) ih.0 e in
        subst (λ x. NoBetter x b × All (NoBetter x) (c ∷ cs)) (best_of-same b c cs e)
          (ih.0, (next, ih.1))
  ]

  pub best_of-All :
      (P : BeamState F → Type 0) (b : BeamState F) (bs : List (BeamState F))
      → P b
      → All P bs
      → P (best_of v b bs)
  unfolding best_of
  best_of-All P b [] h hs = h
  best_of-All P b (c ∷ cs) h hs = elim (Bool-cases (v.less (normed v b) (normed v c))) [
    | inl e ↦ subst P (best_of-later b c cs e) (best_of-All P c cs hs.0 hs.1)
    | inr e ↦ subst P (best_of-same b c cs e) (best_of-All P b cs h hs.1)
  ]
