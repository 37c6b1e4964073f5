-- ===== src/Vector/Sorted.antt =====
-- src/vector/fusion.rs: the order that `fuse` sorts by.
use equill.Base.{◌≡◌, inl, inr, true, false, List, [], ◌∷◌, arith, Bool-cases}
use equill.Vector.Fusion.{Scored, ranks_before, insert_ranked, sort_ranked}

module _ {V : Type 0} where
  -- every hit ranks before the next
  abbrev pub IsRanked : List (Scored V) → Type 0
  IsRanked [] = Unit
  IsRanked (a ∷ []) = Unit
  IsRanked (a ∷ b ∷ rest) = (ranks_before V a b ≡ true) × IsRanked (b ∷ rest)

  ranks_total : (a b : Scored V) → ranks_before V a b ≡ false → ranks_before V b a ≡ true
  ranks_total a b h = ground arith

  insert_ranked-below :
      (x a : Scored V) (rest : List (Scored V))
      → ranks_before V x a ≡ true
      → IsRanked (x ∷ rest)
      → IsRanked (insert_ranked V a rest)
      → IsRanked (x ∷ insert_ranked V a rest)
  unfolding insert_ranked
  insert_ranked-below x a [] h r s = (h, tt)
  insert_ranked-below x a (b ∷ rest) h r s = elim (Bool-cases (ranks_before V a b)) [
    | inl p ↦ rw p (h, rw p at s)
    | inr p ↦ rw p (r.0, rw p at s)
  ]

  insert_ranked-IsRanked :
      (a : Scored V) (rest : List (Scored V)) → IsRanked rest → IsRanked (insert_ranked V a rest)
  unfolding insert_ranked
  insert_ranked-IsRanked a [] r = tt
  insert_ranked-IsRanked a (b ∷ []) r = elim (Bool-cases (ranks_before V a b)) [
    | inl p ↦ rw p (p, tt)
    | inr p ↦ rw p (ranks_total a b p, tt)
  ]
  insert_ranked-IsRanked a (b ∷ c ∷ rest) r = elim (Bool-cases (ranks_before V a b)) [
    | inl p ↦ rw p (p, r)
    | inr p ↦ rw p (
        insert_ranked-below b a (c ∷ rest) (ranks_total a b p) r
          (insert_ranked-IsRanked a (c ∷ rest) r.1))
  ]

  -- `sort_by` leaves each hit with a higher score than the next, or the same score and no higher an id.
  pub sort_ranked-IsRanked : (xs : List (Scored V)) → IsRanked (sort_ranked V xs)
  unfolding sort_ranked
  sort_ranked-IsRanked [] = tt
  sort_ranked-IsRanked (a ∷ xs) =
      insert_ranked-IsRanked a (sort_ranked V xs) (sort_ranked-IsRanked xs)
