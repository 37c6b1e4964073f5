-- ===== src/Base/Sort.antt =====
-- `slice::sort_by`: the stable sort by a comparator, and `Ordering`'s chains.
use Prim.Native.Nat.{ℕ, ◌+◌, compare, Ordering}
use Prim.Native.Char.{code}
use Prim.Native.String.{String}
use mathlib.Core.Path.{◌≡◌, refl}
use mathlib.Core.Logic.{inl, inr}
use mathlib.Core.Bool.{Bool, true, false}
use mathlib.Core.Option.{Option, none, some}
use mathlib.Core.List.{List, [], ◌∷◌}
use native.Mathlib.Omega.{arith}
use equill.Base.Tests.{if◌then◌else◌, Bool-cases}
use equill.Base.Lists.{All}

-- `then_with`
abbrev pub then_with : Ordering → Ordering → Ordering
then_with Ordering.lt later = Ordering.lt
then_with Ordering.eq later = later
then_with Ordering.gt later = Ordering.gt

abbrev pub reverse : Ordering → Ordering
reverse Ordering.lt = Ordering.gt
reverse Ordering.eq = Ordering.eq
reverse Ordering.gt = Ordering.lt

abbrev pub is_le : Ordering → Bool
is_le Ordering.gt = false
is_le _ = true

-- `str::cmp`, which orders by code points
unfoldable pub compare_text : String → String → Ordering
compare_text String.[] String.[] = Ordering.eq
compare_text String.[] (String.◌∷◌ d t) = Ordering.lt
compare_text (String.◌∷◌ c s) String.[] = Ordering.gt
compare_text (String.◌∷◌ c s) (String.◌∷◌ d t) =
    let later = compare_text s t in then_with (compare (code c) (code d)) later

-- `Option::cmp`
abbrev pub compare_option : Option ℕ → Option ℕ → Ordering
compare_option none none = Ordering.eq
compare_option none (some b) = Ordering.lt
compare_option (some a) none = Ordering.gt
compare_option (some a) (some b) = compare a b

-- a sum over the elements, which does not see their order
abbrev pub total_of {ℓ} : {A : Type ℓ} → (A → ℕ) → List A → ℕ
total_of weight [] = 0
total_of weight (a ∷ xs) = weight a + total_of weight xs

module _ {ℓ} {A : Type ℓ} (cmp : A → A → Ordering) where
  unfoldable pub insert_by : A → List A → List A
  insert_by a [] = a ∷ []
  insert_by a (b ∷ rest) =
      let later = insert_by a rest in if is_le (cmp a b) then a ∷ b ∷ rest else b ∷ later

  unfoldable pub sort_by : List A → List A
  unfolding insert_by
  sort_by [] = []
  sort_by (a ∷ rest) = insert_by a (sort_by rest)

  -- no element stands behind one that it comes before
  abbrev pub IsSorted : List A → Type 0
  IsSorted [] = Unit
  IsSorted (a ∷ []) = Unit
  IsSorted (a ∷ b ∷ rest) = (is_le (cmp a b) ≡ true) × IsSorted (b ∷ rest)

  -- a comparator whose answer turns over with its arguments
  abbrev pub Antisymmetric : Type ℓ
  Antisymmetric = (a b : A) → cmp b a ≡ reverse (cmp a b)

  le_or_ge : Antisymmetric → (a b : A) → is_le (cmp a b) ≡ false → is_le (cmp b a) ≡ true
  le_or_ge anti a b h = rw (anti a b) (flips (cmp a b) h)
    where
      flips : (o : Ordering) → is_le o ≡ false → is_le (reverse o) ≡ true
      flips Ordering.lt k = cc
      flips Ordering.eq k = cc
      flips Ordering.gt k = refl

  below-insert_by :
      Antisymmetric
      → (x a : A) (rest : List A) → is_le (cmp x a) ≡ true
      → IsSorted (x ∷ rest)
      → IsSorted (insert_by a rest)
      → IsSorted (x ∷ insert_by a rest)
  unfolding insert_by
  below-insert_by anti x a [] h r s = (h, tt)
  below-insert_by anti x a (b ∷ rest) h r s = elim (Bool-cases (is_le (cmp a b))) [
    | inl p ↦ rw p (h, rw p at s)
    | inr p ↦ rw p (r.0, rw p at s)
  ]

  insert_by-IsSorted :
      Antisymmetric → (a : A) (rest : List A) → IsSorted rest → IsSorted (insert_by a rest)
  unfolding insert_by
  insert_by-IsSorted anti a [] r = tt
  insert_by-IsSorted anti a (b ∷ []) r = elim (Bool-cases (is_le (cmp a b))) [
    | inl p ↦ rw p (p, tt)
    | inr p ↦ rw p (le_or_ge anti a b p, tt)
  ]
  insert_by-IsSorted anti a (b ∷ c ∷ rest) r = elim (Bool-cases (is_le (cmp a b))) [
    | inl p ↦ rw p (p, r)
    | inr p ↦ rw p (
        below-insert_by anti b a (c ∷ rest) (le_or_ge anti a b p) r
          (insert_by-IsSorted anti a (c ∷ rest) r.1))
  ]

  pub sort_by-IsSorted : Antisymmetric → (xs : List A) → IsSorted (sort_by xs)
  unfolding sort_by
  sort_by-IsSorted anti [] = tt
  sort_by-IsSorted anti (a ∷ xs) = insert_by-IsSorted anti a (sort_by xs) (sort_by-IsSorted anti xs)

  All-insert_by {κ} :
      (P : A → Type κ) (a : A) (xs : List A) → P a → All P xs → All P (insert_by a xs)
  unfolding insert_by
  All-insert_by P a [] p h = (p, tt)
  All-insert_by P a (b ∷ xs) p h = elim (Bool-cases (is_le (cmp a b))) [
    | inl q ↦ rw q (p, h)
    | inr q ↦ rw q (h.0, All-insert_by P a xs p h.1)
  ]

  pub All-sort_by {κ} : (P : A → Type κ) (xs : List A) → All P xs → All P (sort_by xs)
  unfolding sort_by
  All-sort_by P [] h = tt
  All-sort_by P (a ∷ xs) h = All-insert_by P a (sort_by xs) h.0 (All-sort_by P xs h.1)

  total_of-insert_by :
      (weight : A → ℕ) (a : A) (xs : List A)
      → total_of weight (insert_by a xs) ≡ weight a + total_of weight xs
  unfolding insert_by
  total_of-insert_by weight a [] = refl
  total_of-insert_by weight a (b ∷ xs) = elim (Bool-cases (is_le (cmp a b))) [
    | inl q ↦ rw q refl
    | inr q ↦ rw q (omega (arith, total_of-insert_by weight a xs))
  ]

  pub total_of-sort_by :
      (weight : A → ℕ) (xs : List A) → total_of weight (sort_by xs) ≡ total_of weight xs
  unfolding sort_by
  total_of-sort_by weight [] = refl
  total_of-sort_by weight (a ∷ xs) =
      omega (arith, total_of-insert_by weight a (sort_by xs), total_of-sort_by weight xs)
