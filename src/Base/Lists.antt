-- ===== src/Base/Lists.antt =====
-- Lists with native lengths, and the Boolean searches that the source makes on them.
use Prim.Native.Nat.{ℕ, suc, ◌+◌}
use mathlib.Core.Path.{◌≡◌, refl, subst}
use mathlib.Core.Logic.{◌⊎◌, inl, inr}
use mathlib.Core.Bool.{Bool, true, false, ◌||◌, ◌&&◌}
use mathlib.Core.Option.{Option, none, some}
use mathlib.Core.List.{List, [], ◌∷◌, ◌++◌}
use native.Mathlib.Omega.{arith}
use equill.Base.Tests.{Eq, ◌==◌, if◌then◌else◌, Bool-cases}

-- `P` of every element.
abbrev pub All {ℓ κ} : {A : Type ℓ} → (A → Type κ) → List A → Type κ
All P [] = Unit
All P (x ∷ xs) = P x × All P xs

-- The element stands in the list; a place, not a proposition.
abbrev pub Elem : {A : Type 0} → A → List A → Type 0
Elem a [] = ⊥
Elem a (x ∷ xs) = (x ≡ a) ⊎ Elem a xs

module _ {ℓ} {A : Type ℓ} where
  abbrev pub length : List A → ℕ
  length [] = 0
  length (x ∷ xs) = suc (length xs)

  -- `iter().any(test)` and `iter().all(test)`
  unfoldable pub any : (A → Bool) → List A → Bool
  any test [] = false
  any test (x ∷ xs) = test x || any test xs

  unfoldable pub all : (A → Bool) → List A → Bool
  all test [] = true
  all test (x ∷ xs) = test x && all test xs

  -- `iter().filter(test)`
  unfoldable pub filter : (A → Bool) → List A → List A
  filter test [] = []
  filter test (x ∷ xs) = let rest = filter test xs in if test x then x ∷ rest else rest

  -- `iter().find(test)`
  unfoldable pub find : (A → Bool) → List A → Option A
  find test [] = none
  find test (x ∷ xs) = if test x then some x else find test xs

  pub any-append :
      (test : A → Bool) (xs ys : List A) → any test (xs ++ ys) ≡ (any test xs || any test ys)
  unfolding any
  any-append test [] ys = refl
  any-append test (x ∷ xs) ys = ground (arith, any-append test xs ys)

  pub filter-append :
      (test : A → Bool) (xs ys : List A) → filter test (xs ++ ys) ≡ filter test xs ++ filter test ys
  unfolding filter
  filter-append test [] ys = refl
  filter-append test (x ∷ xs) ys = ground (arith, filter-append test xs ys)

  pub length-append : (xs ys : List A) → length (xs ++ ys) ≡ length xs + length ys
  length-append [] ys = omega arith
  length-append (x ∷ xs) ys = omega (arith, length-append xs ys)

module _ {A : Type 0} where
  pub any_of_Elem :
      (test : A → Bool) (x : A) (xs : List A) → Elem x xs → test x ≡ true → any test xs ≡ true
  unfolding any
  any_of_Elem test x [] m h = elim m [ ]
  any_of_Elem test x (y ∷ xs) (inl e) h = ground arith
  any_of_Elem test x (y ∷ xs) (inr m) h = ground (arith, any_of_Elem test x xs m h)

  pub none_of_any :
      (test : A → Bool) (x : A) (xs : List A) → any test xs ≡ false → Elem x xs → test x ≡ false
  unfolding any
  none_of_any test x [] n m = elim m [ ]
  none_of_any test x (y ∷ xs) n (inl e) = ground arith
  none_of_any test x (y ∷ xs) n (inr m) = none_of_any test x xs (ground arith) m

  pub Elem-of_any :
      (test : A → Bool) (xs : List A) → any test xs ≡ true → (x : A) × Elem x xs × (test x ≡ true)
  unfolding any
  Elem-of_any test [] h = absurd (ground arith)
  Elem-of_any test (y ∷ xs) h = elim (Bool-cases (test y)) [
    | inl p ↦ (y, inl refl, p)
    | inr p ↦ let (x, m, t) = Elem-of_any test xs (rw p at h) in (x, inr m, t)
  ]

  pub All_at : (P : A → Type 0) (x : A) (xs : List A) → All P xs → Elem x xs → P x
  All_at P x [] a m = elim m [ ]
  All_at P x (y ∷ xs) a (inl e) = subst P e a.0
  All_at P x (y ∷ xs) a (inr m) = All_at P x xs a.1 m

  pub All-tabulate : (P : A → Type 0) (xs : List A) → ((x : A) → Elem x xs → P x) → All P xs
  All-tabulate P [] f = tt
  All-tabulate P (x ∷ xs) f = (f x (inl refl), All-tabulate P xs (λ y m. f y (inr m)))

  pub Elem-append_left : (x : A) (xs ys : List A) → Elem x xs → Elem x (xs ++ ys)
  Elem-append_left x [] ys m = elim m [ ]
  Elem-append_left x (y ∷ xs) ys (inl e) = inl e
  Elem-append_left x (y ∷ xs) ys (inr m) = inr (Elem-append_left x xs ys m)

  pub Elem-snoc : (x c : A) (xs : List A) → Elem x (xs ++ c ∷ []) → Elem x xs ⊎ (c ≡ x)
  Elem-snoc x c [] (inl e) = inr e
  Elem-snoc x c [] (inr m) = elim m [ ]
  Elem-snoc x c (y ∷ xs) (inl e) = inl (inl e)
  Elem-snoc x c (y ∷ xs) (inr m) = elim (Elem-snoc x c xs m) [ inl k ↦ inl (inr k) | inr e ↦ inr e ]

  pub Elem-last : (c : A) (xs : List A) → Elem c (xs ++ c ∷ [])
  Elem-last c [] = inl refl
  Elem-last c (y ∷ xs) = inr (Elem-last c xs)

module _ {ℓ} {A : Type ℓ} ⦃e : Eq A⦄ where
  -- `contains`, of a list, and of a set held as a list
  unfoldable pub contains : List A → A → Bool
  contains [] target = false
  contains (x ∷ xs) target = x == target || contains xs target

  pub contains-append :
      (xs ys : List A) (a : A) → contains (xs ++ ys) a ≡ (contains xs a || contains ys a)
  unfolding contains
  contains-append [] ys a = refl
  contains-append (x ∷ xs) ys a = ground (arith, contains-append xs ys a)

  -- No element stands twice.
  abbrev pub Unique : List A → Type 0
  Unique [] = Unit
  Unique (x ∷ xs) = (contains xs x ≡ false) × Unique xs

module _ {A : Type 0} ⦃e : Eq A⦄ where
  pub contains_of_Elem : (a : A) (xs : List A) → Elem a xs → contains xs a ≡ true
  unfolding contains
  contains_of_Elem a [] m = elim m [ ]
  contains_of_Elem a (y ∷ xs) (inl p) = ground (arith, e.beq_iff y a)
  contains_of_Elem a (y ∷ xs) (inr m) = ground (arith, contains_of_Elem a xs m)

  pub Elem-of_contains : (a : A) (xs : List A) → contains xs a ≡ true → Elem a xs
  unfolding contains
  Elem-of_contains a [] h = absurd (ground arith)
  Elem-of_contains a (y ∷ xs) h = elim (Bool-cases (y == a)) [
    | inl p ↦ inl ((e.beq_iff y a).0 p)
    | inr p ↦ inr (Elem-of_contains a xs (rw p at h))
  ]

  pub Unique-snoc :
      (c : A) (xs : List A) → Unique xs → contains xs c ≡ false → Unique (xs ++ c ∷ [])
  unfolding contains
  Unique-snoc c [] u n = (refl, tt)
  Unique-snoc c (x ∷ xs) u n = (
    rw contains-append (ground (arith, e.beq_iff c x, e.beq_iff x c, u.0)),
    Unique-snoc c xs u.1 (ground arith),
  )

  pub Unique-middle : (c : A) (xs ys : List A) → Unique (xs ++ c ∷ ys) → contains xs c ≡ false
  unfolding contains
  Unique-middle c [] ys u = refl
  Unique-middle c (x ∷ xs) ys u = ground (
    arith,
    e.beq_iff c x,
    e.beq_iff x c,
    contains-append xs (c ∷ ys) x,
    Unique-middle c xs ys u.1,
    u.0,
  )
