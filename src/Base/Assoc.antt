-- ===== src/Base/Assoc.antt =====
-- `BTreeMap` and `HashMap` as association lists with one entry for a key. The iteration order is
-- that of the first insertion; no caller's result depends on it.
use mathlib.Core.Path.{◌≡◌, refl}
use mathlib.Core.Bool.{false}
use mathlib.Core.Option.{Option, none, some}
use mathlib.Core.List.{List, [], ◌∷◌, ◌++◌, map}
use native.Mathlib.Omega.{arith}
use equill.Base.Tests.{Eq, ◌==◌, if◌then◌else◌}
use equill.Base.Lists.{contains}

module _ {ℓ} {K : Type 0} {V : Type ℓ} ⦃e : Eq K⦄ where
  unfoldable pub insert : K → V → List (K × V) → List (K × V)
  insert key value [] = (key, value) ∷ []
  insert key value ((first, old) ∷ rest) =
      if first == key then (key, value) ∷ rest else (first, old) ∷ insert key value rest

  unfoldable pub lookup : K → List (K × V) → Option V
  lookup key [] = none
  lookup key ((first, value) ∷ rest) = if first == key then some value else lookup key rest

  pub lookup-insert :
      (k q : K) (value : V) (pairs : List (K × V))
      → lookup q (insert k value pairs) ≡ (if k == q then some value else lookup q pairs)
  unfolding insert lookup
  lookup-insert k q value [] = refl
  lookup-insert k q value ((first, old) ∷ rest) =
      let ih = lookup-insert k q value rest in
      ground (arith, e.beq_iff k q, e.beq_iff first q, e.beq_iff first k, ih)

  pub lookup-append_absent :
      (k : K) (m n : List (K × V)) → lookup k m ≡ none → lookup k (m ++ n) ≡ lookup k n
  unfolding lookup
  lookup-append_absent k [] n h = refl
  lookup-append_absent k ((j, v) ∷ m) n h = ground (arith, lookup-append_absent k m n)

  pub lookup-append_present :
      (k : K) (v : V) (m n : List (K × V)) → lookup k m ≡ some v → lookup k (m ++ n) ≡ some v
  unfolding lookup
  lookup-append_present k v [] n h = absurd (ground arith)
  lookup-append_present k v ((j, w) ∷ m) n h = ground (arith, lookup-append_present k v m n)

  pub insert_absent :
      (k : K) (v : V) (m : List (K × V)) → lookup k m ≡ none → insert k v m ≡ m ++ (k, v) ∷ []
  unfolding lookup insert
  insert_absent k v [] h = refl
  insert_absent k v ((j, w) ∷ m) h = ground (arith, insert_absent k v m)

  pub lookup_absent :
      (k : K) (m : List (K × V)) → contains (map (λ p. p.0) m) k ≡ false → lookup k m ≡ none
  unfolding lookup contains
  lookup_absent k [] h = refl
  lookup_absent k ((j, v) ∷ m) h = ground (arith, lookup_absent k m)
