-- ===== src/Lifecycle/Heads.antt =====
-- src/record/lifecycle/graph.rs: `validate_linear_graph` says of each linear record that it shares
-- its target with no other and that its type's heads have distinct keys.
use mathlib.Core.Option.{some-injective}
use equill.Base.{
  ℕ, String, ◌≡◌, refl, sym, ap, ◌∙◌, inl, inr, Bool, true, false, ◌&&◌, some, List, [], ◌∷◌, ◌==◌,
  nat_eq, string_eq, any, filter, lookup, All, arith, eq_iff, Bool-cases,
}
use equill.Kernel.Error.{ok, refuse, >>=-eq-ok, >>-eq-ok, ok-injective, refuse-eq-ok, ok_or-eq-ok}
use equill.Json.{Json}
use equill.Record.{StoredRecord, TypeDefinition}
use equill.Lifecycle.Rules.{linear_type, eligible}
use equill.Lifecycle.Ledger.{Rows}
use equill.Lifecycle.Graph.{
  index, shared_target, unique_keys, counted, checked_before, check_linear_record, check_if_linear,
  linear_loop,
}

module _ (j : Json) where
  open j use {Value, to_string}

  abbrev pub Defs : Type 0
  Defs = List (String × TypeDefinition Value)

  -- the heads that `r`'s type counts have distinct keys
  abbrev pub Distinct : Rows j → List ℕ → StoredRecord Value → TypeDefinition Value → Type 0
  Distinct rs ch r d = unique_keys j d [] (filter (counted j ch r d) rs) ≡ ok tt

  -- what the loop asks of one record
  abbrev pub Linear : Rows j → Defs → List ℕ → StoredRecord Value → Type 0
  Linear rs m ch r =
      (d : TypeDefinition Value) × (lookup r.type_name m ≡ some d)
      × (linear_type j d ≡ true → (shared_target j ch r.supersedes ≡ false) × Distinct rs ch r d)

  -- what the pairs that need no second look stand for
  abbrev pub Known : Rows j → Defs → List ℕ → List (String × String) → Type 0
  Known rs m ch checked =
      (r : StoredRecord Value) (d : TypeDefinition Value)
      → checked_before j checked r ≡ true
      → lookup r.type_name m ≡ some d
      → Distinct rs ch r d

  pub nothing-Known : (rs : Rows j) (m : Defs) (ch : List ℕ) → Known rs m ch []
  unfolding checked_before any
  nothing-Known rs m ch r d h l = absurd (ground arith)

  -- Whom a type counts depends on the namespace and the type alone.
  counted-same :
      (ch : List ℕ) (r s x : StoredRecord Value) (d : TypeDefinition Value)
      → r.namespace ≡ s.namespace
      → r.type_name ≡ s.type_name
      → counted j ch r d x ≡ counted j ch s d x
  unfolding counted eligible
  counted-same ch r s x d n t = rw (n, t) refl

  filter-same :
      {A : Type 0} (p q : A → Bool) (xs : List A)
      → ((x : A) → p x ≡ q x)
      → filter p xs ≡ filter q xs
  unfolding filter
  filter-same p q [] h = refl
  filter-same p q (x ∷ xs) h = rw (h x, filter-same p q xs h) refl

  Distinct-same :
      (rs : Rows j) (ch : List ℕ) (r s : StoredRecord Value) (d : TypeDefinition Value)
      → r.namespace ≡ s.namespace
      → r.type_name ≡ s.type_name
      → Distinct rs ch r d
      → Distinct rs ch s d
  Distinct-same rs ch r s d n t u =
      rw (← filter-same (counted j ch r d) (counted j ch s d) rs (λ x. counted-same ch r s x d n t))
        u

  Known-add :
      (rs : Rows j) (m : Defs) (ch : List ℕ) (checked : List (String × String))
      (r : StoredRecord Value) (d : TypeDefinition Value)
      → lookup r.type_name m ≡ some d
      → Distinct rs ch r d
      → Known rs m ch checked
      → Known rs m ch ((r.namespace, r.type_name) ∷ checked)
  unfolding checked_before any
  Known-add rs m ch checked r d l u known s e h l' =
      elim (Bool-cases (r.namespace == s.namespace && r.type_name == s.type_name)) [
        | inl p ↦
            let n : r.namespace ≡ s.namespace = ground (arith, p, eq_iff r.namespace s.namespace) in
            let t : r.type_name ≡ s.type_name = ground (arith, p, eq_iff r.type_name s.type_name) in
            let same : d ≡ e =
              some-injective d e (sym l ∙ ap (λ (x : String). lookup x m) t ∙ l') in
            rw (← same) (Distinct-same rs ch r s d n t u)
        | inr p ↦ known s e (rw p at h) l'
      ]

  check_linear_record-Distinct :
      (rs : Rows j) (m : Defs) (ch : List ℕ) (checked : List (String × String))
      (r : StoredRecord Value) (d : TypeDefinition Value)
      → lookup r.type_name m ≡ some d
      → Known rs m ch checked
      → check_linear_record j rs ch checked r d ≡ ok tt
      → (shared_target j ch r.supersedes ≡ false) × Distinct rs ch r d
  unfolding check_linear_record
  check_linear_record-Distinct rs m ch checked r d l known h =
      let (alone, rest) = >>-eq-ok (refuse (shared_target j ch r.supersedes) _) _ h in
      (
        refuse-eq-ok _ _ alone,
        elim (Bool-cases (checked_before j checked r)) [
          | inl p ↦ known r d p l
          | inr p ↦ rw p at rest
        ],
      )

  Linear-check_linear_record :
      (rs : Rows j) (ch : List ℕ) (checked : List (String × String)) (r : StoredRecord Value)
      (d : TypeDefinition Value)
      → (shared_target j ch r.supersedes ≡ false) × Distinct rs ch r d
      → check_linear_record j rs ch checked r d ≡ ok tt
  unfolding check_linear_record
  Linear-check_linear_record rs ch checked r d (alone, distinct) =
      rw alone (elim (Bool-cases (checked_before j checked r)) [
        | inl p ↦ rw p refl
        | inr p ↦ rw p distinct
      ])

  pub linear_loop-Linear :
      (rs : Rows j) (m : Defs) (ch : List ℕ) (checked : List (String × String)) (more : Rows j)
      → Known rs m ch checked
      → linear_loop j rs m ch checked more ≡ ok tt
      → All (Linear rs m ch) more
  unfolding linear_loop
  linear_loop-Linear rs m ch checked [] known h = tt
  linear_loop-Linear rs m ch checked (r ∷ more) known h =
      let (d, found, rest) = >>=-eq-ok (index (lookup r.type_name m)) _ h in
      let held = ok_or-eq-ok _ _ found in
      elim (Bool-cases (linear_type j d)) [
        | inl p ↦
            let (checked', one, rest') =
              >>=-eq-ok (check_if_linear j rs ch checked r d true) _ (rw p at rest) in
            let (pass, next) = >>-eq-ok (check_linear_record j rs ch checked r d) _ one in
            let facts = check_linear_record-Distinct rs m ch checked r d held known pass in
            (
              (d, held, λ _. facts),
              linear_loop-Linear rs m ch ((r.namespace, r.type_name) ∷ checked) more
                  (Known-add rs m ch checked r d held facts.1 known)
                  (rw (← ok-injective next) at rest'),
            )
        | inr p ↦ (
          (d, held, λ q. let bad = sym q ∙ p in cc),
          linear_loop-Linear rs m ch checked more known (rw p at rest),
        )
      ]

  pub Linear-linear_loop :
      (rs : Rows j) (m : Defs) (ch : List ℕ) (checked : List (String × String)) (more : Rows j)
      → All (Linear rs m ch) more
      → linear_loop j rs m ch checked more ≡ ok tt
  unfolding linear_loop
  Linear-linear_loop rs m ch checked [] a = refl
  Linear-linear_loop rs m ch checked (r ∷ more) ((d, held, facts), a) =
      rw held (elim (Bool-cases (linear_type j d)) [
        | inl p ↦
            rw (p, Linear-check_linear_record rs ch checked r d (facts p))
              (Linear-linear_loop rs m ch ((r.namespace, r.type_name) ∷ checked) more a)
        | inr p ↦ rw p (Linear-linear_loop rs m ch checked more a)
      ])
