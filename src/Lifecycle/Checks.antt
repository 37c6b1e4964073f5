-- ===== src/Lifecycle/Checks.antt =====
-- src/record/lifecycle/graph.rs: the loop over the records, when one record is added, and the edge
-- of the added record.
use equill.Base.{
  ℕ, String, ◌≡◌, refl, sym, ap, ◌∙◌, inl, inr, Option, none, some, List, [], ◌∷◌, nat_eq,
  string_eq, lookup, All, Option-cases,
}
use equill.Kernel.Error.{ok, >>=-eq-ok, >>-eq-ok, ok-injective, ok_or-eq-ok}
use equill.Json.{Json}
use equill.Record.{StoredRecord, TypeDefinition}
use equill.Lifecycle.Rules.{linear_type}
use equill.Lifecycle.Ledger.{Rows, children}
use equill.Lifecycle.Graph.{
  index, find_parent, validate_edge, require_linear_key, target_child, check_record, check_records,
  add_child,
}

module _ (j : Json) where
  open j use {Value}

  abbrev id_of : Option (StoredRecord Value) → Option ℕ
  id_of none = none
  id_of (some r) = some r.id

  abbrev Defs : Type 0
  Defs = List (String × TypeDefinition Value)

  -- An accepted target gives its own id, also under more definitions.
  target_child-extend :
      (m n : Defs) (t : Option (StoredRecord Value)) (ch : Option ℕ)
      → ((name : String) (d : TypeDefinition Value)
          → lookup name m ≡ some d
          → lookup name n ≡ some d)
      → target_child j m t ≡ ok ch
      → (target_child j n t ≡ ok ch) × (ch ≡ id_of t)
  unfolding target_child
  target_child-extend m n none ch x h = (h, sym (ok-injective h))
  target_child-extend m n (some t) ch x h = elim (Option-cases (lookup t.type_name m)) [
    | inl absent ↦ let bad = rw absent at h in cc
    | inr (d, held) ↦
        let k = rw held at h in
        (rw (x t.type_name d held) k, sym (ok-injective ((>>-eq-ok _ _ k).1)))
  ]

  find_parent-extend :
      (m n : List (ℕ × StoredRecord Value)) (o : Option ℕ) (t : Option (StoredRecord Value))
      → ((id : ℕ) (r : StoredRecord Value)
          → lookup id m ≡ some r
          → (lookup id n ≡ some r) × (r.id ≡ id))
      → find_parent j m o ≡ ok t
      → (find_parent j n o ≡ ok t) × (id_of t ≡ o)
  unfolding find_parent
  find_parent-extend m n none t x h = (h, ap id_of (sym (ok-injective h)))
  find_parent-extend m n (some id) t x h = elim (Option-cases (lookup id m)) [
    | inl absent ↦ let bad = rw absent at h in cc
    | inr (r, held) ↦
        let k = ok-injective (rw held at h) in
        (rw ((x id r held).0) (ap ok k), ap id_of (sym k) ∙ ap some ((x id r held).1))
  ]

  -- A record that passes, passes in a larger ledger, and counts for the record it supersedes.
  pub check_record-extend :
      (m n : List (ℕ × StoredRecord Value)) (d e : Defs) (r : StoredRecord Value) (ch : Option ℕ)
      → ((id : ℕ) (s : StoredRecord Value)
          → lookup id m ≡ some s
          → (lookup id n ≡ some s) × (s.id ≡ id))
      → ((name : String) (k : TypeDefinition Value)
          → lookup name d ≡ some k
          → lookup name e ≡ some k)
      → check_record j m d r ≡ ok ch
      → (check_record j n e r ≡ ok r.supersedes) × (ch ≡ r.supersedes)
  unfolding check_record
  check_record-extend m n d e r ch grow more h =
      let (k, held, rest) = >>=-eq-ok (index (lookup r.type_name d)) _ h in
      let (t, parent, rest') = >>=-eq-ok (find_parent j m r.supersedes) _ rest in
      let (edge, rest'') = >>-eq-ok (validate_edge j r t k) _ rest' in
      let (keyed, last) = >>-eq-ok (require_linear_key j r k (linear_type j k)) _ rest'' in
      let (parent', same) = find_parent-extend m n r.supersedes t grow parent in
      let (last', own) = target_child-extend d e t ch more last in
      let own' = own ∙ same in
      (
        rw (more r.type_name k (ok_or-eq-ok _ _ held), parent', edge, keyed, last') (ap ok own'),
        own',
      )

  -- what the loop over the records establishes
  abbrev pub Passes : List (ℕ × StoredRecord Value) → Defs → StoredRecord Value → Type 0
  Passes m d r = check_record j m d r ≡ ok r.supersedes

  pub check_records-Passes :
      (m : List (ℕ × StoredRecord Value)) (d : Defs) (acc ch : List ℕ) (rs : Rows j)
      → ((id : ℕ) (s : StoredRecord Value) → lookup id m ≡ some s → s.id ≡ id)
      → check_records j m d acc rs ≡ ok ch
      → All (Passes m d) rs × (ch ≡ children j acc rs)
  unfolding check_records
  check_records-Passes m d acc ch [] own h = (tt, sym (ok-injective h))
  check_records-Passes m d acc ch (r ∷ rs) own h =
      let (o, one, rest) = >>=-eq-ok (check_record j m d r) _ h in
      let (pass, same) =
        check_record-extend m m d d r o (λ id s k. (k, own id s k)) (λ n k p. p) one in
      let (all, end) =
        check_records-Passes m d (add_child j r.supersedes acc) ch rs own (rw same at rest) in
      ((pass, all), end)

  pub Passes-check_records :
      (m : List (ℕ × StoredRecord Value)) (d : Defs) (acc : List ℕ) (rs : Rows j)
      → All (Passes m d) rs
      → check_records j m d acc rs ≡ ok (children j acc rs)
  unfolding check_records
  Passes-check_records m d acc [] a = refl
  Passes-check_records m d acc (r ∷ rs) a =
      rw (a.0) (Passes-check_records m d (add_child j r.supersedes acc) rs a.1)
