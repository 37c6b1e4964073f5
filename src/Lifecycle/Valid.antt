-- ===== src/Lifecycle/Valid.antt =====
-- What the canonical validation has established of a ledger, and when a candidate fits.
use mathlib.Core.List.{map-append}
use mathlib.Core.Path.{subst}
use equill.Base.{
  ℕ, suc, String, ◌≡◌, ◌≢◌, refl, sym, inl, inr, true, false, some, List, [], ◌∷◌, ◌++◌, nat_eq,
  string_eq, contains, lookup, Elem, Unique, Unique-snoc, All, insert, length, length-append, arith,
  Option-cases,
}
use equill.Kernel.Error.{Result, ok, >>=-eq-ok, >>-eq-ok}
use equill.Json.{Json}
use equill.Record.{StoredRecord, TypeDefinition}
use equill.Lifecycle.Rules.{linear_type}
use equill.Lifecycle.Describes.{ids}
use equill.Lifecycle.Lookup.{pairs}
use equill.Lifecycle.Ledger.{Rows, collect-pairs, lookup-pairs, children}
use equill.Lifecycle.Checks.{Passes, check_records-Passes, Passes-check_records}
use equill.Lifecycle.Heads.{Distinct, Linear, linear_loop-Linear, Linear-linear_loop, nothing-Known}
use equill.Lifecycle.Graph.{
  load_all, add_definition, check_records, reject_cycles, validate_linear_graph, validate_graph,
}

pub absent-empty : {V : Type 0} (q : String) (x : V) {P : Type 0} → lookup q [] ≡ some x → P
unfolding lookup
absent-empty q x h = cc

module _ (j : Json) (load : String → Result (TypeDefinition j.Value)) where
  open j use {Value}

  -- what `validate_graph` has established of a ledger that it accepts
  pub record IsValid (rs : Rows j) : Type 0 where
    pub definitions : List (String × TypeDefinition Value)
    pub loaded : load_all j load [] rs ≡ ok definitions
    pub passes : All (Passes j (pairs j rs) definitions) rs
    pub acyclic : reject_cycles j (suc (length rs)) (pairs j rs) rs ≡ ok tt
    pub linear : All (Linear j rs definitions (children j [] rs)) rs

  pub IsValid-of_graph :
      (rs : Rows j) → Unique (ids j rs) → validate_graph j load rs ≡ ok tt → IsValid rs
  unfolding validate_graph validate_linear_graph
  IsValid-of_graph rs u h =
      let h' = rw (collect-pairs j rs u) at h in
      let (m, loads, h1) = >>=-eq-ok (load_all j load [] rs) _ h' in
      let (ch, checks, h2) = >>=-eq-ok (check_records j (pairs j rs) m [] rs) _ h1 in
      let (walks, heads) = >>-eq-ok (reject_cycles j (suc (length rs)) (pairs j rs) rs) _ h2 in
      let (passes, same) =
        check_records-Passes j (pairs j rs) m [] ch rs (λ id s k. (lookup-pairs j rs id s k).0)
          checks in
      record {
        definitions = m;
        loaded = loads;
        passes = passes;
        acyclic = walks;
        linear =
            linear_loop-Linear j rs m (children j [] rs) [] rs
              (nothing-Known j rs m (children j [] rs)) (rw same at heads);
      }

  pub graph_of_IsValid :
      (rs : Rows j) → Unique (ids j rs) → IsValid rs → validate_graph j load rs ≡ ok tt
  unfolding validate_graph validate_linear_graph
  graph_of_IsValid rs u v =
      rw
        (
          collect-pairs j rs u,
          v.loaded,
          Passes-check_records j (pairs j rs) v.definitions [] rs v.passes,
          v.acyclic,
        )
        (Linear-linear_loop j rs v.definitions (children j [] rs) [] rs v.linear)

  -- a ledger's maps, with one more record
  pub pairs-snoc :
      (rs : Rows j) (c : StoredRecord Value) → pairs j (rs ++ c ∷ []) ≡ pairs j rs ++ (c.id, c) ∷ []
  pairs-snoc rs c = map-append (λ r. (r.id, r)) rs (c ∷ [])

  pub add_definition-ok :
      (name : String) (d : TypeDefinition Value) (m : List (String × TypeDefinition Value))
      → load name ≡ ok d
      → (n : List (String × TypeDefinition Value)) × (add_definition j load name m (lookup name m)
          ≡ ok n)
  unfolding add_definition
  add_definition-ok name d m l = elim (Option-cases (lookup name m)) [
    | inl absent ↦ (insert name d m, rw (absent, l) refl)
    | inr (e, held) ↦ (m, rw held refl)
  ]

  pub length-snoc : (rs : Rows j) (c : StoredRecord Value) → length (rs ++ c ∷ []) ≡ suc (length rs)
  length-snoc rs c = omega (arith, length-append rs (c ∷ []))

  pub Unique-ids_snoc :
      (rs : Rows j) (c : StoredRecord Value)
      → Unique (ids j rs)
      → contains (ids j rs) c.id ≡ false
      → Unique (ids j (rs ++ c ∷ []))
  Unique-ids_snoc rs c u fresh =
      subst Unique (sym (map-append (λ r. r.id) rs (c ∷ []))) (Unique-snoc c.id (ids j rs) u fresh)

  pub All-snoc :
      (P : StoredRecord Value → Type 0) (rs : Rows j) (c : StoredRecord Value)
      → All P rs
      → P c
      → All P (rs ++ c ∷ [])
  All-snoc P [] c a p = (p, tt)
  All-snoc P (r ∷ rs) c a p = (a.0, All-snoc P rs c a.1 p)

  -- No two linear records may share a target, so the target of a record that is not linear may have
  -- no linear child; and the heads that the candidate's own linear type counts are distinct already.
  pub record Fits (rs : Rows j) (c : StoredRecord Value) (d : TypeDefinition Value) : Type 0 where
    pub alone :
        (r : StoredRecord Value) (e : TypeDefinition Value) (t : ℕ)
        → Elem r rs
        → load r.type_name ≡ ok e
        → linear_type j e ≡ true
        → r.supersedes ≡ some t
        → c.supersedes ≢ some t
    pub distinct : linear_type j d ≡ true → Distinct j rs (children j [] rs) c d
