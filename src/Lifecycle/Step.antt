-- ===== src/Lifecycle/Step.antt =====
-- One accepted append, step by step: each part of the canonical validation, for one more record.
use mathlib.Core.Path.{subst}
use equill.Base.{
  ℕ, String, ◌≡◌, refl, sym, ap, ◌∙◌, inl, inr, true, false, ◌&&◌, Option, none, some, List, nat_eq,
  string_eq, map, lookup, Elem, Unique, Bool-cases,
}
use equill.Kernel.Error.{Result, ok, >>=-eq-ok, ok-injective, ok_or, ok_or-eq-ok}
use equill.Json.{Json}
use equill.Record.{StoredRecord, TypeDefinition}
use equill.Lifecycle.Rules.{key, require_key, linear_type, append_only_type, accepts}
use equill.Lifecycle.State.{Entry, LifecycleState, claimed_key}
use equill.Lifecycle.Registry.{lookup-keys_of}
use equill.Lifecycle.Append.{find_target, check_target, append_only_target}
use equill.Lifecycle.Writer.{load_entry_type, entry_of}
use equill.Lifecycle.Edge.{edge}
use equill.Lifecycle.Describes.{Describes}
use equill.Lifecycle.Lookup.{pairs, lookup-Matches}
use equill.Lifecycle.Ledger.{Rows}
use equill.Lifecycle.Graph.{
  find_parent, validate_edge, target_child, check_record, require_linear_key,
}

module _ (j : Json) (load : String → Result (TypeDefinition j.Value)) where
  open j use {Value}

  -- the parent of the candidate, as the ledger and as the state know it
  pub data Parent (state : LifecycleState Value) (rs : Rows j)
      (claiming : List (String × TypeDefinition Value)) (d : TypeDefinition Value)
      (c : StoredRecord Value) : Type 0 where
    root : c.supersedes ≡ none → Parent state rs claiming d c
    child :
        (t : StoredRecord Value) (e : Entry Value)
        → c.supersedes ≡ some t.id
        → lookup t.id (pairs j rs) ≡ some t
        → Elem t rs
        → (dt : TypeDefinition Value) → load t.type_name ≡ ok dt
        → append_only_type j dt ≡ false
        → validate_edge j c (some t) d ≡ ok tt
        → Parent state rs claiming d c

  -- A candidate that passes has its key if it is linear.
  pub keyed :
      (c : StoredRecord Value) (d : TypeDefinition Value)
      → (linear_type j d ≡ true → (k : Value) × (key j c d ≡ some k))
      → require_linear_key j c d (linear_type j d) ≡ ok tt
  unfolding require_key
  keyed c d h = elim (Bool-cases (linear_type j d)) [
    | inl p ↦ rw (p, (h p).1) refl
    | inr p ↦ rw p refl
  ]

  find_root :
      (m : List (ℕ × StoredRecord Value)) (o : Option ℕ) → o ≡ none → (find_parent j m o ≡ ok none)
  unfolding find_parent
  find_root m o s = rw s refl

  find_child :
      (m : List (ℕ × StoredRecord Value)) (o : Option ℕ) (t : StoredRecord Value)
      → o ≡ some t.id
      → lookup t.id m ≡ some t
      → find_parent j m o ≡ ok (some t)
  unfolding find_parent
  find_child m o t s found = rw s (rw found refl)

  target_open :
      (defs : List (String × TypeDefinition Value)) (t : StoredRecord Value)
      (dt : TypeDefinition Value)
      → lookup t.type_name defs ≡ some dt
      → append_only_type j dt ≡ false
      → target_child j defs (some t) ≡ ok (some t.id)
  unfolding target_child
  target_open defs t dt l o = rw l (rw o refl)

  -- With its parent in order, the candidate passes the canonical check of a record.
  pub Parent-Passes :
      (state : LifecycleState Value) (rs : Rows j) (claiming : List (String × TypeDefinition Value))
      (d : TypeDefinition Value) (c : StoredRecord Value) (m : List (ℕ × StoredRecord Value))
      (defs : List (String × TypeDefinition Value))
      → Parent state rs claiming d c
      → lookup c.type_name defs ≡ some d
      → ((id : ℕ) (s : StoredRecord Value) → lookup id (pairs j rs) ≡ some s → lookup id m ≡ some s)
      → ((t : StoredRecord Value) (dt : TypeDefinition Value)
          → Elem t rs
          → load t.type_name ≡ ok dt
          → lookup t.type_name defs ≡ some dt)
      → require_linear_key j c d (linear_type j d) ≡ ok tt
      → check_record j m defs c ≡ ok c.supersedes
  unfolding check_record
  Parent-Passes state rs claiming d c m defs (root s) own grow known k =
      rw (own, find_root m c.supersedes s, k) (ap ok (sym s))
  Parent-Passes state rs claiming d c m defs (child t e s found place dt l open' ok') own grow known
        k =
      rw
        (
          own,
          find_child m c.supersedes t s (grow t.id t found),
          ok',
          k,
          target_open defs t dt (known t dt place l) open',
        )
        (ap ok (sym s))

  claimed :
      (t : StoredRecord Value) (name : String) (d : TypeDefinition Value)
      → (linear_type j d && accepts j name d t.type_name) ≡ true
      → claimed_key j t (name, d) ≡ key j t d
  unfolding claimed_key
  claimed t name d p = rw p refl

  -- The parent of an accepted candidate is in order.
  pub accepted-Parent :
      (state : LifecycleState Value) (rs : Rows j) (claiming : List (String × TypeDefinition Value))
      (d : TypeDefinition Value) (c : StoredRecord Value) (td : Option (TypeDefinition Value))
      (o : Option ℕ) (target : Option (ℕ × Entry Value))
      → Describes j claiming state rs
      → Unique (map (λ p. p.0) claiming)
      → lookup c.type_name claiming ≡ some d
      → c.supersedes ≡ o
      → load_entry_type j load (entry_of j load state o) ≡ ok td
      → find_target j state o ≡ ok target
      → check_target j c d td target ≡ ok tt
      → Parent state rs claiming d c
  unfolding find_target load_entry_type
  accepted-Parent state rs claiming d c td none target ds u own s l f h = root s
  accepted-Parent state rs claiming d c td (some id) target ds u own s l f h =
      let (e, found, rest) = >>=-eq-ok (ok_or (lookup id state.entries) _) _ f in
      let held = ok_or-eq-ok _ _ found in
      let (dt, loaded, same) = >>=-eq-ok (load e.type_name) _ (rw held at l) in
      let (t, at, place, holds) = lookup-Matches j claiming state.entries rs id e ds.entries held in
      let target-is = ok-injective rest in
      let (fits, open') =
        edge j c d td id e t (subst (λ x. check_target j c d td x ≡ ok tt) (sym target-is) h)
          holds.id holds.type_name holds.namespace
          (λ p.
            rw holds.keys
              (lookup-keys_of j t c.type_name d claiming u own ∙ claimed t c.type_name d p)) in
      child t e (s ∙ ap some holds.id) (subst (λ x. lookup x (pairs j rs) ≡ some t) holds.id at)
        place dt (subst (λ x. load x ≡ ok dt) holds.type_name loaded)
        (subst (λ x. append_only_target j x ≡ false) (sym (ok-injective same)) open') fits
