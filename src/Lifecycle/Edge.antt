-- ===== src/Lifecycle/Edge.antt =====
-- The edge that the compact check accepts is one that the canonical validation accepts.
use equill.Base.{
  ℕ, ◌≡◌, refl, inl, inr, Bool, true, false, ◌&&◌, not, Option, some, ◌==◌, ◌!=◌, nat_eq, string_eq,
  contains, lookup, arith, Bool-cases,
}
use equill.Kernel.Error.{ok, refuse, >>-eq-ok, refuse-eq-ok}
use equill.Json.{Json}
use equill.Record.{StoredRecord, TypeDefinition}
use equill.Lifecycle.Rules.{key, append_only_type, linear_type, accepts}
use equill.Lifecycle.State.{Entry}
use equill.Lifecycle.Append.{check_target, append_only_target, keys_differ}
use equill.Lifecycle.Graph.{validate_edge}

module _ (j : Json) where
  open j use {Value}

  -- the six tests of an edge, in order
  abbrev EdgeTests : Bool → Bool → Bool → Bool → Bool → Type 0
  EdgeTests a b c d e = (a ≡ false) × (b ≡ false) × (c ≡ false) × (d ≡ false) × (e ≡ false)

  check_target-tests :
      (c : StoredRecord Value) (d : TypeDefinition Value) (td : Option (TypeDefinition Value))
      (id : ℕ) (e : Entry Value)
      → check_target j c d td (some (id, e)) ≡ ok tt
      → EdgeTests
          (c.id == id)
          (append_only_type j d)
          (c.namespace != e.namespace)
          (c.type_name != e.type_name
            && not (contains d.lifecycle.allowed_predecessor_types e.type_name))
          (linear_type j d && keys_differ j (key j c d) (lookup c.type_name e.keys))
        × (append_only_target j td ≡ false)
  unfolding check_target
  check_target-tests c d td id e h =
      let (a, h1) = >>-eq-ok (refuse _ _) _ h in
      let (b, h2) = >>-eq-ok (refuse _ _) _ h1 in
      let (n, h3) = >>-eq-ok (refuse _ _) _ h2 in
      let (t, h4) = >>-eq-ok (refuse _ _) _ h3 in
      let (o, h5) = >>-eq-ok (refuse _ _) _ h4 in
      (
        (
          refuse-eq-ok _ _ a,
          refuse-eq-ok _ _ b,
          refuse-eq-ok _ _ n,
          refuse-eq-ok _ _ t,
          refuse-eq-ok _ _ h5,
        ),
        refuse-eq-ok _ _ o,
      )

  validate_edge-tests :
      (c t : StoredRecord Value) (d : TypeDefinition Value)
      → EdgeTests
          (c.id == t.id)
          (append_only_type j d)
          (c.namespace != t.namespace)
          (c.type_name != t.type_name
            && not (contains d.lifecycle.allowed_predecessor_types t.type_name))
          (linear_type j d && keys_differ j (key j c d) (key j t d))
      → validate_edge j c (some t) d ≡ ok tt
  unfolding validate_edge
  validate_edge-tests c t d (a, b, n, p, k) = rw (a, b, n, p, k) refl

  keys-agree :
      (c t : StoredRecord Value) (d : TypeDefinition Value) (e : Entry Value)
      → (c.type_name != t.type_name
          && not (contains d.lifecycle.allowed_predecessor_types t.type_name))
        ≡ false
      → linear_type j d ≡ true
      → ((linear_type j d && accepts j c.type_name d t.type_name) ≡ true
          → lookup c.type_name e.keys ≡ key j t d)
      → (linear_type j d && keys_differ j (key j c d) (lookup c.type_name e.keys)) ≡ false
      → (linear_type j d && keys_differ j (key j c d) (key j t d)) ≡ false
  unfolding accepts
  keys-agree c t d e typed p held k = rw (← held (rw p (ground arith))) k

  pub edge :
      (c : StoredRecord Value) (d : TypeDefinition Value) (td : Option (TypeDefinition Value))
      (id : ℕ) (e : Entry Value) (t : StoredRecord Value)
      → check_target j c d td (some (id, e)) ≡ ok tt
      → id ≡ t.id
      → e.type_name ≡ t.type_name
      → e.namespace ≡ t.namespace
      → ((linear_type j d && accepts j c.type_name d t.type_name) ≡ true
          → lookup c.type_name e.keys ≡ key j t d)
      → (validate_edge j c (some t) d ≡ ok tt) × (append_only_target j td ≡ false)
  edge c d td id e t h same ty ns held =
      let (tests, open') = check_target-tests c d td id e h in
      let typed = rw ty at tests.3 in
      let keyed : (linear_type j d && keys_differ j (key j c d) (key j t d)) ≡ false =
        elim (Bool-cases (linear_type j d)) [
          | inl p ↦ keys-agree c t d e typed p held tests.4
          | inr p ↦ rw p refl
        ] in
      (
        validate_edge-tests c t d (rw same at tests.0, tests.1, rw ns at tests.2, typed, keyed),
        open',
      )
