-- ===== src/Lifecycle/Sound.antt =====
-- The write path keeps the ledger one that a canonical read accepts.
use mathlib.Core.Path.{subst}
use equill.Base.{
  ℕ, suc, String, ◌≡◌, ◌≢◌, refl, sym, ap, ◌∙◌, true, false, Option, none, some, List, [], ◌∷◌,
  ◌++◌, nat_eq, string_eq, contains, map, lookup, lookup-append_present, Elem, Unique, All_at,
  All-tabulate, length, arith, eq_iff,
}
use equill.Kernel.Error.{Result, ok, ok-injective}
use equill.Json.{Json}
use equill.Record.{StoredRecord, TypeDefinition}
use equill.Lifecycle.Rules.{key, linear_type, eligible, accepts}
use equill.Lifecycle.State.{LifecycleState, head}
use equill.Lifecycle.Registry.{registered_types, registered_types-Unique, lookup-registered_types}
use equill.Lifecycle.Describes.{ids, Describes}
use equill.Lifecycle.Lookup.{pairs, no_other_head}
use equill.Lifecycle.Ledger.{
  Rows, Extends, IsLoaded, lookup-pairs, add_definition_lem, load_all_lem, load_all-snoc, children,
  children-snoc, contains-children_nil,
}
use equill.Lifecycle.Checks.{Passes, check_record-extend}
use equill.Lifecycle.Candidate.{Accepted, linear_key, linear_head, no_conflict}
use equill.Lifecycle.Step.{Parent, root, child, keyed, Parent-Passes}
use equill.Lifecycle.Added.{unshared, only_child, contains-add, Distinct-add}
use equill.Lifecycle.Cycles.{walk-root, cycles-grow, walk-new, walk_of_cycles, cycles-append}
use equill.Lifecycle.Heads.{Linear}
use equill.Lifecycle.Graph.{add_child, counted, walk}
use equill.Lifecycle.Valid.{
  absent-empty, IsValid, pairs-snoc, add_definition-ok, length-snoc, All-snoc, Fits,
}

module _ (j : Json) (load : String → Result (TypeDefinition j.Value)) where
  open j use {Value}

  counted-parts :
      (ch : List ℕ) (r h : StoredRecord Value) (e : TypeDefinition Value)
      → counted j ch r e h ≡ true
      → (contains ch h.id ≡ false)
        × (r.namespace ≡ h.namespace)
        × (accepts j r.type_name e h.type_name ≡ true)
  unfolding counted eligible
  counted-parts ch r h e k =
      (ground arith, ground (arith, eq_iff r.namespace h.namespace), ground arith)

  eligible-parts :
      (r h : StoredRecord Value) (e : TypeDefinition Value)
      → eligible j r h e ≡ true
      → (r.namespace ≡ h.namespace) × (accepts j r.type_name e h.type_name ≡ true)
  unfolding eligible
  eligible-parts r h e k = (ground (arith, eq_iff r.namespace h.namespace), ground arith)

  add_child-hit :
      (o : Option ℕ) (ch : List ℕ) (id : ℕ) → o ≡ some id → contains (add_child j o ch) id ≡ true
  unfolding contains
  add_child-hit none ch id h = cc
  add_child-hit (some t) ch id h = ground arith

  module _ (names : List String) (state : LifecycleState Value) (rs : Rows j)
      (c : StoredRecord Value) (d : TypeDefinition Value) (unique : Unique names)
      (complete : (name : String) (e : TypeDefinition Value)
        → load name ≡ ok e
        → contains names name ≡ true)
      (own : load c.type_name ≡ ok d) (distinct_ids : Unique (ids j rs))
      (fresh : contains (ids j rs) c.id ≡ false)
      (described : Describes j (registered_types j load names) state rs)
      (td : Option (TypeDefinition Value))
      (taken : Accepted j state c d td (registered_types j load names))
      (parent : Parent j load state rs (registered_types j load names) d c)
      (fits : Fits j load rs c d) (valid : IsValid j load rs) where
    registered :
        (name : String) (e : TypeDefinition Value)
        → load name ≡ ok e
        → lookup name (registered_types j load names) ≡ some e
    registered name e l = lookup-registered_types j load names name e l (complete name e l)

    claiming-Unique : Unique (map (λ p. p.0) (registered_types j load names))
    claiming-Unique = registered_types-Unique j load names unique

    known : IsLoaded j load valid.definitions
    known =
        (load_all_lem j load [] valid.definitions rs (λ q x h. absent-empty q x h) valid.loaded).1

    -- The key of the candidate is no other head's.
    apart :
        (r h : StoredRecord Value) (e : TypeDefinition Value) (k : Value)
        → load r.type_name ≡ ok e
        → linear_type j e ≡ true
        → Elem h rs
        → counted j (add_child j c.supersedes (children j [] rs)) r e h ≡ true
        → eligible j r c e ≡ true
        → key j h e ≡ some k
        → key j c e ≢ some k
    apart r h e k l p place live takes hk ck =
        let ch = add_child j c.supersedes (children j [] rs) in
        let (free, near, counts) = counted-parts ch r h e live in
        let (here, claims') = eligible-parts r c e takes in
        let held = registered r.type_name e l in
        let conflict =
          no_conflict j state c d td (registered_types j load names) taken r.type_name e k
            (registered c.type_name d own) held p claims' ck in
        let target =
          no_other_head j (registered_types j load names) state rs h r.type_name e c.namespace k
            c.supersedes described claiming-Unique held conflict place
            (sym (contains-children_nil j rs h.id)
              ∙ contains-add j c.supersedes (children j [] rs) h.id free)
            (sym near ∙ here) (rw p counts) hk in
        let hit = add_child-hit c.supersedes (children j [] rs) h.id target in
        let bad = sym hit ∙ free in cc

    defs-known :
        (m : List (String × TypeDefinition Value))
        → IsLoaded j load m
        → (name : String) (e f : TypeDefinition Value) → lookup name m ≡ some e
        → load name ≡ ok f
        → e ≡ f
    defs-known m sound name e f held l = ok-injective (sym (sound name e held) ∙ l)

    -- Each linear record of the ledger keeps its rules.
    Linear-old :
        (m : List (String × TypeDefinition Value)) (r : StoredRecord Value)
        → Extends j load valid.definitions m
        → Elem r rs
        → Linear j rs valid.definitions (children j [] rs) r
        → Linear j (rs ++ c ∷ []) m (add_child j c.supersedes (children j [] rs)) r
    Linear-old m r more place (e, held, rules) = (
      e,
      more r.type_name e held,
      λ p.
          let l = known r.type_name e held in
          let (single, heads) = rules p in
          (
            unshared j (children j [] rs) r.supersedes c.supersedes single
                (λ t s. fits.alone r e t place l p s),
            Distinct-add j rs (children j [] rs) r c e heads
                (λ h k at live takes. apart r h e k l p at live takes),
          ),
    )

    head-free : (t : ℕ) → head j state t ≡ true → contains state.superseded t ≡ false
    unfolding head
    head-free t h = ground arith

    Linear-new :
        (m : List (String × TypeDefinition Value))
        → lookup c.type_name m ≡ some d
        → Linear j (rs ++ c ∷ []) m (add_child j c.supersedes (children j [] rs)) c
    Linear-new m held = (
      d,
      held,
      λ p. (
        only_child j (children j [] rs) c.supersedes (λ t s.
            contains-children_nil j rs t
            ∙ sym (described.superseded t)
            ∙ head-free t (linear_head j state c d td (registered_types j load names) taken t p s)),
        Distinct-add j rs (children j [] rs) c c d (fits.distinct p)
            (λ h k at live takes. apart c h d k own p at live takes),
      ),
    )

    type-of :
        (m : List (String × TypeDefinition Value))
        → Extends j load valid.definitions m
        → (t : StoredRecord Value) (dt : TypeDefinition Value) → Elem t rs
        → load t.type_name ≡ ok dt
        → lookup t.type_name m ≡ some dt
    type-of m more t dt at l =
        let (e, held, rules) =
          All_at (Linear j rs valid.definitions (children j [] rs)) t rs valid.linear at in
        more t.type_name e held
        ∙ ap some (defs-known valid.definitions known t.type_name e dt held l)

    walk-candidate :
        Parent j load state rs (registered_types j load names) d c
        → walk j (suc (suc (length rs))) (pairs j rs ++ (c.id, c) ∷ []) [] c c.supersedes ≡ ok tt
    walk-candidate (root s) =
        walk-root j (pairs j rs ++ (c.id, c) ∷ []) (suc (suc (length rs))) c c.supersedes s
    walk-candidate (child t e s found place dt l open' ok') =
        subst (λ o. walk j (suc (suc (length rs))) (pairs j rs ++ (c.id, c) ∷ []) [] c o ≡ ok tt)
          (sym s)
          (walk-new j c t rs (suc (length rs)) fresh found place
            (walk_of_cycles j rs rs (suc (length rs)) t valid.acyclic place))

    -- The ledger with the candidate is valid again.
    pub next-IsValid : IsValid j load (rs ++ c ∷ [])
    next-IsValid =
        let (m, added) = add_definition-ok j load c.type_name d valid.definitions own in
        let (more, sound, (e, held)) =
          add_definition_lem j load c.type_name valid.definitions m known added in
        let here : lookup c.type_name m ≡ some d =
          held ∙ ap some (defs-known m sound c.type_name e d held own) in
        let grown = λ (id : ℕ) (s : StoredRecord Value) (h : lookup id (pairs j rs) ≡ some s).
          lookup-append_present id s (pairs j rs) ((c.id, c) ∷ []) h in
        record {
          definitions = m;
          loaded = load_all-snoc j load [] valid.definitions rs c valid.loaded ∙ rw added refl;
          passes = rw (pairs-snoc j load rs c) (
              All-snoc j load (Passes j (pairs j rs ++ (c.id, c) ∷ []) m) rs c
                (All-tabulate (Passes j (pairs j rs ++ (c.id, c) ∷ []) m) rs (λ r at.
                  (check_record-extend j (pairs j rs) (pairs j rs ++ (c.id, c) ∷ [])
                    valid.definitions m r r.supersedes
                    (λ id s h. (grown id s h, (lookup-pairs j rs id s h).0)) more
                    (All_at (Passes j (pairs j rs) valid.definitions) r rs valid.passes at)).0))
                (Parent-Passes j load state rs (registered_types j load names) d c
                  (pairs j rs ++ (c.id, c) ∷ []) m parent here grown
                  (λ t dt at l. type-of m more t dt at l)
                  (keyed j load c d
                    (linear_key j state c d td (registered_types j load names) taken))));
          acyclic =
              rw (pairs-snoc j load rs c, length-snoc j load rs c)
                (cycles-append j (pairs j rs ++ (c.id, c) ∷ []) (suc (suc (length rs))) rs c
                  (cycles-grow j c rs rs (suc (length rs)) fresh (λ r at. at) valid.acyclic)
                  (walk-candidate parent));
          linear = rw (children-snoc j [] rs c) (
              All-snoc j load
                (Linear j (rs ++ c ∷ []) m (add_child j c.supersedes (children j [] rs))) rs c
                (All-tabulate
                  (Linear j (rs ++ c ∷ []) m (add_child j c.supersedes (children j [] rs))) rs
                  (λ r at. Linear-old m r more at (
                    All_at (Linear j rs valid.definitions (children j [] rs)) r rs valid.linear
                      at)))
                (Linear-new m here));
        }
