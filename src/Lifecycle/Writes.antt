-- ===== src/Lifecycle/Writes.antt =====
-- src/record/writer/mod.rs and src/record/lifecycle: the write path against the canonical read.
use mathlib.Core.Path.{subst}
use equill.Base.{
  ℕ, suc, ◌+◌, ◌≤◌, String, ◌≡◌, ◌≢◌, refl, sym, ap, ◌∙◌, inl, inr, true, false, Option, none, some,
  List, [], ◌∷◌, ◌++◌, nat_eq, string_eq, contains, lookup, Elem, Elem-append_left, Unique, All_at,
  arith,
}
use equill.Kernel.Error.{Result, ok, >>=-eq-ok, ok-injective}
use equill.Json.{Json}
use equill.Record.{StoredRecord, TypeDefinition}
use equill.Lifecycle.Rules.{linear_type}
use equill.Lifecycle.State.{LifecycleState}
use equill.Lifecycle.Registry.{registered_types, registered_types-Unique, lookup-registered_types}
use equill.Lifecycle.Describes.{ids, targets, Describes}
use equill.Lifecycle.Writer.{validate_lifecycle, load_entry_type, entry_of}
use equill.Lifecycle.Candidate.{accepted}
use equill.Lifecycle.Step.{accepted-Parent}
use equill.Lifecycle.Ledger.{Rows, children, load_all_lem}
use equill.Lifecycle.Heads.{Linear}
use equill.Lifecycle.Graph.{validate_graph, add_child, count, shared_target}
use equill.Lifecycle.Sound.{next-IsValid}
use equill.Lifecycle.Valid.{IsValid-of_graph, graph_of_IsValid, Fits, Unique-ids_snoc}

nothing_held : {V : Type 0} (q : String) (x : V) → lookup q [] ≡ some x → ⊥
unfolding lookup
nothing_held q x h = cc

module _ (j : Json) (load : String → Result (TypeDefinition j.Value)) where
  open j use {Value}

  -- Take a ledger with distinct ids that `validate_graph` accepts, a state that describes it (for
  -- the registered types), and a candidate with a new id and a registered type. If no linear record
  -- has the candidate's target for its own, and the heads that the candidate's type counts, if it is
  -- linear, have distinct keys, then a candidate that the writer's compact check accepts leaves a
  -- ledger that `validate_graph` accepts.
  pub validate_lifecycle-validate_graph :
      (names : List String) (state : LifecycleState Value) (rs : Rows j) (c : StoredRecord Value)
      (d : TypeDefinition Value)
      → Unique names
      → ((name : String) (e : TypeDefinition Value) → load name ≡ ok e → contains names name ≡ true)
      → load c.type_name ≡ ok d
      → Unique (ids j rs)
      → contains (ids j rs) c.id ≡ false
      → Describes j (registered_types j load names) state rs
      → Fits j load rs c d
      → validate_graph j load rs ≡ ok tt
      → validate_lifecycle j load c d state (registered_types j load names) ≡ ok tt
      → validate_graph j load (rs ++ c ∷ []) ≡ ok tt
  unfolding validate_lifecycle
  validate_lifecycle-validate_graph names state rs c d unique complete own distinct fresh described
        fits valid h =
      let (td, loaded, check) =
        >>=-eq-ok (load_entry_type j load (entry_of j load state c.supersedes)) _ h in
      let taken = accepted j state c d td (registered_types j load names) check in
      let parent =
        accepted-Parent j load state rs (registered_types j load names) d c td c.supersedes
          taken.target described (registered_types-Unique j load names unique)
          (lookup-registered_types j load names c.type_name d own (complete c.type_name d own)) refl
          loaded taken.found taken.edge in
      graph_of_IsValid j load (rs ++ c ∷ []) (Unique-ids_snoc j load rs c distinct fresh) (
        next-IsValid j load names state rs c d unique complete own distinct fresh described td taken
          parent fits (IsValid-of_graph j load rs distinct valid))

  count-children :
      (t : ℕ) (acc : List ℕ) (rs : Rows j)
      → count j t (children j acc rs) ≡ count j t acc + count j t (targets j rs)
  unfolding count
  count-children t acc [] = omega arith
  count-children t acc (r ∷ rs) = count-children t (add_child j r.supersedes acc) rs ∙ ground arith

  count-targets :
      (t : ℕ) (rs : Rows j) (r : StoredRecord Value)
      → Elem r rs
      → r.supersedes ≡ some t
      → 1 ≤ count j t (targets j rs)
  unfolding count
  count-targets t [] r m s = elim m [ ]
  count-targets t (x ∷ rs) r (inl e) s =
      let s' = ap (λ (y : StoredRecord Value). y.supersedes) e ∙ s in ground arith
  count-targets t (x ∷ rs) r (inr m) s = ground (arith, count-targets t rs r m s)

  count-snoc :
      (t : ℕ) (rs : Rows j) (c : StoredRecord Value)
      → c.supersedes ≡ some t
      → count j t (targets j (rs ++ c ∷ [])) ≡ suc (count j t (targets j rs))
  unfolding count
  count-snoc t [] c s = ground arith
  count-snoc t (x ∷ rs) c s = ground (arith, count-snoc t rs c s)

  shared_target-count :
      (ch : List ℕ) (o : Option ℕ) (t : ℕ)
      → o ≡ some t
      → shared_target j ch o ≡ false
      → count j t ch ≡ 1
  shared_target-count ch none t e h = cc
  shared_target-count ch (some s) t e h = ground arith

  two_children : {a b d : ℕ} (t : ℕ) → a ≡ 1 → a ≡ count j t [] + b → b ≡ suc d → 1 ≤ d → ⊥
  unfolding count
  two_children t h k l n = omega arith

  -- A ledger with distinct ids is refused when its last record has the target of an earlier record
  -- of a linear type, whatever the last record's own type is.
  pub shared_target-refused :
      (rs : Rows j) (c r : StoredRecord Value) (e : TypeDefinition Value) (t : ℕ)
      → Unique (ids j (rs ++ c ∷ []))
      → Elem r rs
      → load r.type_name ≡ ok e
      → linear_type j e ≡ true
      → r.supersedes ≡ some t
      → c.supersedes ≡ some t
      → validate_graph j load (rs ++ c ∷ []) ≢ ok tt
  shared_target-refused rs c r e t u m l p s s' h =
      let v = IsValid-of_graph j load (rs ++ c ∷ []) u h in
      let (d, held, rules) =
        All_at (Linear j (rs ++ c ∷ []) v.definitions (children j [] (rs ++ c ∷ []))) r
          (rs ++ c ∷ []) v.linear (Elem-append_left r rs (c ∷ []) m) in
      let known =
        (load_all_lem j load [] v.definitions (rs ++ c ∷ []) (λ q x k. absurd (nothing_held q x k))
          v.loaded).1 in
      let same : e ≡ d = ok-injective (sym l ∙ known r.type_name d held) in
      let once =
        shared_target-count (children j [] (rs ++ c ∷ [])) r.supersedes t s
          (rules (subst (λ x. linear_type j x ≡ true) same p)).0 in
      two_children t once (count-children t [] (rs ++ c ∷ [])) (count-snoc t rs c s')
        (count-targets t rs r m s)
