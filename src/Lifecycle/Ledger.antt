-- ===== src/Lifecycle/Ledger.antt =====
-- src/record/lifecycle/graph.rs: the maps of `validate_graph`, over a ledger with distinct ids and
-- over the same ledger with one more record.
use mathlib.Core.Path.{subst}
use mathlib.Core.List.{append-nil, append_assoc, map-append}
use equill.Base.{
  ℕ, String, ◌≡◌, refl, sym, ap, ◌∙◌, inl, inr, false, ◌||◌, Option, none, some, List, [], ◌∷◌,
  ◌++◌, ◌==◌, nat_eq, string_eq, contains, map, Unique, Unique-middle, lookup, insert,
  lookup-insert, insert_absent, lookup_absent, Elem, arith, eq_iff, if◌then◌else◌, Bool-cases,
  Option-cases,
}
use equill.Kernel.Error.{Result, ok, ◌>>=◌, >>=-eq-ok, ok-injective}
use equill.Json.{Json}
use equill.Record.{StoredRecord, TypeDefinition}
use equill.Lifecycle.Describes.{ids, targets, hits}
use equill.Lifecycle.Lookup.{pairs}
use equill.Lifecycle.Graph.{collect, add_definition, load_all, add_child}

module _ (j : Json) where
  open j use {Value}

  abbrev pub Rows : Type 0
  Rows = List (StoredRecord Value)

  map_fst-pairs : (rs : Rows) → map (λ p. p.0) (pairs j rs) ≡ ids j rs
  map_fst-pairs [] = refl
  map_fst-pairs (r ∷ rs) = ap (◌∷◌ r.id) (map_fst-pairs rs)

  -- No record has the id: the map has no entry.
  pub lookup-pairs_absent :
      (rs : Rows) (id : ℕ) → contains (ids j rs) id ≡ false → lookup id (pairs j rs) ≡ none
  lookup-pairs_absent rs id h = lookup_absent id (pairs j rs) (rw (map_fst-pairs rs) h)

  -- What the map finds is a record of the ledger with the id.
  pub lookup-pairs :
      (rs : Rows) (id : ℕ) (r : StoredRecord Value)
      → lookup id (pairs j rs) ≡ some r
      → (r.id ≡ id) × Elem r rs
  unfolding lookup
  lookup-pairs [] id r h = absurd (ground arith)
  lookup-pairs (x ∷ rs) id r h = elim (Bool-cases (x.id == id)) [
    | inl p ↦ let q : some x ≡ some r = rw p at h in (ground arith, inl (ground arith))
    | inr p ↦ let (q, place) = lookup-pairs rs id r (rw p at h) in (q, inr place)
  ]

  collect-append :
      (m : List (ℕ × StoredRecord Value)) (rs : Rows)
      → Unique (map (λ p. p.0) m ++ ids j rs)
      → collect j m rs ≡ m ++ pairs j rs
  unfolding collect
  collect-append m [] u = sym (append-nil m)
  collect-append m (r ∷ rs) u =
      let fresh = lookup_absent r.id m (Unique-middle r.id (map (λ p. p.0) m) (ids j rs) u) in
      rw (insert_absent r.id r m fresh) (
        collect-append (m ++ (r.id, r) ∷ []) rs (rw (map-append, append_assoc) u)
        ∙ append_assoc m ((r.id, r) ∷ []) (pairs j rs))

  -- With distinct ids the map is the ledger.
  pub collect-pairs : (rs : Rows) → Unique (ids j rs) → collect j [] rs ≡ pairs j rs
  collect-pairs rs u = collect-append [] rs u

  module _ (load : String → Result (TypeDefinition Value)) where
    abbrev pub Extends :
        List (String × TypeDefinition Value) → List (String × TypeDefinition Value) → Type 0
    Extends m n =
        (name : String) (d : TypeDefinition Value) → lookup name m ≡ some d → lookup name n ≡ some d

    -- what the map holds, the registry loads
    abbrev pub IsLoaded : List (String × TypeDefinition Value) → Type 0
    IsLoaded m =
        (name : String) (d : TypeDefinition Value) → lookup name m ≡ some d → load name ≡ ok d

    abbrev Added :
        String
        → List (String × TypeDefinition Value)
        → List (String × TypeDefinition Value)
        → Type 0
    Added name m n =
        Extends m n × IsLoaded n × ((d : TypeDefinition Value) × (lookup name n ≡ some d))

    insert-Added :
        (name : String) (d : TypeDefinition Value) (m : List (String × TypeDefinition Value))
        → IsLoaded m
        → lookup name m ≡ none
        → load name ≡ ok d
        → Added name m (insert name d m)
    insert-Added name d m known absent l = (
      λ q x h. rw lookup-insert (elim (Bool-cases (name == q)) [
        | inl p ↦ let same = ap (λ (s : String). lookup s m) ((eq_iff name q).0 p) in cc
        | inr p ↦ rw p h
      ]),
      λ q x h.
          let k : (if name == q then some d else lookup q m) ≡ some x = rw lookup-insert at h in
          elim (Bool-cases (name == q)) [
            | inl p ↦
                let held : some d ≡ some x = rw p at k in
                ap load (sym ((eq_iff name q).0 p)) ∙ l ∙ ground (arith, held)
            | inr p ↦ known q x (rw p at k)
          ],
      (d, lookup-insert name name d m ∙ rw ((eq_iff name name).1 refl) refl),
    )

    pub add_definition_lem :
        (name : String) (m n : List (String × TypeDefinition Value))
        → IsLoaded m
        → add_definition j load name m (lookup name m) ≡ ok n
        → Added name m n
    unfolding add_definition
    add_definition_lem name m n known h = elim (Option-cases (lookup name m)) [
      | inl absent ↦
          let (d, l, k) = >>=-eq-ok (load name) (λ d. ok (insert name d m)) (rw absent at h) in
          subst (Added name m) (ok-injective k) (insert-Added name d m known absent l)
      | inr (d, held) ↦
          subst (Added name m) (ok-injective (rw held at h)) (λ q x k. k, known, (d, held))
    ]

    pub load_all_lem :
        (m n : List (String × TypeDefinition Value)) (rs : Rows)
        → IsLoaded m
        → load_all j load m rs ≡ ok n
        → Extends m n × IsLoaded n
    unfolding load_all
    load_all_lem m n [] known h =
        subst (λ n. Extends m n × IsLoaded n) (ok-injective h) (λ q x k. k, known)
    load_all_lem m n (r ∷ rs) known h =
        let (mid, step, rest) =
          >>=-eq-ok (add_definition j load r.type_name m (lookup r.type_name m))
            (λ s. load_all j load s rs) h in
        let (grow, sound, _) = add_definition_lem r.type_name m mid known step in
        let (grow', sound') = load_all_lem mid n rs sound rest in
        (λ q x k. grow' q x (grow q x k), sound')

    pub load_all-snoc :
        (m n : List (String × TypeDefinition Value)) (rs : Rows) (c : StoredRecord Value)
        → load_all j load m rs ≡ ok n
        → load_all j load m (rs ++ c ∷ [])
          ≡ (add_definition j load c.type_name n (lookup c.type_name n) >>= λ k. ok k)
    unfolding load_all
    load_all-snoc m n [] c h = rw (ok-injective h) refl
    load_all-snoc m n (r ∷ rs) c h =
        let (mid, step, rest) =
          >>=-eq-ok (add_definition j load r.type_name m (lookup r.type_name m))
            (λ s. load_all j load s rs) h in
        rw step (load_all-snoc mid n rs c rest)

  -- the children that the loop has counted, after a ledger whose edges are all accepted
  abbrev pub children : List ℕ → Rows → List ℕ
  children acc [] = acc
  children acc (r ∷ rs) = children (add_child j r.supersedes acc) rs

  pub children-snoc :
      (acc : List ℕ) (rs : Rows) (c : StoredRecord Value)
      → children acc (rs ++ c ∷ []) ≡ add_child j c.supersedes (children acc rs)
  children-snoc acc [] c = refl
  children-snoc acc (r ∷ rs) c = children-snoc (add_child j r.supersedes acc) rs c

  contains-add_child :
      (o : Option ℕ) (acc : List ℕ) (id : ℕ)
      → contains (add_child j o acc) id ≡ (hits j o id || contains acc id)
  unfolding contains
  contains-add_child none acc id = refl
  contains-add_child (some t) acc id = refl

  -- The ids with a child are those that some record supersedes.
  pub contains-children :
      (acc : List ℕ) (rs : Rows) (id : ℕ)
      → contains (children acc rs) id ≡ (contains acc id || contains (targets j rs) id)
  unfolding contains
  contains-children acc [] id = ground arith
  contains-children acc (r ∷ rs) id =
      contains-children (add_child j r.supersedes acc) rs id ∙ ground arith

  pub contains-children_nil :
      (rs : Rows) (id : ℕ) → contains (children [] rs) id ≡ contains (targets j rs) id
  unfolding contains
  contains-children_nil rs id = contains-children [] rs id
