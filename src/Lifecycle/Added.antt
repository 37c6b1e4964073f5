-- ===== src/Lifecycle/Added.antt =====
-- src/record/lifecycle/graph.rs: the linear rules for a ledger with one more record.
use mathlib.Core.List.{append-nil}
use equill.Base.{
  ℕ, ◌≡◌, ◌≢◌, refl, sym, ap, ◌∙◌, ◌⊎◌, inl, inr, Bool, true, false, Option, none, some, List, [],
  ◌∷◌, ◌++◌, ◌==◌, nat_eq, string_eq, contains, filter, filter-append, Elem, arith, eq_iff,
  if◌then◌else◌, Bool-cases,
}
use equill.Json.{Json}
use equill.Record.{StoredRecord, TypeDefinition}
use equill.Lifecycle.Rules.{key, eligible}
use equill.Lifecycle.Ledger.{Rows}
use equill.Lifecycle.Keys.{fewer, one_more}
use equill.Lifecycle.Heads.{Distinct}
use equill.Lifecycle.Graph.{add_child, count, shared_target, counted, seen_key}

Elem-of_filter :
    {A : Type 0} (test : A → Bool) (xs : List A) (x : A)
    → Elem x (filter test xs)
    → Elem x xs × (test x ≡ true)
unfolding filter
Elem-of_filter test [] x m = elim m [ ]
Elem-of_filter test (y ∷ xs) x m = elim (Bool-cases (test y)) [
  | inl p ↦
      let m' : (y ≡ x) ⊎ Elem x (filter test xs) = rw p at m in
      elim m' [
        | inl e ↦ (inl e, ap test (sym e) ∙ p)
        | inr n ↦ let (q, t) = Elem-of_filter test xs x n in (inr q, t)
      ]
  | inr p ↦ let (q, t) = Elem-of_filter test xs x (rw p at m) in (inr q, t)
]

filter_one :
    {A : Type 0} (test : A → Bool) (x : A) → filter test (x ∷ []) ≡ (if test x then x ∷ [] else [])
unfolding filter
filter_one test x = refl

module _ (j : Json) where
  open j use {Value, to_string, to_string_injective}

  count_absent : (id : ℕ) (ch : List ℕ) → contains ch id ≡ false → count j id ch ≡ 0
  unfolding count contains
  count_absent id [] h = refl
  count_absent id (x ∷ ch) h = ground (arith, count_absent id ch)

  -- A record shares no target after an edge to another record, or none, is added.
  pub unshared :
      (ch : List ℕ) (o c : Option ℕ)
      → shared_target j ch o ≡ false
      → ((t : ℕ) → o ≡ some t → c ≢ some t)
      → shared_target j (add_child j c ch) o ≡ false
  unfolding count
  unshared ch none c h apart = refl
  unshared ch (some t) none h apart = h
  unshared ch (some t) (some s) h apart = let other = apart t refl in ground arith

  -- A record that supersedes a head is its only child.
  pub only_child :
      (ch : List ℕ) (c : Option ℕ)
      → ((t : ℕ) → c ≡ some t → contains ch t ≡ false)
      → shared_target j (add_child j c ch) c ≡ false
  unfolding count
  only_child ch none h = refl
  only_child ch (some t) h = rw (count_absent t ch (h t refl)) (ground arith)

  pub contains-add :
      (c : Option ℕ) (ch : List ℕ) (id : ℕ)
      → contains (add_child j c ch) id ≡ false
      → contains ch id ≡ false
  unfolding contains
  contains-add none ch id h = h
  contains-add (some t) ch id h = ground arith

  counted-fewer :
      (ch : List ℕ) (o : Option ℕ) (r x : StoredRecord Value) (d : TypeDefinition Value)
      → counted j (add_child j o ch) r d x ≡ true
      → counted j ch r d x ≡ true
  unfolding counted
  counted-fewer ch o r x d h = ground (arith, contains-add o ch x.id)

  counted-eligible :
      (ch : List ℕ) (r x : StoredRecord Value) (d : TypeDefinition Value)
      → counted j ch r d x ≡ true
      → eligible j r x d ≡ true
  unfolding counted
  counted-eligible ch r x d h = ground arith

  unseen : (o : Option Value) → seen_key j [] o ≡ false
  unfolding contains
  unseen none = refl
  unseen (some v) = refl

  different : (v w : Value) → v ≢ w → (to_string v == to_string w) ≡ false
  different v w ne = elim (Bool-cases (to_string v == to_string w)) [
    | inl p ↦ absurd (ne (to_string_injective v w ((eq_iff (to_string v) (to_string w)).0 p)))
    | inr p ↦ p
  ]

  -- The heads stay distinct if the new record's key, where its type counts it, is no other head's.
  pub Distinct-add :
      (rs : Rows j) (ch : List ℕ) (r c : StoredRecord Value) (d : TypeDefinition Value)
      → Distinct j rs ch r d
      → ((h : StoredRecord Value) (k : Value)
          → Elem h rs
          → counted j (add_child j c.supersedes ch) r d h ≡ true
          → eligible j r c d ≡ true
          → key j h d ≡ some k
          → key j c d ≢ some k)
      → Distinct j (rs ++ c ∷ []) (add_child j c.supersedes ch) r d
  Distinct-add rs ch r c d u apart =
      let old =
        fewer j d (counted j ch r d) (counted j (add_child j c.supersedes ch) r d) [] [] rs
          (λ x. counted-fewer ch c.supersedes r x d) (λ k h. h) u in
      rw
        (
          filter-append (counted j (add_child j c.supersedes ch) r d) rs (c ∷ []),
          filter_one (counted j (add_child j c.supersedes ch) r d) c,
        )
        (elim (Bool-cases (counted j (add_child j c.supersedes ch) r d c)) [
          | inl p ↦ rw p (
              one_more j d [] (filter (counted j (add_child j c.supersedes ch) r d) rs) c old
                (unseen (key j c d))
                (λ h m v w hv hw.
                  let (place, live) =
                    Elem-of_filter (counted j (add_child j c.supersedes ch) r d) rs h m in
                  different v w (λ e.
                    apart h v place live (counted-eligible (add_child j c.supersedes ch) r c d p) hv
                      (hw ∙ ap some (sym e)))))
          | inr p ↦ rw (p, append-nil (filter (counted j (add_child j c.supersedes ch) r d) rs)) old
        ])
