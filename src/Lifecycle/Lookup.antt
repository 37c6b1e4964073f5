-- ===== src/Lifecycle/Lookup.antt =====
-- What a check against the state says of the ledger that the state describes.
use mathlib.Core.Option.{some-injective}
use mathlib.Core.Path.{subst}
use equill.Base.{
  ℕ, String, ◌≡◌, refl, ap, sym, ◌∙◌, inl, inr, Bool, true, false, ◌&&◌, Option, none, some, List,
  [], ◌∷◌, ◌==◌, ◌!=◌, nat_eq, string_eq, contains, any, filter, map, Unique, lookup, Elem, arith,
  Bool-cases, eq_iff,
}
use equill.Json.{Json}
use equill.Record.{StoredRecord, TypeDefinition}
use equill.Lifecycle.Rules.{key, linear_type, accepts}
use equill.Lifecycle.State.{Entry, LifecycleState, claims, heads_claiming, claimed_key}
use equill.Lifecycle.Append.{other_head}
use equill.Lifecycle.Registry.{lookup-keys_of}
use equill.Lifecycle.Describes.{targets, Holds, Matches, Describes}

any_filtered :
    {A : Type 0} (f : ℕ → Bool) (g : A → ℕ) (p : A → Bool) (es : List A) (e : A)
    → any f (map g (filter p es)) ≡ false
    → Elem e es
    → p e ≡ true
    → f (g e) ≡ false
unfolding any filter
any_filtered f g p [] e n m h = elim m [ ]
any_filtered f g p (x ∷ es) e n (inl q) h = rw (← q) (ground (arith, ap p q))
any_filtered f g p (x ∷ es) e n (inr m) h = any_filtered f g p es e (ground arith) m h

other_head_excludes :
    (hs : List ℕ) (target : Option ℕ) (id : ℕ)
    → ((f : ℕ → Bool) → any f hs ≡ false → f id ≡ false)
    → other_head hs target ≡ false
    → target ≡ some id
unfolding other_head
other_head_excludes hs none id n h = let bad = n (λ _. true) h in cc
other_head_excludes hs (some t) id n h = let same = n (λ x. x != t) h in ground arith

module _ (j : Json) where
  open j use {Value}

  abbrev pub pairs : List (StoredRecord Value) → List (ℕ × StoredRecord Value)
  pairs = map (λ r. (r.id, r))

  module _ (claiming : List (String × TypeDefinition Value)) where
    lookup_first :
        (i id : ℕ) (r : StoredRecord Value) (ps : List (ℕ × StoredRecord Value))
        → i ≡ id
        → lookup id ((i, r) ∷ ps) ≡ some r
    unfolding lookup
    lookup_first i id r ps q = ground arith

    lookup_later :
        (i id : ℕ) (r : StoredRecord Value) (ps : List (ℕ × StoredRecord Value))
        → (i == id) ≡ false
        → lookup id ((i, r) ∷ ps) ≡ lookup id ps
    unfolding lookup
    lookup_later i id r ps q = rw q refl

    pub lookup-Matches :
        (es : List (ℕ × Entry Value)) (rs : List (StoredRecord Value)) (id : ℕ) (e : Entry Value)
        → Matches j claiming es rs
        → lookup id es ≡ some e
        → (r : StoredRecord Value) × (lookup id (pairs rs) ≡ some r)
          × Elem r rs
          × Holds j claiming (id, e) r
    unfolding lookup
    lookup-Matches [] [] id e m h = absurd (ground arith)
    lookup-Matches [] (r ∷ rs) id e m h = absurd m
    lookup-Matches (x ∷ es) [] id e m h = absurd m
    lookup-Matches ((i, x) ∷ es) (r ∷ rs) id e m h = elim (Bool-cases (i == id)) [
      | inl p ↦
          let q : i ≡ id = ground arith in
          let held : some x ≡ some e = rw p at h in
          let here =
            subst (λ k. Holds j claiming (k, e) r) q
              (subst (λ y. Holds j claiming (i, y) r) (some-injective x e held) m.0) in
          (r, lookup_first r.id id r (pairs rs) (sym m.0.id ∙ q), inl refl, here)
      | inr p ↦
          let (s, found, place, holds) = lookup-Matches es rs id e m.1 (rw p at h) in
          (s, lookup_later r.id id r (pairs rs) (ground (arith, m.0.id)) ∙ found, inr place, holds)
    ]

    Elem-Matches :
        (es : List (ℕ × Entry Value)) (rs : List (StoredRecord Value)) (r : StoredRecord Value)
        → Matches j claiming es rs
        → Elem r rs
        → (e : ℕ × Entry Value) × Elem e es × Holds j claiming e r
    Elem-Matches [] [] r m k = elim k [ ]
    Elem-Matches [] (x ∷ rs) r m k = absurd m
    Elem-Matches (e ∷ es) [] r m k = elim k [ ]
    Elem-Matches (e ∷ es) (x ∷ rs) r m (inl q) = (e, inl refl, subst (Holds j claiming e) q m.0)
    Elem-Matches (e ∷ es) (x ∷ rs) r m (inr k) =
        let (e', place, holds) = Elem-Matches es rs r m.1 k in (e', inr place, holds)

    -- A record's entry presents to a registered type the record's own key under its pointer.
    key-Holds :
        (e : ℕ × Entry Value) (r : StoredRecord Value) (name : String) (d : TypeDefinition Value)
        → Holds j claiming e r
        → Unique (map (λ c. c.0) claiming)
        → lookup name claiming ≡ some d
        → (linear_type j d && accepts j name d r.type_name) ≡ true
        → lookup name e.1.keys ≡ key j r d
    unfolding claimed_key
    key-Holds e r name d h u l a = rw h.keys (lookup-keys_of j r name d claiming u l ∙ rw a refl)

    claims-Holds :
        (state : LifecycleState Value) (e : ℕ × Entry Value) (name namespace : String) (k : Value)
        → contains state.superseded e.0 ≡ false
        → e.1.namespace ≡ namespace
        → lookup name e.1.keys ≡ some k
        → claims j state name namespace k e ≡ true
    unfolding claims
    claims-Holds state e name namespace k c ns h =
        rw (c, h) (ground (arith, eq_iff e.1.namespace namespace, j.beq_iff k k))

    -- A head that presents the key to the linear type is the one that the candidate replaces.
    pub no_other_head :
        (state : LifecycleState Value) (rs : List (StoredRecord Value)) (r : StoredRecord Value)
        (name : String) (d : TypeDefinition Value) (namespace : String) (k : Value)
        (target : Option ℕ)
        → Describes j claiming state rs
        → Unique (map (λ c. c.0) claiming)
        → lookup name claiming ≡ some d
        → other_head (heads_claiming j state name namespace k) target ≡ false
        → Elem r rs
        → contains (targets j rs) r.id ≡ false
        → r.namespace ≡ namespace
        → (linear_type j d && accepts j name d r.type_name) ≡ true
        → key j r d ≡ some k
        → target ≡ some r.id
    unfolding heads_claiming
    no_other_head state rs r name d namespace k target ds u l n place free ns a kk =
        let (e, at, holds) = Elem-Matches state.entries rs r ds.entries place in
        let held = key-Holds e r name d holds u l a in
        rw (← holds.id) (
          other_head_excludes (heads_claiming j state name namespace k) target e.0
            (λ f h.
              any_filtered f (λ x. x.0) (claims j state name namespace k) state.entries e h at
                (claims-Holds state e name namespace k (ds.superseded e.0 ∙ rw holds.id free)
                  (holds.namespace ∙ ns) (held ∙ kk)))
            n)
