-- ===== src/Lifecycle/Registry.antt =====
-- src/record/lifecycle/mod.rs: the types that the store has registered, and the keys that a record
-- presents to them.
use equill.Base.{
  String, ◌≡◌, refl, ap, inl, inr, true, false, Option, none, some, List, [], ◌∷◌, ◌==◌, string_eq,
  contains, Unique, lookup, lookup-insert, arith, eq_iff, Bool-cases, ==-refl, map, lookup_absent,
  ◌∙◌,
}
use mathlib.Core.Option.{some-injective}
use equill.Kernel.Error.{Result, ok, err, Result-cases}
use equill.Json.{Json}
use equill.Record.{StoredRecord, TypeDefinition}
use equill.Lifecycle.State.{claimed_key, add_key, keys_from, keys_of}

module _ (j : Json) where
  open j use {Value}

  abbrev pub add_type :
      String
      → Result (TypeDefinition Value)
      → List (String × TypeDefinition Value)
      → List (String × TypeDefinition Value)
  add_type name (ok d) found = (name, d) ∷ found
  add_type name (err e) found = found

  -- `names` are the stems of the files in `registry/types`, and `load` is `schema::load`.
  unfoldable pub registered_types :
      (String → Result (TypeDefinition Value)) → List String → List (String × TypeDefinition Value)
  registered_types load [] = []
  registered_types load (name ∷ names) = add_type name (load name) (registered_types load names)

  -- A type that loads is found under its name.
  pub lookup-registered_types :
      (load : String → Result (TypeDefinition Value)) (names : List String) (name : String)
      (d : TypeDefinition Value)
      → load name ≡ ok d
      → contains names name ≡ true
      → lookup name (registered_types load names) ≡ some d
  unfolding registered_types lookup contains
  lookup-registered_types load [] name d l h = absurd (ground arith)
  lookup-registered_types load (n ∷ names) name d l h = elim (Bool-cases (n == name)) [
    | inl p ↦ rw (ap load ((eq_iff n name).0 p) ∙ l, add_type) (unfold lookup in rw p refl)
    | inr p ↦
        let ih = lookup-registered_types load names name d l (rw p at h) in
        elim (Result-cases (load n)) [
          | inl (d', e) ↦ rw (e, add_type) (rw p ih)
          | inr (x, e) ↦ rw (e, add_type) ih
        ]
  ]

  absent-registered_types :
      (load : String → Result (TypeDefinition Value)) (names : List String) (name : String)
      → contains names name ≡ false
      → contains (map (λ c. c.0) (registered_types load names)) name ≡ false
  unfolding registered_types contains
  absent-registered_types load [] name h = refl
  absent-registered_types load (n ∷ names) name h =
      let ih = absent-registered_types load names name (ground arith) in
      elim (Result-cases (load n)) [
        | inl (d, e) ↦ rw (e, add_type) (ground (arith, ih))
        | inr (x, e) ↦ rw (e, add_type) ih
      ]

  -- No name is registered twice.
  pub registered_types-Unique :
      (load : String → Result (TypeDefinition Value)) (names : List String)
      → Unique names
      → Unique (map (λ c. c.0) (registered_types load names))
  unfolding registered_types
  registered_types-Unique load [] u = tt
  registered_types-Unique load (n ∷ names) u =
      let ih = registered_types-Unique load names u.1 in
      elim (Result-cases (load n)) [
        | inl (d, e) ↦ rw (e, add_type) (absent-registered_types load names n u.0, ih)
        | inr (x, e) ↦ rw (e, add_type) ih
      ]

  lookup-add_key_ne :
      (n name : String) (o : Option Value) (keys : List (String × Value))
      → (n == name) ≡ false
      → lookup name (add_key j n o keys) ≡ lookup name keys
  lookup-add_key_ne n name none keys h = refl
  lookup-add_key_ne n name (some v) keys h = rw lookup-insert (rw h refl)

  lookup-add_key_self :
      (name : String) (o : Option Value) (keys : List (String × Value))
      → lookup name keys ≡ none
      → lookup name (add_key j name o keys) ≡ o
  lookup-add_key_self name none keys h = h
  lookup-add_key_self name (some v) keys h = rw lookup-insert (rw (==-refl name) refl)

  -- Filing the keys of further types changes nothing under a name that is none of them.
  lookup-keys_from_absent :
      (r : StoredRecord Value) (name : String) (keys : List (String × Value))
      (claiming : List (String × TypeDefinition Value))
      → lookup name claiming ≡ none
      → lookup name (keys_from j r keys claiming) ≡ lookup name keys
  unfolding keys_from lookup
  lookup-keys_from_absent r name keys [] h = refl
  lookup-keys_from_absent r name keys ((n, d) ∷ claiming) h = elim (Bool-cases (n == name)) [
    | inl p ↦ absurd (ground arith)
    | inr p ↦
        lookup-keys_from_absent r name (add_key j n (claimed_key j r (n, d)) keys) claiming
          (rw p at h)
        ∙ lookup-add_key_ne n name (claimed_key j r (n, d)) keys p
  ]

  lookup-keys_from :
      (r : StoredRecord Value) (name : String) (d : TypeDefinition Value)
      (keys : List (String × Value)) (claiming : List (String × TypeDefinition Value))
      → Unique (map (λ c. c.0) claiming)
      → lookup name keys ≡ none
      → lookup name claiming ≡ some d
      → lookup name (keys_from j r keys claiming) ≡ claimed_key j r (name, d)
  unfolding keys_from lookup
  lookup-keys_from r name d keys [] u n h = absurd (ground arith)
  lookup-keys_from r name d keys ((m, e) ∷ claiming) u n h = elim (Bool-cases (m == name)) [
    | inl p ↦
        let q = (eq_iff m name).0 p in
        let held : some e ≡ some d = rw p at h in
        let missing = lookup_absent m claiming u.0 in
        let stored : lookup m (keys_from j r (add_key j m (claimed_key j r (m, e)) keys) claiming)
            ≡ claimed_key j r (m, e) =
          lookup-keys_from_absent r m (add_key j m (claimed_key j r (m, e)) keys) claiming missing
          ∙ lookup-add_key_self m (claimed_key j r (m, e)) keys (rw q n) in
        rw (← q, ← some-injective e d held) stored
    | inr p ↦
        lookup-keys_from r name d (add_key j m (claimed_key j r (m, e)) keys) claiming u.1
          (lookup-add_key_ne m name (claimed_key j r (m, e)) keys p ∙ n) (rw p at h)
  ]

  -- The key that a record's entry holds for a registered type is its key under that type's pointer.
  pub lookup-keys_of :
      (r : StoredRecord Value) (name : String) (d : TypeDefinition Value)
      (claiming : List (String × TypeDefinition Value))
      → Unique (map (λ c. c.0) claiming)
      → lookup name claiming ≡ some d
      → lookup name (keys_of j r claiming) ≡ claimed_key j r (name, d)
  unfolding keys_of lookup
  lookup-keys_of r name d claiming u h = lookup-keys_from r name d [] claiming u refl h
