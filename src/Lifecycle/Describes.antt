-- ===== src/Lifecycle/Describes.antt =====
-- src/record/lifecycle/state.rs: the state says of the ledger what the rules read.
use mathlib.Core.List.{append-nil, append_assoc, map-append}
use mathlib.Core.Path.{subst}
use equill.Base.{
  ℕ, String, ◌≡◌, refl, ◌∙◌, inl, inr, Bool, false, ◌||◌, Option, none, some, List, [], ◌∷◌, ◌++◌,
  ◌==◌, nat_eq, contains, map, Unique, Unique-middle, lookup, insert_absent, arith,
}
use equill.Kernel.Error.{Result, ok, Result-cases, ok-injective, >>=-eq-ok}
use equill.Json.{Json}
use equill.Record.{StoredRecord, TypeDefinition}
use equill.Lifecycle.State.{
  Entry, LifecycleState, empty, keys_of, record_into, record_all, from_records, add_target,
}

module _ (j : Json) where
  open j use {Value}

  abbrev pub ids : List (StoredRecord Value) → List ℕ
  ids = map (λ r. r.id)

  abbrev add_to : Option ℕ → List ℕ → List ℕ
  add_to none ids = ids
  add_to (some id) ids = id ∷ ids

  -- the ids that some record supersedes
  abbrev pub targets : List (StoredRecord Value) → List ℕ
  targets [] = []
  targets (r ∷ rs) = add_to r.supersedes (targets rs)

  -- `supersedes == Some(id)`
  abbrev pub hits : Option ℕ → ℕ → Bool
  hits none id = false
  hits (some t) id = t == id

  pub targets-snoc :
      (rs : List (StoredRecord Value)) (r : StoredRecord Value) (id : ℕ)
      → contains (targets (rs ++ r ∷ [])) id ≡ (contains (targets rs) id || hits r.supersedes id)
  unfolding contains
  targets-snoc [] r id = ground arith
  targets-snoc (x ∷ rs) r id = ground (arith, targets-snoc rs r id)

  contains-add_target :
      (o : Option ℕ) (s : List ℕ) (id : ℕ)
      → contains (add_target o s) id ≡ (contains s id || hits o id)
  unfolding contains
  contains-add_target none s id = ground arith
  contains-add_target (some t) s id = ground arith

  module _ (claiming : List (String × TypeDefinition Value)) where
    -- an entry holds what the rules read of a record
    pub record Holds (e : ℕ × Entry Value) (r : StoredRecord Value) : Type 0 where
      pub id : e.0 ≡ r.id
      pub type_name : e.1.type_name ≡ r.type_name
      pub namespace : e.1.namespace ≡ r.namespace
      pub supersedes : e.1.supersedes ≡ r.supersedes
      pub keys : e.1.keys ≡ keys_of j r claiming

    abbrev pub Matches : List (ℕ × Entry Value) → List (StoredRecord Value) → Type 0
    Matches [] [] = Unit
    Matches (e ∷ es) (r ∷ rs) = Holds e r × Matches es rs
    Matches _ _ = ⊥

    pub record Describes (state : LifecycleState Value) (rs : List (StoredRecord Value))
        : Type 0 where
      pub entries : Matches state.entries rs
      pub superseded : (id : ℕ) → contains state.superseded id ≡ contains (targets rs) id

    Matches-snoc :
        (es : List (ℕ × Entry Value)) (rs : List (StoredRecord Value)) (e : ℕ × Entry Value)
        (r : StoredRecord Value)
        → Matches es rs
        → Holds e r
        → Matches (es ++ e ∷ []) (rs ++ r ∷ [])
    Matches-snoc [] [] e r m h = (h, tt)
    Matches-snoc (e' ∷ es) (r' ∷ rs) e r m h = (m.0, Matches-snoc es rs e r m.1 h)
    Matches-snoc [] (r' ∷ rs) e r m h = absurd m
    Matches-snoc (e' ∷ es) [] e r m h = absurd m

    -- An id that no record has, no entry has.
    Matches-absent :
        (es : List (ℕ × Entry Value)) (rs : List (StoredRecord Value)) (id : ℕ)
        → Matches es rs
        → contains (ids rs) id ≡ false
        → lookup id es ≡ none
    unfolding lookup contains
    Matches-absent [] [] id m h = refl
    Matches-absent (e ∷ es) (r ∷ rs) id m h = ground (arith, Matches-absent es rs id m.1)
    Matches-absent [] (r ∷ rs) id m h = absurd m
    Matches-absent (e ∷ es) [] id m h = absurd m

    -- What one more record adds to the state describes one more record.
    pub record_into-Describes :
        (digest : StoredRecord Value → Result String) (state next : LifecycleState Value)
        (rs : List (StoredRecord Value)) (r : StoredRecord Value)
        → Describes state rs
        → contains (ids rs) r.id ≡ false
        → record_into j digest state r (keys_of j r claiming) ≡ ok next
        → Describes next (rs ++ r ∷ [])
    unfolding record_into
    record_into-Describes digest state next rs r d fresh done = elim (Result-cases (digest r)) [
      | inl (sha, e) ↦
          let n = ok-injective (rw e at done) in
          subst (λ s. Describes s (rs ++ r ∷ [])) n
            (record {
              entries =
                  rw
                    (insert_absent r.id _ state.entries
                      (Matches-absent state.entries rs r.id d.entries fresh))
                    (Matches-snoc state.entries rs _ r d.entries (record {
                      id = refl;
                      type_name = refl;
                      namespace = refl;
                      supersedes = refl;
                      keys = refl;
                    }));
              superseded = λ id.
                  contains-add_target r.supersedes state.superseded id
                  ∙ (rw (d.superseded id, targets-snoc rs r id) refl);
            })
      | inr (x, e) ↦ let bad = rw e at done in cc
    ]

    record_all-Describes :
        (digest : StoredRecord Value → Result String) (state next : LifecycleState Value)
        (rs more : List (StoredRecord Value))
        → Describes state rs
        → Unique (ids (rs ++ more))
        → record_all j digest state more claiming ≡ ok next
        → Describes next (rs ++ more)
    unfolding record_all
    record_all-Describes digest state next rs [] d u done =
        rw append-nil (subst (λ s. Describes s rs) (ok-injective done) d)
    record_all-Describes digest state next rs (r ∷ more) d u done =
        let (mid, step, rest) =
          >>=-eq-ok (record_into j digest state r (keys_of j r claiming))
            (λ s. record_all j digest s more claiming) done in
        rw (← append_assoc rs (r ∷ []) more) (
          record_all-Describes digest mid next (rs ++ r ∷ []) more
            (record_into-Describes digest state mid rs r d
              (Unique-middle r.id (ids rs) (ids more) (rw map-append at u)) step)
            (rw (append_assoc rs (r ∷ []) more) u) rest)

    -- The state that is built from a ledger with distinct ids has one entry for each record, in
    -- order, with its type, namespace, target and lifecycle keys, and its superseded set holds exactly
    -- the records' targets.
    pub from_records-Describes :
        (digest : StoredRecord Value → Result String) (rs : List (StoredRecord Value))
        (state : LifecycleState Value)
        → Unique (ids rs)
        → from_records j digest rs claiming ≡ ok state
        → Describes state rs
    unfolding from_records empty
    from_records-Describes digest rs state u done =
        record_all-Describes digest (empty j) state [] rs
          (record { entries = tt; superseded = λ id. refl }) u done
