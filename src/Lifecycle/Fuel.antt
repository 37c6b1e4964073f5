-- ===== src/Lifecycle/Fuel.antt =====
-- src/record/lifecycle/graph.rs: the loop of `reject_cycles` ends. Each step sees one more of the
-- ledger's ids, so as many steps as there are records, and one, suffice.
use equill.Base.{
  ℕ, zero, suc, ◌≤◌, ◌<◌, ◌≡◌, ◌≢◌, refl, inl, inr, ◌∙◌, true, false, Option, none, some, List, [],
  ◌∷◌, nat_eq, contains, length, lookup, Elem, arith, if◌then◌else◌, Bool-cases,
}
use equill.Kernel.Error.{panic, err, Result-cases}
use equill.Json.{Json}
use equill.Record.{StoredRecord}
use equill.Lifecycle.Describes.{ids}
use equill.Lifecycle.Lookup.{pairs}
use equill.Lifecycle.Ledger.{Rows, lookup-pairs}
use equill.Lifecycle.Cycles.{contains-ids}
use equill.Lifecycle.Graph.{walk, reject_cycles}

-- how many of `xs` are not yet seen
unseen : List ℕ → List ℕ → ℕ
unseen seen [] = 0
unseen seen (x ∷ xs) = let rest = unseen seen xs in if contains seen x then rest else suc rest

unseen-le : (y : ℕ) (seen xs : List ℕ) → unseen (y ∷ seen) xs ≤ unseen seen xs
unfolding unseen contains
unseen-le y seen [] = omega arith
unseen-le y seen (x ∷ xs) = ground (arith, unseen-le y seen xs)

unseen-lt :
    (y : ℕ) (seen xs : List ℕ)
    → contains seen y ≡ false
    → contains xs y ≡ true
    → unseen (y ∷ seen) xs < unseen seen xs
unfolding unseen contains
unseen-lt y seen [] n m = cc
unseen-lt y seen (x ∷ xs) n m = ground (arith, unseen-le y seen xs, unseen-lt y seen xs)

unseen-le-length : (seen xs : List ℕ) → unseen seen xs ≤ length xs
unfolding unseen
unseen-le-length seen [] = omega arith
unseen-le-length seen (x ∷ xs) = ground (arith, unseen-le-length seen xs)

module _ (j : Json) where
  open j use {Value}

  -- every record's target is a record, which the loop over the records has made sure of
  abbrev pub IsClosed : Rows j → Type 0
  IsClosed rs =
      (r : StoredRecord Value)
      → Elem r rs
      → (p : ℕ) → r.supersedes ≡ some p
      → (t : StoredRecord Value) × (lookup p (pairs j rs) ≡ some t)

  walk-ne-panic :
      (rs : Rows j) (fuel : ℕ) (seen : List ℕ) (current : StoredRecord Value) (o : Option ℕ)
      → IsClosed rs
      → Elem current rs
      → current.supersedes ≡ o
      → unseen seen (ids j rs) < fuel
      → walk j fuel (pairs j rs) seen current o ≢ err panic
  unfolding walk
  walk-ne-panic rs fuel seen current none closed m same lt = λ e. cc
  walk-ne-panic rs zero seen current (some p) closed m same lt = elim lt [ ]
  walk-ne-panic rs (suc fuel) seen current (some p) closed m same lt =
      let (t, found) = closed current m p same in
      let (own, place) = lookup-pairs j rs p t found in
      elim (Bool-cases (contains seen current.id)) [
        | inl old ↦ λ e. let bad = rw old at e in cc
        | inr new ↦
            let less = unseen-lt current.id seen (ids j rs) new (contains-ids j rs current m) in
            λ e.
              walk-ne-panic rs fuel (current.id ∷ seen) t t.supersedes closed place refl
                (omega arith) (rw (new, found) at e)
      ]

  pub cycles-ne-panic :
      (rs more : Rows j) (fuel : ℕ)
      → IsClosed rs
      → ((r : StoredRecord Value) → Elem r more → Elem r rs)
      → length (ids j rs) < fuel
      → reject_cycles j fuel (pairs j rs) more ≢ err panic
  unfolding reject_cycles
  cycles-ne-panic rs [] fuel closed inside lt = λ e. cc
  cycles-ne-panic rs (r ∷ more) fuel closed inside lt =
      let few = unseen-le-length [] (ids j rs) in
      let first =
        walk-ne-panic rs fuel [] r r.supersedes closed (inside r (inl refl)) refl (omega arith) in
      elim (Result-cases (walk j fuel (pairs j rs) [] r r.supersedes)) [
        | inl (u, e) ↦
            λ h. cycles-ne-panic rs more fuel closed (λ x m. inside x (inr m)) lt (rw e at h)
        | inr (x, e) ↦ λ h. first (e ∙ (rw e at h))
      ]
