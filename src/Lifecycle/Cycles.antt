-- ===== src/Lifecycle/Cycles.antt =====
-- src/record/lifecycle/graph.rs: the walks of `reject_cycles`. A new record, which no record
-- supersedes, lengthens no walk and starts one that joins an old one; and the fuel is enough.
use mathlib.Core.Path.{subst}
use equill.Base.{
  ℕ, zero, suc, ◌≡◌, refl, inl, inr, true, false, Option, none, some, List, [], ◌∷◌, ◌++◌, ◌==◌,
  nat_eq, contains, lookup, lookup-append_present, Elem, arith,
}
use equill.Kernel.Error.{ok, refuse, >>=-eq-ok, >>-eq-ok, refuse-eq-ok, ok_or-eq-ok}
use equill.Json.{Json}
use equill.Record.{StoredRecord}
use equill.Lifecycle.Describes.{ids}
use equill.Lifecycle.Lookup.{pairs}
use equill.Lifecycle.Ledger.{Rows, lookup-pairs}
use equill.Lifecycle.Graph.{index, walk, reject_cycles}

module _ (j : Json) where
  open j use {Value}

  pub contains-ids :
      (rs : Rows j) (r : StoredRecord Value) → Elem r rs → contains (ids j rs) r.id ≡ true
  unfolding contains
  contains-ids [] r m = elim m [ ]
  contains-ids (x ∷ rs) r (inl e) = ground arith
  contains-ids (x ∷ rs) r (inr m) = ground (arith, contains-ids rs r m)

  old-id :
      (c : StoredRecord Value) (rs : Rows j) (r : StoredRecord Value)
      → contains (ids j rs) c.id ≡ false
      → Elem r rs
      → (c.id == r.id) ≡ false
  old-id c rs r fresh m = ground (arith, contains-ids rs r m)

  seen-same :
      (x : ℕ) (seen seen' : List ℕ) (c : StoredRecord Value)
      → ((id : ℕ) → (c.id == id) ≡ false → contains seen' id ≡ contains seen id)
      → (id : ℕ) → (c.id == id) ≡ false
      → contains (x ∷ seen') id ≡ contains (x ∷ seen) id
  unfolding contains
  seen-same x seen seen' c same id n = rw (same id n) refl

  seen-new : (x id : ℕ) → (x == id) ≡ false → contains (x ∷ []) id ≡ contains {A = ℕ} [] id
  unfolding contains
  seen-new x id n = rw n refl

  -- A walk among old records goes on as before when `c` is added, whether `c` was seen or not.
  walk-grow :
      (c : StoredRecord Value) (rs : Rows j) (fuel : ℕ) (seen seen' : List ℕ)
      (current : StoredRecord Value) (o : Option ℕ)
      → contains (ids j rs) c.id ≡ false
      → ((id : ℕ) → (c.id == id) ≡ false → contains seen' id ≡ contains seen id)
      → (c.id == current.id) ≡ false
      → walk j fuel (pairs j rs) seen current o ≡ ok tt
      → walk j fuel (pairs j rs ++ (c.id, c) ∷ []) seen' current o ≡ ok tt
  unfolding walk
  walk-grow c rs fuel seen seen' current none fresh same new h = refl
  walk-grow c rs zero seen seen' current (some p) fresh same new h = cc
  walk-grow c rs (suc fuel) seen seen' current (some p) fresh same new h =
      let (once, h1) = >>-eq-ok (refuse (contains seen current.id) _) _ h in
      let (next, found, rest) = >>=-eq-ok (index (lookup p (pairs j rs))) _ h1 in
      let held = ok_or-eq-ok _ _ found in
      let (own, place) = lookup-pairs j rs p next held in
      rw
        (
          same current.id new,
          refuse-eq-ok _ _ once,
          lookup-append_present p next (pairs j rs) ((c.id, c) ∷ []) held,
        )
        (walk-grow c rs fuel (current.id ∷ seen) (current.id ∷ seen') next next.supersedes fresh
          (seen-same current.id seen seen' c same) (old-id c rs next fresh place) rest)

  -- More fuel than enough is enough.
  walk-more :
      (m : List (ℕ × StoredRecord Value)) (fuel : ℕ) (seen : List ℕ) (current : StoredRecord Value)
      (o : Option ℕ)
      → walk j fuel m seen current o ≡ ok tt
      → walk j (suc fuel) m seen current o ≡ ok tt
  unfolding walk
  walk-more m fuel seen current none h = refl
  walk-more m zero seen current (some p) h = cc
  walk-more m (suc fuel) seen current (some p) h =
      let (once, h1) = >>-eq-ok (refuse (contains seen current.id) _) _ h in
      let (next, found, rest) = >>=-eq-ok (index (lookup p m)) _ h1 in
      rw (refuse-eq-ok _ _ once, ok_or-eq-ok _ _ found)
        (walk-more m fuel (current.id ∷ seen) next next.supersedes rest)

  -- A record that supersedes none ends its walk at once.
  pub walk-root :
      (m : List (ℕ × StoredRecord Value)) (fuel : ℕ) (c : StoredRecord Value) (o : Option ℕ)
      → o ≡ none
      → walk j fuel m [] c o ≡ ok tt
  unfolding walk
  walk-root m fuel c none h = refl
  walk-root m fuel c (some p) h = cc

  pub cycles-grow :
      (c : StoredRecord Value) (rs more : Rows j) (fuel : ℕ)
      → contains (ids j rs) c.id ≡ false
      → ((r : StoredRecord Value) → Elem r more → Elem r rs)
      → reject_cycles j fuel (pairs j rs) more ≡ ok tt
      → reject_cycles j (suc fuel) (pairs j rs ++ (c.id, c) ∷ []) more ≡ ok tt
  unfolding reject_cycles
  cycles-grow c rs [] fuel fresh inside h = refl
  cycles-grow c rs (r ∷ more) fuel fresh inside h =
      let (first, rest) = >>-eq-ok (walk j fuel (pairs j rs) [] r r.supersedes) _ h in
      rw
        (walk-more (pairs j rs ++ (c.id, c) ∷ []) fuel [] r r.supersedes (
          walk-grow c rs fuel [] [] r r.supersedes fresh (λ id n. refl)
            (old-id c rs r fresh (inside r (inl refl))) first))
        (cycles-grow c rs more fuel fresh (λ x m. inside x (inr m)) rest)

  -- The walk from the new record joins the walk from its target.
  pub walk-new :
      (c t : StoredRecord Value) (rs : Rows j) (fuel : ℕ)
      → contains (ids j rs) c.id ≡ false
      → lookup t.id (pairs j rs) ≡ some t
      → Elem t rs
      → walk j fuel (pairs j rs) [] t t.supersedes ≡ ok tt
      → walk j (suc fuel) (pairs j rs ++ (c.id, c) ∷ []) [] c (some t.id) ≡ ok tt
  unfolding walk contains
  walk-new c t rs fuel fresh found place h =
      rw (lookup-append_present t.id t (pairs j rs) ((c.id, c) ∷ []) found) (
        walk-grow c rs fuel [] (c.id ∷ []) t t.supersedes fresh (λ id n. seen-new c.id id n)
          (old-id c rs t fresh place) h)

  pub walk_of_cycles :
      (rs more : Rows j) (fuel : ℕ) (t : StoredRecord Value)
      → reject_cycles j fuel (pairs j rs) more ≡ ok tt
      → Elem t more
      → walk j fuel (pairs j rs) [] t t.supersedes ≡ ok tt
  unfolding reject_cycles
  walk_of_cycles rs [] fuel t h m = elim m [ ]
  walk_of_cycles rs (r ∷ more) fuel t h (inl e) =
      subst (λ x. walk j fuel (pairs j rs) [] x x.supersedes ≡ ok tt) e
        ((>>-eq-ok (walk j fuel (pairs j rs) [] r r.supersedes) _ h).0)
  walk_of_cycles rs (r ∷ more) fuel t h (inr m) =
      walk_of_cycles rs more fuel t ((>>-eq-ok (walk j fuel (pairs j rs) [] r r.supersedes) _ h).1)
        m

  pub cycles-append :
      (m : List (ℕ × StoredRecord Value)) (fuel : ℕ) (rs : Rows j) (c : StoredRecord Value)
      → reject_cycles j fuel m rs ≡ ok tt
      → walk j fuel m [] c c.supersedes ≡ ok tt
      → reject_cycles j fuel m (rs ++ c ∷ []) ≡ ok tt
  unfolding reject_cycles
  cycles-append m fuel [] c h w = rw w refl
  cycles-append m fuel (r ∷ rs) c h w =
      let (first, rest) = >>-eq-ok (walk j fuel m [] r r.supersedes) _ h in
      rw first (cycles-append m fuel rs c rest w)
