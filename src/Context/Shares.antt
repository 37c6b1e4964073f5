-- ===== src/Context/Shares.antt =====
-- src/context/budget.rs: what the loops of `take` and of the required tier do with each candidate.
use mathlib.Core.Path.{subst}
use mathlib.Core.List.{append-nil, append_assoc, map-append}
use equill.Base.{
  ℕ, ◌+◌, ◌≤◌, String, ◌≡◌, refl, sym, ap, ◌∙◌, ◌⊎◌, inl, inr, Bool, true, false, Option, some, suc,
  List, [], ◌∷◌, ◌++◌, ◌==◌, nat_eq, map, arith, leb, length, length-append, if◌then◌else◌,
}
use equill.Kernel.Error.{Result, ok, >>=-eq-ok, ok-injective}
use equill.Record.{StoredRecord}
use equill.Context.Model.{
  Candidate, TokenizerCoordinate, ExclusionReason, ExcludedCoordinate, Picked, record_budget,
}
use equill.Context.Budget.{
  at_limit, prospective_total, push, push_all, take_one, take_below, take_fitting, take, Taken,
  Candidates, excluded_candidate,
}

-- how often an id stands in a list
unfoldable pub times : ℕ → List ℕ → ℕ
times id [] = 0
times id (x ∷ xs) = let rest = times id xs in if x == id then suc rest else rest

pub times-append : (id : ℕ) (xs ys : List ℕ) → times id (xs ++ ys) ≡ times id xs + times id ys
unfolding times
times-append id [] ys = omega arith
times-append id (x ∷ xs) ys = ground (arith, times-append id xs ys)

times-nil : (id : ℕ) → times id [] ≡ 0
unfolding times
times-nil id = refl

abbrev pub excluded_ids : List ExcludedCoordinate → List ℕ
excluded_ids = map (λ x. x.id)

excluded_ids-snoc :
    (id : ℕ) (xs : List ExcludedCoordinate) (x : ExcludedCoordinate)
    → times id (excluded_ids (xs ++ x ∷ [])) ≡ times id (excluded_ids xs) + times id (x.id ∷ [])
excluded_ids-snoc id xs x =
    ap (times id) (map-append (λ y. y.id) xs (x ∷ []))
    ∙ times-append id (excluded_ids xs) (x.id ∷ [])

module _ {V F : Type 0} where
  abbrev pub candidate_ids : Candidates V F → List ℕ
  candidate_ids cs = map (λ c. c.stored.id) cs

  abbrev pub picked_ids : List (Picked V F) → List ℕ
  picked_ids p = map (λ item. item.candidate.stored.id) p

module _ {V F : Type 0} (render : List (StoredRecord V) → Result String) (tokens : String → ℕ)
    (max : ℕ) where
  -- the candidate is picked last, or excluded last
  abbrev pub PickedLast : Candidate V F → Option ℕ → Taken V F → Taken V F → Type 0
  PickedLast c records t u =
      (item : Picked V F) × (item.candidate ≡ c)
      × (u.0 ≡ t.0 ++ item ∷ [])
      × (u.1 ≡ t.1)
      × (at_limit records (length t.0) ≡ false)

  abbrev pub ExcludedLast : Candidate V F → Taken V F → Taken V F → Type 0
  ExcludedLast c t u =
      (reason : ExclusionReason) × (u.0 ≡ t.0) × (u.1 ≡ t.1 ++ excluded_candidate V F c reason ∷ [])

  pub push-snoc :
      (c : Candidate V F) (p q : List (Picked V F)) (tk : TokenizerCoordinate)
      → push V F render tokens max c p tk ≡ ok q
      → (item : Picked V F) × (item.candidate ≡ c) × (q ≡ p ++ item ∷ [])
  unfolding push
  push-snoc c p q tk h =
      let (n, _, same) = >>=-eq-ok (prospective_total V F render tokens max p (c ∷ []) tk) _ h in
      (_, refl, sym (ok-injective same))

  take_fitting-cases :
      (c : Candidate V F) (t u : Taken V F) (reason : ExclusionReason) (records : Option ℕ)
      (tk : TokenizerCoordinate) (b : Bool)
      → at_limit records (length t.0) ≡ false
      → take_fitting V F render tokens max c t reason tk b ≡ ok u
      → PickedLast c records t u ⊎ ExcludedLast c t u
  take_fitting-cases c (p, e) u reason records tk true room h =
      let (q, one, same) = >>=-eq-ok (push V F render tokens max c p tk) _ h in
      let (item, own, last) = push-snoc c p q tk one in
      let equal : (q, e) ≡ u = ok-injective same in
      inl (
        item,
        own,
        sym (ap (λ (x : Taken V F). x.0) equal) ∙ last,
        sym (ap (λ (x : Taken V F). x.1) equal),
        room,
      )
  take_fitting-cases c (p, e) u reason records tk false room h =
      let equal = ok-injective h in
      inr (reason, sym (ap (λ (x : Taken V F). x.0) equal), sym (ap (λ (x : Taken V F). x.1) equal))

  take_below-cases :
      (c : Candidate V F) (limit : ℕ) (t u : Taken V F) (reason : ExclusionReason)
      (records : Option ℕ) (tk : TokenizerCoordinate) (b : Bool)
      → at_limit records (length t.0) ≡ b
      → take_below V F render tokens max c limit t reason tk b ≡ ok u
      → PickedLast c records t u ⊎ ExcludedLast c t u
  take_below-cases c limit (p, e) u reason records tk true room h =
      let equal = ok-injective h in
      inr (
        record_budget,
        sym (ap (λ (x : Taken V F). x.0) equal),
        sym (ap (λ (x : Taken V F). x.1) equal),
      )
  take_below-cases c limit (p, e) u reason records tk false room h =
      let (n, _, rest) = >>=-eq-ok (prospective_total V F render tokens max p (c ∷ []) tk) _ h in
      take_fitting-cases c (p, e) u reason records tk (leb n limit) room rest

  pub take_one-cases :
      (c : Candidate V F) (limit : ℕ) (t u : Taken V F) (reason : ExclusionReason)
      (records : Option ℕ) (tk : TokenizerCoordinate)
      → take_one V F render tokens max c limit t reason records tk ≡ ok u
      → PickedLast c records t u ⊎ ExcludedLast c t u
  unfolding take_one
  take_one-cases c limit t u reason records tk h =
      take_below-cases c limit t u reason records tk (at_limit records (length t.0)) refl h

  -- `take` only adds to the picked items.
  pub take-grows :
      (cs : Candidates V F) (limit : ℕ) (t u : Taken V F) (reason : ExclusionReason)
      (records : Option ℕ) (tk : TokenizerCoordinate)
      → take V F render tokens max cs limit t reason records tk ≡ ok u
      → (more : List (Picked V F)) × (u.0 ≡ t.0 ++ more)
  unfolding take
  take-grows [] limit t u reason records tk h =
      ([], sym (ap (λ (x : Taken V F). x.0) (ok-injective h)) ∙ sym (append-nil _))
  take-grows (c ∷ cs) limit t u reason records tk h =
      let (mid, one, rest) =
        >>=-eq-ok (take_one V F render tokens max c limit t reason records tk) _ h in
      let (more, grown) = take-grows cs limit mid u reason records tk rest in
      elim (take_one-cases c limit t mid reason records tk one) [
        | inl (item, _, last, _, _) ↦
            (item ∷ more, grown ∙ ap (λ x. x ++ more) last ∙ append_assoc t.0 (item ∷ []) more)
        | inr (_, same, _) ↦ (more, grown ∙ ap (λ x. x ++ more) same)
      ]

  -- `take` keeps the picked items below the record limit.
  pub take-length :
      (cs : Candidates V F) (limit n : ℕ) (t u : Taken V F) (reason : ExclusionReason)
      (tk : TokenizerCoordinate)
      → length t.0 ≤ n
      → take V F render tokens max cs limit t reason (some n) tk ≡ ok u
      → length u.0 ≤ n
  unfolding take
  take-length [] limit n t u reason tk le h =
      subst (λ (x : Taken V F). length x.0 ≤ n) (ok-injective h) le
  take-length (c ∷ cs) limit n t u reason tk le h =
      let (mid, one, rest) =
        >>=-eq-ok (take_one V F render tokens max c limit t reason (some n) tk) _ h in
      elim (take_one-cases c limit t mid reason (some n) tk one) [
        | inl (item, _, last, _, room) ↦
            let longer = ap length last ∙ length-append t.0 (item ∷ []) in
            take-length cs limit n mid u reason tk (ground arith) rest
        | inr (_, same, _) ↦
            take-length cs limit n mid u reason tk (subst (λ p. length p ≤ n) (sym same) le) rest
      ]

  picked_ids-snoc :
      (id : ℕ) (p : List (Picked V F)) (item : Picked V F) (c : Candidate V F)
      → item.candidate ≡ c
      → times id (picked_ids (p ++ item ∷ []))
        ≡ times id (picked_ids p) + times id (c.stored.id ∷ [])
  picked_ids-snoc id p item c e =
      ap (times id) (map-append (λ x. x.candidate.stored.id) p (item ∷ []))
      ∙ times-append id (picked_ids p) (item.candidate.stored.id ∷ [])
      ∙ ap (λ (x : Candidate V F). times id (picked_ids p) + times id (x.stored.id ∷ [])) e

  accounted-snoc :
      (id : ℕ) (c : Candidate V F) (records : Option ℕ) (t u : Taken V F)
      → PickedLast c records t u ⊎ ExcludedLast c t u
      → times id (picked_ids u.0) + times id (excluded_ids u.1)
        ≡ times id (picked_ids t.0) + times id (excluded_ids t.1) + times id (c.stored.id ∷ [])
  accounted-snoc id c records t u (inl (item, own, last, same, _)) =
      let p = ap (λ q. times id (picked_ids q)) last ∙ picked_ids-snoc id t.0 item c own in
      let e = ap (λ q. times id (excluded_ids q)) same in omega arith
  accounted-snoc id c records t u (inr (reason, same, last)) =
      let p = ap (λ q. times id (picked_ids q)) same in
      let e =
        ap (λ q. times id (excluded_ids q)) last
        ∙ excluded_ids-snoc id t.1 (excluded_candidate V F c reason) in
      omega arith

  -- `take` accounts for every candidate once.
  pub take-times :
      (cs : Candidates V F) (limit : ℕ) (t u : Taken V F) (reason : ExclusionReason)
      (records : Option ℕ) (tk : TokenizerCoordinate) (id : ℕ)
      → take V F render tokens max cs limit t reason records tk ≡ ok u
      → times id (picked_ids u.0) + times id (excluded_ids u.1)
        ≡ times id (picked_ids t.0) + times id (excluded_ids t.1) + times id (candidate_ids cs)
  unfolding take
  take-times [] limit t u reason records tk id h =
      let same = ok-injective h in
      let p = ap (λ (x : Taken V F). times id (picked_ids x.0)) same in
      let e = ap (λ (x : Taken V F). times id (excluded_ids x.1)) same in
      ground (arith, times-nil id)
  take-times (c ∷ cs) limit t u reason records tk id h =
      let (mid, one, rest) =
        >>=-eq-ok (take_one V F render tokens max c limit t reason records tk) _ h in
      let step =
        accounted-snoc id c records t mid (take_one-cases c limit t mid reason records tk one) in
      let ih = take-times cs limit mid u reason records tk id rest in
      let split = times-append id (c.stored.id ∷ []) (candidate_ids cs) in omega arith

  -- The items of pushed candidates are those candidates, in order, behind what was picked.
  pub push_all-grows :
      (cs : Candidates V F) (p q : List (Picked V F)) (tk : TokenizerCoordinate)
      → push_all V F render tokens max cs p tk ≡ ok q
      → map (λ item. item.candidate) q ≡ map (λ item. item.candidate) p ++ cs
  unfolding push_all
  push_all-grows [] p q tk h =
      sym (ap (map (λ item. item.candidate)) (ok-injective h)) ∙ sym (append-nil _)
  push_all-grows (c ∷ cs) p q tk h =
      let (mid, one, rest) = >>=-eq-ok (push V F render tokens max c p tk) _ h in
      let (item, own, last) = push-snoc c p mid tk one in
      let step : map (λ (x : Picked V F). x.candidate) mid ≡ map (λ x. x.candidate) p ++ c ∷ [] =
        ap (map (λ (x : Picked V F). x.candidate)) last
        ∙ map-append (λ (x : Picked V F). x.candidate) p (item ∷ [])
        ∙ ap (λ x. map (λ (y : Picked V F). y.candidate) p ++ x ∷ []) own in
      push_all-grows cs mid q tk rest
      ∙ ap (λ xs. xs ++ cs) step
      ∙ append_assoc (map (λ (x : Picked V F). x.candidate) p) (c ∷ []) cs
