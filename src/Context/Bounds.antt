-- ===== src/Context/Bounds.antt =====
-- src/context/budget.rs: what is selected fits the limits.
use mathlib.Core.Path.{subst}
use mathlib.Core.List.{append-nil, map-append}
use equill.Base.{
  ℕ, ◌+◌, ◌-◌, ◌≤◌, String, ◌≡◌, refl, sym, ◌∙◌, ◌⊎◌, inr, Bool, true, false, Option, List, [], ◌∷◌,
  ◌++◌, arith, leb, length,
}
use equill.Kernel.Error.{Result, ok, >>=-eq-ok, ok-injective}
use equill.Record.{StoredRecord}
use equill.Context.Model.{Candidate, TokenizerCoordinate, ExclusionReason, Picked}
use equill.Context.Budget.{
  at_limit, total, prospective_total, push, push_all, take_one, take_below, take_fitting, take,
  Taken, Candidates,
}

module _ {V F : Type 0} (render : List (StoredRecord V) → Result String) (tokens : String → ℕ)
    (max : ℕ) where
  total-append : (p q : List (Picked V F)) → total V F (p ++ q) ≡ total V F p + total V F q
  unfolding total
  total-append [] q = omega arith
  total-append (x ∷ p) q = omega (arith, total-append p q)

  -- what the picked items cost when they are rendered together
  abbrev pub Costs : List (Picked V F) → TokenizerCoordinate → ℕ → Type 0
  Costs p tk n = prospective_total V F render tokens max p [] tk ≡ ok n

  -- no item is picked, or the items cost at most the limit
  abbrev pub Within : ℕ → TokenizerCoordinate → List (Picked V F) → Type 0
  Within limit tk p = (p ≡ []) ⊎ ((n : ℕ) × Costs p tk n × (n ≤ limit))

  Costs-snoc :
      (p : List (Picked V F)) (item : Picked V F) (tk : TokenizerCoordinate) {n : ℕ}
      → prospective_total V F render tokens max p (item.candidate ∷ []) tk ≡ ok n
      → Costs (p ++ item ∷ []) tk n
  unfolding prospective_total
  Costs-snoc p item tk h = rw (map-append, append-nil) h

  total_last :
      (p : List (Picked V F)) (c : Candidate V F) (n : ℕ)
      → n ≤ total V F (p ++ record { candidate = c; tokens = n - total V F p } ∷ [])
  unfolding total
  total_last p c n =
      omega (arith, total-append p (record { candidate = c; tokens = n - total V F p } ∷ []))

  -- A pushed item's tokens make up for what the items cost.
  pub push-Costs :
      (c : Candidate V F) (p q : List (Picked V F)) (tk : TokenizerCoordinate)
      → push V F render tokens max c p tk ≡ ok q
      → (n : ℕ) × (prospective_total V F render tokens max p (c ∷ []) tk ≡ ok n)
        × Costs q tk n
        × (n ≤ total V F q)
  unfolding push
  push-Costs c p q tk h =
      let (n, cost, same) = >>=-eq-ok (prospective_total V F render tokens max p (c ∷ []) tk) _ h in
      subst
        (λ q.
          (n : ℕ) × (prospective_total V F render tokens max p (c ∷ []) tk ≡ ok n)
          × Costs q tk n
          × (n ≤ total V F q))
        (ok-injective same)
        (
          n,
          cost,
          Costs-snoc p (record { candidate = c; tokens = n - total V F p }) tk cost,
          total_last p c n,
        )

  pub push_all-Within :
      (cs : Candidates V F) (p q : List (Picked V F)) (tk : TokenizerCoordinate)
      → Within (total V F p) tk p
      → push_all V F render tokens max cs p tk ≡ ok q
      → Within (total V F q) tk q
  unfolding push_all
  push_all-Within [] p q tk w h = subst (λ q. Within (total V F q) tk q) (ok-injective h) w
  push_all-Within (c ∷ cs) p q tk w h =
      let (mid, one, rest) = >>=-eq-ok (push V F render tokens max c p tk) _ h in
      let (n, _, cost, le) = push-Costs c p mid tk one in
      push_all-Within cs mid q tk (inr (n, cost, le)) rest

  take_fitting-Within :
      (c : Candidate V F) (top limit n : ℕ) (t u : Taken V F) (reason : ExclusionReason)
      (tk : TokenizerCoordinate) (b : Bool)
      → prospective_total V F render tokens max t.0 (c ∷ []) tk ≡ ok n
      → leb n limit ≡ b
      → limit ≤ top
      → Within top tk t.0
      → take_fitting V F render tokens max c t reason tk b ≡ ok u
      → Within top tk u.0
  take_fitting-Within c top limit n (p, e) u reason tk true cost fits small w h =
      let (q, one, same) = >>=-eq-ok (push V F render tokens max c p tk) _ h in
      let (m, cost', costs, _) = push-Costs c p q tk one in
      let equal : n ≡ m = ok-injective (sym cost ∙ cost') in
      subst (λ (u : Taken V F). Within top tk u.0) (ok-injective same)
        (inr (m, costs, ground arith))
  take_fitting-Within c top limit n (p, e) u reason tk false cost fits small w h =
      subst (λ (u : Taken V F). Within top tk u.0) (ok-injective h) w

  take_below-Within :
      (c : Candidate V F) (top limit : ℕ) (t u : Taken V F) (reason : ExclusionReason)
      (tk : TokenizerCoordinate) (b : Bool)
      → limit ≤ top
      → Within top tk t.0
      → take_below V F render tokens max c limit t reason tk b ≡ ok u
      → Within top tk u.0
  take_below-Within c top limit (p, e) u reason tk true small w h =
      subst (λ (u : Taken V F). Within top tk u.0) (ok-injective h) w
  take_below-Within c top limit (p, e) u reason tk false small w h =
      let (n, cost, rest) = >>=-eq-ok (prospective_total V F render tokens max p (c ∷ []) tk) _ h in
      take_fitting-Within c top limit n (p, e) u reason tk (leb n limit) cost refl small w rest

  take_one-Within :
      (c : Candidate V F) (top limit : ℕ) (t u : Taken V F) (reason : ExclusionReason)
      (records : Option ℕ) (tk : TokenizerCoordinate)
      → limit ≤ top
      → Within top tk t.0
      → take_one V F render tokens max c limit t reason records tk ≡ ok u
      → Within top tk u.0
  unfolding take_one
  take_one-Within c top limit t u reason records tk small w h =
      take_below-Within c top limit t u reason tk (at_limit records (length t.0)) small w h

  -- Taking under a limit that is at most `top` keeps the items within `top`.
  pub take-Within :
      (cs : Candidates V F) (top limit : ℕ) (t u : Taken V F) (reason : ExclusionReason)
      (records : Option ℕ) (tk : TokenizerCoordinate)
      → limit ≤ top
      → Within top tk t.0
      → take V F render tokens max cs limit t reason records tk ≡ ok u
      → Within top tk u.0
  unfolding take
  take-Within [] top limit t u reason records tk small w h =
      subst (λ (u : Taken V F). Within top tk u.0) (ok-injective h) w
  take-Within (c ∷ cs) top limit t u reason records tk small w h =
      let (mid, one, rest) =
        >>=-eq-ok (take_one V F render tokens max c limit t reason records tk) _ h in
      take-Within cs top limit mid u reason records tk small
        (take_one-Within c top limit t mid reason records tk small w one) rest
