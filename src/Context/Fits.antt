-- ===== src/Context/Fits.antt =====
-- src/context/budget.rs: the budgeted answer fits the token limits.
use mathlib.Core.Path.{subst}
use native.Mathlib.Nat.{le_trans}
use mathlib.Core.List.{append-nil}
use equill.Base.{
  ℕ, ◌-◌, ◌≤◌, String, ◌≡◌, ◌≢◌, refl, sym, ap, ◌∙◌, inl, inr, Bool, true, false, Option, some,
  List, [], ◌∷◌, map, arith, ltb, length,
}
use equill.Kernel.Error.{Result, ok, >>=-eq-ok, >>-eq-ok, ok-injective}
use equill.Record.{StoredRecord}
use equill.Context.Model.{
  TokenizerCoordinate, ContextBudget, RuntimeBudget, ExcludedCoordinate, Picked, Budgeted, required,
  core, relevant, core_cap, total_budget,
}
use equill.Context.Budget.{
  sort_by_id, effective_total, reserve_of, total, rows, count, prospective_total, push_all, take,
  saturating_add, unwrap_or, Taken, Candidates, finish, apply, apply_optional, apply_fitting,
  content_limit_of, required_limit_of, of_tier, min, selected_item,
}
use equill.Context.Bounds.{Within, push_all-Within, take-Within}

small_core : (a limit protected : ℕ) → min a (limit - protected) ≤ limit
small_core a limit protected = ground arith

min-le-right : (a b : ℕ) → min a b ≤ b
min-le-right a b = ground arith

module _ {V F : Type 0} (render : List (StoredRecord V) → Result String) (tokens : String → ℕ)
    (max : ℕ) where
  apply_optional-Within :
      (cs ds : Candidates V F) (budget : ContextBudget) (runtime : RuntimeBudget) (limit : ℕ)
      (t u : Taken V F)
      → Within render tokens max limit budget.tokenizer t.0
      → apply_optional V F render tokens max cs ds budget runtime limit (total V F t.0) t ≡ ok u
      → Within render tokens max limit budget.tokenizer u.0
  unfolding apply_optional
  apply_optional-Within cs ds budget runtime limit (p, e) u w h =
      let (whole, _, rest) =
        >>=-eq-ok (prospective_total V F render tokens max p ds budget.tokenizer) _ h in
      let (mid, first, last) =
        >>=-eq-ok (take V F render tokens max cs _ (p, e) core_cap runtime.records budget.tokenizer)
          _ rest in
      take-Within render tokens max ds limit limit mid u total_budget runtime.records
        budget.tokenizer (omega arith)
        (take-Within render tokens max cs limit _ (p, e) mid core_cap runtime.records
          budget.tokenizer (small_core _ limit _) w first)
        last

  weaken :
      (low high : ℕ) (tk : TokenizerCoordinate) (p : List (Picked V F))
      → low ≤ high
      → Within render tokens max low tk p
      → Within render tokens max high tk p
  weaken low high tk p le (inl e) = inl e
  weaken low high tk p le (inr (n, cost, small)) = inr (n, cost, omega arith)

  -- what a finished answer reports of the picked items
  pub record Reports (t : Taken V F) (budget : ContextBudget) (overflow reserve : ℕ) (b : Budgeted)
      : Type 0 where
    pub cost : prospective_total V F render tokens max t.0 [] budget.tokenizer ≡ ok b.usage.content
    pub content : render (rows V F t.0) ≡ ok b.content
    pub selected : b.selected ≡ map (selected_item V F) t.0
    pub excluded : b.excluded ≡ sort_by_id t.1
    pub required_overflow : b.required_overflow ≡ overflow
    pub total : b.usage.total ≡ saturating_add V F render tokens max b.usage.content reserve

  pub finish-Reports :
      (t : Taken V F) (budget : ContextBudget) (limit needed overflow : ℕ) (effective : Option ℕ)
      (reserve : ℕ) (b : Budgeted)
      → finish V F render tokens max t budget limit needed overflow effective reserve ≡ ok b
      → Reports t budget overflow reserve b
  unfolding finish prospective_total
  finish-Reports (p, e) budget limit needed overflow effective reserve b h =
      let (content, shown, rest) = >>=-eq-ok (render (rows V F p)) _ h in
      let (n, counted, same) =
        >>=-eq-ok (count V F render tokens max content budget.tokenizer) _ rest in
      subst (Reports (p, e) budget overflow reserve) (ok-injective same) (record {
        cost = rw (append-nil, shown) counted;
        content = shown;
        selected = refl;
        excluded = refl;
        required_overflow = refl;
        total = refl;
      })

  -- how `apply` reaches an answer without overflow
  pub record Run (cs : Candidates V F) (budget : ContextBudget) (runtime : RuntimeBudget)
      (excluded : List ExcludedCoordinate) (b : Budgeted) : Type 0 where
    pub picked : List (Picked V F)
    pub taken : Taken V F
    pub required_picked :
        push_all V F render tokens max (of_tier V F required cs) [] budget.tokenizer ≡ ok picked
    pub small :
        total V F picked
        ≤ required_limit_of V F render tokens max budget (effective_total budget runtime.tokens)
    pub optional :
        apply_optional V F render tokens max
          (of_tier V F core cs)
          (of_tier V F relevant cs)
          budget
          runtime
          (content_limit_of V F render tokens max budget (effective_total budget runtime.tokens))
          (total V F picked)
          (picked, excluded)
        ≡ ok taken
    pub reports :
        Reports taken budget 0 (reserve_of budget (effective_total budget runtime.tokens)) b

  none_picked :
      (cs : Candidates V F) (tk : TokenizerCoordinate) (p : List (Picked V F))
      → length cs ≡ 0
      → push_all V F render tokens max cs [] tk ≡ ok p
      → total V F p ≡ 0
  unfolding push_all total
  none_picked [] tk p e h = subst (λ p. total V F p ≡ 0) (ok-injective h) refl
  none_picked (c ∷ cs) tk p e h = absurd (ground arith)

  fitting-Run :
      (cs : Candidates V F) (budget : ContextBudget) (runtime : RuntimeBudget)
      (excluded : List ExcludedCoordinate) (b : Budgeted) (p : List (Picked V F)) (over : Bool)
      → push_all V F render tokens max (of_tier V F required cs) [] budget.tokenizer ≡ ok p
      → ltb
          (required_limit_of V F render tokens max budget (effective_total budget runtime.tokens))
          (total V F p)
        ≡ over
      → b.required_overflow ≡ 0
      → apply_fitting V F render tokens max cs budget runtime
          (effective_total budget runtime.tokens)
          p
          excluded
          over
        ≡ ok b
      → Run cs budget runtime excluded b
  fitting-Run cs budget runtime excluded b p true pushed big zero h =
      let r = finish-Reports _ budget _ _ _ _ _ b h in
      let gone =
        none_picked (of_tier V F required cs) budget.tokenizer p (sym r.required_overflow ∙ zero)
          pushed in
      absurd (ground arith)
  fitting-Run cs budget runtime excluded b p false pushed big zero h =
      let (taken, opt, done) =
        >>=-eq-ok (apply_optional V F render tokens max _ _ budget runtime _ _ (p, excluded)) _ h in
      record {
        picked = p;
        taken = taken;
        required_picked = pushed;
        small = ground arith;
        optional = opt;
        reports = finish-Reports taken budget _ _ _ _ _ b done;
      }

  pub apply-Run :
      (cs : Candidates V F) (budget : ContextBudget) (runtime : RuntimeBudget)
      (excluded : List ExcludedCoordinate) (b : Budgeted)
      → apply V F render tokens max cs budget runtime excluded ≡ ok b
      → b.required_overflow ≡ 0
      → Run cs budget runtime excluded b
  unfolding apply
  apply-Run cs budget runtime excluded b h zero =
      let (_, h1) = >>-eq-ok _ _ h in
      let (_, h2) = >>-eq-ok _ _ h1 in
      let (p, pushed, h3) =
        >>=-eq-ok (push_all V F render tokens max (of_tier V F required cs) [] budget.tokenizer) _
          h2 in
      fitting-Run cs budget runtime excluded b p _ pushed refl zero h3

  -- An answer without overflow that selects something renders to at most the content limit, whatever
  -- rendering and counting do: the effective total less the receipt's reserve, or `usize::MAX`.
  pub apply-content_limit :
      (cs : Candidates V F) (budget : ContextBudget) (runtime : RuntimeBudget)
      (excluded : List ExcludedCoordinate) (b : Budgeted)
      → apply V F render tokens max cs budget runtime excluded ≡ ok b
      → b.required_overflow ≡ 0
      → b.selected ≢ []
      → b.usage.content
        ≤ content_limit_of V F render tokens max budget (effective_total budget runtime.tokens)
  apply-content_limit cs budget runtime excluded b h zero some_selected =
      let run = apply-Run cs budget runtime excluded b h zero in
      let start =
        push_all-Within render tokens max (of_tier V F required cs) [] run.picked budget.tokenizer
          (inl refl) run.required_picked in
      let limit =
        content_limit_of V F render tokens max budget (effective_total budget runtime.tokens) in
      let low =
        weaken (total V F run.picked) limit budget.tokenizer run.picked
          (le_trans run.small (min-le-right (unwrap_or budget.required_cap max) limit)) start in
      let fits =
        apply_optional-Within (of_tier V F core cs) (of_tier V F relevant cs) budget runtime limit
          (run.picked, excluded) run.taken low run.optional in
      elim fits [
        | inl e ↦ absurd (some_selected (run.reports.selected ∙ ap (map (selected_item V F)) e))
        | inr (n, cost, le) ↦ subst (λ x. x ≤ limit) (ok-injective (sym cost ∙ run.reports.cost)) le
      ]

  -- Under an effective total of at least the receipt's reserve, an answer without overflow that
  -- selects something uses at most that total, the reserve included.
  pub apply-total :
      (cs : Candidates V F) (budget : ContextBudget) (runtime : RuntimeBudget)
      (excluded : List ExcludedCoordinate) (b : Budgeted) (t : ℕ)
      → effective_total budget runtime.tokens ≡ some t
      → reserve_of budget (some t) ≤ t
      → apply V F render tokens max cs budget runtime excluded ≡ ok b
      → b.required_overflow ≡ 0
      → b.selected ≢ []
      → b.usage.total ≤ t
  apply-total cs budget runtime excluded b t e small h zero some_selected =
      let content =
        subst (λ o. b.usage.content ≤ content_limit_of V F render tokens max budget o) e
          (apply-content_limit cs budget runtime excluded b h zero some_selected) in
      let whole =
        subst
          (λ o.
            b.usage.total
            ≡ saturating_add V F render tokens max b.usage.content (reserve_of budget o))
          e (apply-Run cs budget runtime excluded b h zero).reports.total in
      ground arith
