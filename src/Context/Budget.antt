-- ===== src/Context/Budget.antt =====
-- src/context/budget.rs, its report, src/context/model/budget.rs and src/context/tokenizer.rs: the
-- candidates that fit a budget. Rendering, the tokenizer and the width of `usize` are parameters.
use equill.Base.{
  ℕ, ◌+◌, ◌-◌, String, Bool, true, false, ◌||◌, not, Option, none, some, List, [], ◌∷◌, ◌++◌, map,
  length, filter, any, ltb, leb, if◌then◌else◌,
}
use equill.Kernel.Error.{context, Result, ok, ◌>>=◌, ◌>>◌, refuse}
use equill.Record.{StoredRecord}
use equill.Context.Model.{
  Tier, required, core, relevant, is_tier, is_vector, is_fts, Candidate, TokenizerCoordinate,
  default_tokenizer, same_tokenizer, ContextBudget, RuntimeBudget, ExclusionReason,
  required_overflow, core_cap, total_budget, record_budget, ExcludedCoordinate, SelectedCoordinate,
  Picked, Budgeted,
}

abbrev pub unwrap_or {ℓ} : {A : Type ℓ} → Option A → A → A
unwrap_or none d = d
unwrap_or (some a) d = a

abbrev pub min : ℕ → ℕ → ℕ
min a b = if leb a b then a else b

unfoldable pub effective_total : ContextBudget → Option ℕ → Option ℕ
effective_total budget runtime = elim budget.total [
  | none ↦ runtime
  | some profile ↦ elim runtime [ none ↦ some profile | some limit ↦ some (min profile limit) ]
]

-- the tokens set aside for the receipt, under an effective total
abbrev pub reserve_of : ContextBudget → Option ℕ → ℕ
reserve_of budget none = 0
reserve_of budget (some total) = unwrap_or budget.receipt_reserve 0

unfoldable pub validate : TokenizerCoordinate → Result (Unit {0})
validate coordinate =
    refuse (not (same_tokenizer coordinate default_tokenizer))
      (context "unsupported context tokenizer {}@{}; expected {}@{}")

-- the reasons that degrade an answer
abbrev pub is_budget_reason : ExclusionReason → Bool
is_budget_reason required_overflow = true
is_budget_reason core_cap = true
is_budget_reason total_budget = true
is_budget_reason record_budget = true
is_budget_reason _ = false

-- `sort_by_key(|item| item.id)`, which is stable
unfoldable pub insert_by_id : ExcludedCoordinate → List ExcludedCoordinate → List ExcludedCoordinate
insert_by_id item [] = item ∷ []
insert_by_id item (first ∷ rest) =
    let later = insert_by_id item rest in
    if leb item.id first.id then item ∷ first ∷ rest else first ∷ later

unfoldable pub sort_by_id : List ExcludedCoordinate → List ExcludedCoordinate
sort_by_id [] = []
sort_by_id (item ∷ rest) = insert_by_id item (sort_by_id rest)

abbrev pub at_limit : Option ℕ → ℕ → Bool
at_limit none count = false
at_limit (some limit) count = leb limit count

abbrev pub over_limit : Option ℕ → ℕ → Bool
over_limit none count = false
over_limit (some limit) count = ltb limit count

module _ (V F : Type 0) where
  abbrev pub Candidates : Type 0
  Candidates = List (Candidate V F)

  unfoldable pub of_tier : Tier → Candidates → Candidates
  of_tier tier candidates = filter (λ c. is_tier c.tier tier) candidates

  abbrev pub excluded_candidate : Candidate V F → ExclusionReason → ExcludedCoordinate
  excluded_candidate c reason = record {
    id = c.stored.id;
    namespace = c.stored.namespace;
    type_name = c.stored.type_name;
    reason = reason;
  }

  abbrev pub excluded_item : Picked V F → ExclusionReason → ExcludedCoordinate
  excluded_item item reason = excluded_candidate item.candidate reason

  abbrev pub selected_item : Picked V F → SelectedCoordinate
  selected_item item = record {
    id = item.candidate.stored.id;
    namespace = item.candidate.stored.namespace;
    type_name = item.candidate.stored.type_name;
    tier = item.candidate.tier;
    tokens = item.tokens;
    strategies = item.candidate.strategies;
  }

  unfoldable pub total : List (Picked V F) → ℕ
  total [] = 0
  total (item ∷ rest) = item.tokens + total rest

  abbrev pub rows : List (Picked V F) → List (StoredRecord V)
  rows picked = map (λ item. item.candidate.stored) picked

  abbrev pub tier_tokens : List (Picked V F) → Tier → ℕ
  tier_tokens picked tier = total (filter (λ item. is_tier item.candidate.tier tier) picked)

  -- what the loops of `take` change: the picked items and the exclusions
  abbrev pub Taken : Type 0
  Taken = List (Picked V F) × List ExcludedCoordinate

  -- `render`, tiktoken's `count_ordinary`, and `usize::MAX`
  module _ (render : List (StoredRecord V) → Result String) (tokens : String → ℕ) (max : ℕ) where
    abbrev pub saturating_add : ℕ → ℕ → ℕ
    saturating_add a b = min (a + b) max

    unfoldable pub count : String → TokenizerCoordinate → Result ℕ
    unfolding validate
    count text coordinate = do validate coordinate; ok (tokens text)

    unfoldable pub prospective_total :
        List (Picked V F) → Candidates → TokenizerCoordinate → Result ℕ
    unfolding count
    prospective_total picked additions tokenizer = do
      content ← render (rows picked ++ map (λ c. c.stored) additions)
      count content tokenizer

    unfoldable pub push :
        Candidate V F → List (Picked V F) → TokenizerCoordinate → Result (List (Picked V F))
    unfolding prospective_total total
    push c picked tokenizer = do
      after ← prospective_total picked (c ∷ []) tokenizer
      ok (picked ++ record { candidate = c; tokens = after - total picked } ∷ [])

    unfoldable pub push_all :
        Candidates → List (Picked V F) → TokenizerCoordinate → Result (List (Picked V F))
    unfolding push
    push_all [] picked tokenizer = ok picked
    push_all (c ∷ rest) picked tokenizer = do
      next ← push c picked tokenizer
      push_all rest next tokenizer

    abbrev pub take_fitting :
        Candidate V F → Taken → ExclusionReason → TokenizerCoordinate → Bool → Result Taken
    take_fitting c (picked, excluded) reason tokenizer true =
        push c picked tokenizer >>= λ next. ok (next, excluded)
    take_fitting c (picked, excluded) reason tokenizer false =
        ok (picked, excluded ++ excluded_candidate c reason ∷ [])

    abbrev pub take_below :
        Candidate V F → ℕ → Taken → ExclusionReason → TokenizerCoordinate → Bool → Result Taken
    take_below c limit (picked, excluded) reason tokenizer true =
        ok (picked, excluded ++ excluded_candidate c record_budget ∷ [])
    take_below c limit (picked, excluded) reason tokenizer false =
        prospective_total picked (c ∷ []) tokenizer >>= λ next.
        take_fitting c (picked, excluded) reason tokenizer (leb next limit)

    -- one round of the loop of `take`
    unfoldable pub take_one :
        Candidate V F → ℕ → Taken → ExclusionReason → Option ℕ → TokenizerCoordinate → Result Taken
    unfolding prospective_total push
    take_one c limit taken reason record_limit tokenizer =
        take_below c limit taken reason tokenizer (at_limit record_limit (length taken.0))

    unfoldable pub take :
        Candidates → ℕ → Taken → ExclusionReason → Option ℕ → TokenizerCoordinate → Result Taken
    unfolding take_one
    take [] limit taken reason record_limit tokenizer = ok taken
    take (c ∷ rest) limit taken reason record_limit tokenizer = do
      next ← take_one c limit taken reason record_limit tokenizer
      take rest limit next reason record_limit tokenizer

    unfoldable pub finish : Taken → ContextBudget → ℕ → ℕ → ℕ → Option ℕ → ℕ → Result Budgeted
    unfolding count sort_by_id total
    finish (picked, excluded) budget limit needed overflow effective reserve = do
      let sorted = sort_by_id excluded
      content ← render (rows picked)
      content_tokens ← count content budget.tokenizer
      ok (record {
        content = content;
        required_limit = limit;
        required_needed = needed;
        selected = map selected_item picked;
        excluded = sorted;
        usage = record {
          required = tier_tokens picked required;
          core = tier_tokens picked core;
          relevant = tier_tokens picked relevant;
          content = content_tokens;
          receipt_reserved = reserve;
          total = saturating_add content_tokens reserve;
        };
        degraded = ltb 0 overflow || any (λ item. is_budget_reason item.reason) sorted;
        required_overflow = overflow;
        effective_total = effective;
        vector_selected_records = length (filter (λ item. is_vector item.candidate.source) picked);
        fts_selected_records = length (filter (λ item. is_fts item.candidate.source) picked);
      })

    -- the part of `apply` that follows the required tier, when that fits
    unfoldable pub apply_optional :
        Candidates → Candidates → ContextBudget → RuntimeBudget → ℕ → ℕ → Taken → Result Taken
    unfolding take total prospective_total
    apply_optional cores relevants budget runtime content_limit needed (picked, excluded) = do
      whole ← prospective_total picked relevants budget.tokenizer
      let protected =
          min (min (unwrap_or budget.relevant_floor 0) (whole - needed)) (content_limit - needed)
      let core_limit =
          min (saturating_add needed (unwrap_or budget.core_cap max)) (content_limit - protected)
      first ← take cores core_limit (picked, excluded) core_cap runtime.records budget.tokenizer
      take relevants content_limit first total_budget runtime.records budget.tokenizer

    abbrev pub content_limit_of : ContextBudget → Option ℕ → ℕ
    content_limit_of budget none = max
    content_limit_of budget (some t) = t - reserve_of budget (some t)

    abbrev pub required_limit_of : ContextBudget → Option ℕ → ℕ
    required_limit_of budget effective =
        min (unwrap_or budget.required_cap max) (content_limit_of budget effective)

    abbrev pub apply_fitting :
        Candidates
        → ContextBudget
        → RuntimeBudget
        → Option ℕ
        → List (Picked V F)
        → List ExcludedCoordinate
        → Bool
        → Result Budgeted
    apply_fitting candidates budget runtime effective picked excluded true =
        finish (picked, excluded ++ map (λ item. excluded_item item required_overflow) picked)
          budget (required_limit_of budget effective) (total picked)
          (length (of_tier required candidates)) effective (reserve_of budget effective)
    apply_fitting candidates budget runtime effective picked excluded false =
        apply_optional (of_tier core candidates) (of_tier relevant candidates) budget runtime
          (content_limit_of budget effective) (total picked) (picked, excluded)
        >>= λ taken.
            finish taken budget (required_limit_of budget effective) (total picked) 0 effective
              (reserve_of budget effective)

    unfoldable pub apply :
        Candidates → ContextBudget → RuntimeBudget → List ExcludedCoordinate → Result Budgeted
    unfolding validate effective_total of_tier push_all total finish apply_optional
    apply candidates budget runtime excluded = do
      validate budget.tokenizer
      refuse (over_limit runtime.records (length (of_tier required candidates)))
          (context "CONTEXT_REQUIRED_OVERFLOW: required context needs {} records")
      picked ← push_all (of_tier required candidates) [] budget.tokenizer
      let effective = effective_total budget runtime.tokens
      apply_fitting candidates budget runtime effective picked excluded
          (ltb (required_limit_of budget effective) (total picked))
