-- ===== src/Context/Tests.antt =====
-- Runs of the budget on three candidates, whose payloads are rendered one after the other.
use equill.Base.{
  ℕ, ◌+◌, ◌≤◌, String, ◌≡◌, ◌≢◌, refl, sym, ap, ◌∙◌, Bool, true, false, Option, none, some, List,
  [], ◌∷◌, ◌++◌, map, length, leb, ltb, if◌then◌else◌, string_eq, ◌==◌, arith,
}
use equill.Kernel.Error.{Result, ok, err}
use equill.Record.{StoredRecord}
use equill.Context.Model.{
  Candidate, Tier, required, core, relevant, tag, default_tokenizer, ContextBudget, RuntimeBudget,
  ExcludedCoordinate, SelectedCoordinate, Budgeted, unauthorized,
}
use equill.Context.Budget.{apply, Candidates, effective_total, content_limit_of, of_tier}
use equill.Context.Fits.{apply-content_limit, apply-total}
use equill.Context.Shares.{times, excluded_ids, candidate_ids}
use equill.Context.Accounts.{apply-times, apply-required, apply-record_limit}

abbrev piece : ℕ → Tier → Candidate String String
piece id tier = record {
  stored = record {
    id = id;
    namespace = "agent.memory";
    type_name = "note";
    actor = "owner";
    recorded_at = "2026-01-02T00:00:00Z";
    observed_at = "2026-01-02T00:00:00Z";
    valid_at = "2026-01-02T00:00:00Z";
    payload = "word ";
    evidence = [];
    tags = [];
    supersedes = none;
  };
  tier = tier;
  strategies = tag ∷ [];
  score = 0;
  rank = none;
  source = none;
  search_rank = none;
}

abbrev candidates : Candidates String String
candidates = piece 1 relevant ∷ piece 2 required ∷ piece 3 core ∷ piece 4 relevant ∷ []

-- a text of one line for each record
abbrev render : List (StoredRecord String) → Result String
render [] = ok ""
render (r ∷ []) = ok "one"
render (r ∷ s ∷ []) = ok "two"
render (r ∷ s ∷ t ∷ []) = ok "three"
render _ = ok "more"

abbrev tokens : String → ℕ
tokens text =
    if text == "one"
    then 10
    else if text == "two"
    then 20
    else if text == "three"
    then 30
    else if text == "more"
    then 40
    else 0

abbrev budget : ContextBudget
budget = record {
  total = some 40;
  required_cap = some 20;
  core_cap = none;
  relevant_floor = some 5;
  receipt_reserve = some 8;
  tokenizer = default_tokenizer;
}

abbrev runtime : RuntimeBudget
runtime = record { tokens = none; records = some 3 }

abbrev earlier : List ExcludedCoordinate
earlier = record { id = 9; namespace = "other"; type_name = "note"; reason = unauthorized } ∷ []

abbrev result_of : Result Budgeted → Budgeted
result_of (ok b) = b
result_of (err e) = record {
  content = "";
  required_limit = 0;
  required_needed = 0;
  selected = [];
  excluded = [];
  usage = record {
    required = 0;
    core = 0;
    relevant = 0;
    content = 0;
    receipt_reserved = 0;
    total = 0;
  };
  degraded = false;
  required_overflow = 0;
  effective_total = none;
  vector_selected_records = 0;
  fts_selected_records = 0;
}

abbrev answer : Budgeted
answer = result_of (apply String String render tokens 1000 candidates budget runtime earlier)

answered : apply String String render tokens 1000 candidates budget runtime earlier ≡ ok answer
unfolding apply equill.Base.filter
answered = refl

answer_selects : map (λ (x : SelectedCoordinate). x.id) answer.selected ≡ 2 ∷ 3 ∷ 1 ∷ []
unfolding apply equill.Base.filter
answer_selects = refl

no_overflow : answer.required_overflow ≡ 0
unfolding apply equill.Base.filter
no_overflow = refl

abbrev the_ids : List ℕ
the_ids = 2 ∷ 3 ∷ 1 ∷ []

selects : answer.selected ≢ []
selects h =
    let bad : (the_ids ≡ []) = sym answer_selects ∙ ap (map (λ (x : SelectedCoordinate). x.id)) h in
    cc

reserve_fits : 8 ≤ 40
reserve_fits = omega arith

apply-content_limit_example :
    answer.usage.content
    ≤ content_limit_of String String render tokens 1000 budget (effective_total budget none)
apply-content_limit_example =
    apply-content_limit render tokens 1000 candidates budget runtime earlier answer answered
      no_overflow selects

apply-total_example : answer.usage.total ≤ 40
unfolding effective_total
apply-total_example =
    apply-total render tokens 1000 candidates budget runtime earlier answer 40 refl reserve_fits
      answered no_overflow selects

apply-times_example :
    times 4 (map (λ (x : SelectedCoordinate). x.id) answer.selected)
      + times 4 (excluded_ids answer.excluded)
    ≡ times 4 (candidate_ids candidates) + times 4 (excluded_ids earlier)
apply-times_example =
    apply-times render tokens 1000 candidates budget runtime earlier answer 4 answered no_overflow

apply-required_example :
    (more : List ℕ) × (map (λ (x : SelectedCoordinate). x.id) answer.selected
      ≡ candidate_ids (of_tier String String required candidates) ++ more)
apply-required_example =
    apply-required render tokens 1000 candidates budget runtime earlier answer answered no_overflow

apply-record_limit_example : length answer.selected ≤ 3
apply-record_limit_example =
    apply-record_limit render tokens 1000 candidates budget runtime earlier answer 3 refl answered
