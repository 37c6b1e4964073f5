-- ===== src/Context/Accounts.antt =====
-- src/context/budget.rs: the budgeted answer accounts for every candidate.
use mathlib.Core.Path.{subst}
use mathlib.Core.List.{append_assoc, map-append}
use equill.Base.{
  ℕ, ◌+◌, ◌≤◌, String, ◌≡◌, refl, sym, ap, ◌∙◌, Bool, true, false, Option, some, suc, List, [], ◌∷◌,
  ◌++◌, nat_eq, map, arith, length, filter, if◌then◌else◌,
}
use equill.Kernel.Error.{Result, ok, >>=-eq-ok, >>-eq-ok, refuse, refuse-eq-ok}
use equill.Record.{StoredRecord}
use equill.Context.Model.{
  Candidate, Tier, required, core, relevant, is_tier, ContextBudget, RuntimeBudget,
  ExcludedCoordinate, SelectedCoordinate, Picked, Budgeted, core_cap, total_budget,
}
use equill.Context.Budget.{
  validate, prospective_total, push_all, take, Taken, Candidates, of_tier, sort_by_id, insert_by_id,
  apply, apply_optional, apply_fitting, over_limit, selected_item,
}
use equill.Context.Fits.{apply-Run, finish-Reports}
use equill.Context.Shares.{
  times, times-append, excluded_ids, candidate_ids, picked_ids, take-grows, take-length, take-times,
  push_all-grows,
}

times-insert_by_id :
    (id : ℕ) (x : ExcludedCoordinate) (xs : List ExcludedCoordinate)
    → times id (excluded_ids (insert_by_id x xs)) ≡ times id (x.id ∷ excluded_ids xs)
unfolding times insert_by_id
times-insert_by_id id x [] = refl
times-insert_by_id id x (y ∷ ys) = ground (arith, times-insert_by_id id x ys)

pub times-sort_by_id :
    (id : ℕ) (xs : List ExcludedCoordinate)
    → times id (excluded_ids (sort_by_id xs)) ≡ times id (excluded_ids xs)
unfolding times sort_by_id
times-sort_by_id id [] = refl
times-sort_by_id id (x ∷ xs) =
    ground (arith, times-insert_by_id id x (sort_by_id xs), times-sort_by_id id xs)

times-none : (id : ℕ) → times id [] ≡ 0
unfolding times
times-none id = refl

share : Bool → ℕ → ℕ
share true n = n
share false n = 0

one_share :
    (t : Tier) (n : ℕ)
    → share (is_tier t required) n + share (is_tier t core) n + share (is_tier t relevant) n ≡ n
unfolding share
one_share required n = omega arith
one_share core n = omega arith
one_share relevant n = omega arith

length-map : {A B : Type 0} (f : A → B) (xs : List A) → length (map f xs) ≡ length xs
length-map f [] = refl
length-map f (x ∷ xs) = ap suc (length-map f xs)

module _ {V F : Type 0} where
  abbrev candidates_of : List (Picked V F) → Candidates V F
  candidates_of p = map (λ (item : Picked V F). item.candidate) p

  ids_of_picked : (p : List (Picked V F)) → picked_ids p ≡ candidate_ids (candidates_of p)
  ids_of_picked [] = refl
  ids_of_picked (x ∷ p) = ap (λ r. x.candidate.stored.id ∷ r) (ids_of_picked p)

  times-if :
      (id : ℕ) (c : Candidate V F) (cs : Candidates V F) (b : Bool)
      → times id (candidate_ids (if b then c ∷ cs else cs))
        ≡ share b (times id (c.stored.id ∷ [])) + times id (candidate_ids cs)
  unfolding share
  times-if id c cs true = times-append id (c.stored.id ∷ []) (candidate_ids cs)
  times-if id c cs false = omega arith

  times-tiers :
      (id : ℕ) (cs : Candidates V F)
      → times id (candidate_ids (of_tier V F required cs))
          + times id (candidate_ids (of_tier V F core cs))
          + times id (candidate_ids (of_tier V F relevant cs))
        ≡ times id (candidate_ids cs)
  unfolding of_tier filter
  times-tiers id [] = ground (arith, times-none id)
  times-tiers id (c ∷ cs) =
      let r = times-if id c (of_tier V F required cs) (is_tier c.tier required) in
      let k = times-if id c (of_tier V F core cs) (is_tier c.tier core) in
      let v = times-if id c (of_tier V F relevant cs) (is_tier c.tier relevant) in
      let one = one_share c.tier (times id (c.stored.id ∷ [])) in
      let split = times-append id (c.stored.id ∷ []) (candidate_ids cs) in
      let ih = times-tiers id cs in omega arith

  selected_ids :
      (p : List (Picked V F))
      → map (λ (x : SelectedCoordinate). x.id) (map (selected_item V F) p) ≡ picked_ids p
  selected_ids [] = refl
  selected_ids (x ∷ p) = ap (λ r. x.candidate.stored.id ∷ r) (selected_ids p)

  length_of_selected :
      (xs : List SelectedCoordinate) (p : List (Picked V F))
      → xs ≡ map (selected_item V F) p
      → length xs ≡ length p
  length_of_selected xs p e = ap length e ∙ length-map (selected_item V F) p

module _ {V F : Type 0} (render : List (StoredRecord V) → Result String) (tokens : String → ℕ)
    (max : ℕ) where
  -- the two loops of `take`
  apply_optional-loops :
      (cs ds : Candidates V F) (budget : ContextBudget) (runtime : RuntimeBudget) (limit needed : ℕ)
      (t u : Taken V F)
      → apply_optional V F render tokens max cs ds budget runtime limit needed t ≡ ok u
      → (mid : Taken V F) × (low : ℕ) × (take V F render tokens max cs low t core_cap
            runtime.records budget.tokenizer
          ≡ ok mid)
        × (take V F render tokens max ds limit mid total_budget runtime.records budget.tokenizer
            ≡ ok u)
  unfolding apply_optional
  apply_optional-loops cs ds budget runtime limit needed (p, e) u h =
      let (whole, _, rest) =
        >>=-eq-ok (prospective_total V F render tokens max p ds budget.tokenizer) _ h in
      let (mid, first, last) =
        >>=-eq-ok (take V F render tokens max cs _ (p, e) core_cap runtime.records budget.tokenizer)
          _ rest in
      (mid, _, first, last)

  -- In an answer without overflow, every id stands in the selected and the excluded coordinates
  -- together as often as in the candidates and the earlier exclusions together.
  pub apply-times :
      (cs : Candidates V F) (budget : ContextBudget) (runtime : RuntimeBudget)
      (excluded : List ExcludedCoordinate) (b : Budgeted) (id : ℕ)
      → apply V F render tokens max cs budget runtime excluded ≡ ok b
      → b.required_overflow ≡ 0
      → times id (map (λ (x : SelectedCoordinate). x.id) b.selected)
          + times id (excluded_ids b.excluded)
        ≡ times id (candidate_ids cs) + times id (excluded_ids excluded)
  apply-times cs budget runtime excluded b id h zero =
      let run = apply-Run render tokens max cs budget runtime excluded b h zero in
      let (mid, low, first, last) =
        apply_optional-loops _ _ budget runtime _ _ (run.picked, excluded) run.taken run.optional in
      let one =
        take-times render tokens max _ low (run.picked, excluded) mid core_cap runtime.records
          budget.tokenizer id first in
      let two =
        take-times render tokens max _ _ mid run.taken total_budget runtime.records budget.tokenizer
          id last in
      let start =
        push_all-grows render tokens max (of_tier V F required cs) [] run.picked budget.tokenizer
          run.required_picked in
      let all = ap (times id) (ids_of_picked run.picked ∙ ap candidate_ids start) in
      let tiers = times-tiers id cs in
      let chosen = ap (times id) (
        ap (map (λ (x : SelectedCoordinate). x.id)) run.reports.selected
        ∙ selected_ids run.taken.0) in
      let sorted =
        ap (λ xs. times id (excluded_ids xs)) run.reports.excluded
        ∙ times-sort_by_id id run.taken.1 in
      omega arith

  -- In an answer without overflow, the required candidates come first, in order, and none is left out.
  pub apply-required :
      (cs : Candidates V F) (budget : ContextBudget) (runtime : RuntimeBudget)
      (excluded : List ExcludedCoordinate) (b : Budgeted)
      → apply V F render tokens max cs budget runtime excluded ≡ ok b
      → b.required_overflow ≡ 0
      → (more : List ℕ) × (map (λ (x : SelectedCoordinate). x.id) b.selected
          ≡ candidate_ids (of_tier V F required cs) ++ more)
  apply-required cs budget runtime excluded b h zero =
      let run = apply-Run render tokens max cs budget runtime excluded b h zero in
      let (mid, low, first, last) =
        apply_optional-loops _ _ budget runtime _ _ (run.picked, excluded) run.taken run.optional in
      let (m, one) =
        take-grows render tokens max _ low (run.picked, excluded) mid core_cap runtime.records
          budget.tokenizer first in
      let (n, two) =
        take-grows render tokens max _ _ mid run.taken total_budget runtime.records budget.tokenizer
          last in
      let start =
        push_all-grows render tokens max (of_tier V F required cs) [] run.picked budget.tokenizer
          run.required_picked in
      let grown : run.taken.0 ≡ run.picked ++ (m ++ n) =
        two ∙ ap (λ p. p ++ n) one ∙ append_assoc run.picked m n in
      (
        picked_ids (m ++ n),
        ap (map (λ (x : SelectedCoordinate). x.id)) run.reports.selected
            ∙ selected_ids run.taken.0
            ∙ ap picked_ids grown
            ∙ map-append (λ (x : Picked V F). x.candidate.stored.id) run.picked (m ++ n)
            ∙ ap (λ xs. xs ++ picked_ids (m ++ n))
                (ids_of_picked run.picked ∙ ap candidate_ids start),
      )

  fitting-length :
      (cs : Candidates V F) (budget : ContextBudget) (runtime : RuntimeBudget)
      (effective : Option ℕ) (excluded : List ExcludedCoordinate) (b : Budgeted)
      (p : List (Picked V F)) (over : Bool) (n : ℕ)
      → runtime.records ≡ some n
      → length p ≤ n
      → apply_fitting V F render tokens max cs budget runtime effective p excluded over ≡ ok b
      → length b.selected ≤ n
  fitting-length cs budget runtime effective excluded b p true n limit le h =
      let r = finish-Reports render tokens max _ budget _ _ _ _ _ b h in
      omega (arith, length_of_selected b.selected p r.selected)
  fitting-length cs budget runtime effective excluded b p false n limit le h =
      let (taken, opt, done) =
        >>=-eq-ok (apply_optional V F render tokens max _ _ budget runtime _ _ (p, excluded)) _ h in
      let r = finish-Reports render tokens max taken budget _ _ _ _ _ b done in
      let (mid, low, first, last) =
        apply_optional-loops _ _ budget runtime _ _ (p, excluded) taken opt in
      let one =
        take-length render tokens max _ low n (p, excluded) mid core_cap budget.tokenizer le
          (rw limit at first) in
      let two =
        take-length render tokens max _ _ n mid taken total_budget budget.tokenizer one
          (rw limit at last) in
      omega (arith, length_of_selected b.selected taken.0 r.selected)

  -- An answer, with overflow or without, selects at most as many records as the runtime allows.
  pub apply-record_limit :
      (cs : Candidates V F) (budget : ContextBudget) (runtime : RuntimeBudget)
      (excluded : List ExcludedCoordinate) (b : Budgeted) (n : ℕ)
      → runtime.records ≡ some n
      → apply V F render tokens max cs budget runtime excluded ≡ ok b
      → length b.selected ≤ n
  unfolding apply
  apply-record_limit cs budget runtime excluded b n limit h =
      let (_, h1) = >>-eq-ok (validate budget.tokenizer) _ h in
      let (checked, h2) =
        >>-eq-ok (refuse (over_limit runtime.records (length (of_tier V F required cs))) _) _ h1 in
      let (p, pushed, h3) =
        >>=-eq-ok (push_all V F render tokens max (of_tier V F required cs) [] budget.tokenizer) _
          h2 in
      let start =
        push_all-grows render tokens max (of_tier V F required cs) [] p budget.tokenizer pushed in
      let room =
        subst (λ o. over_limit o (length (of_tier V F required cs)) ≡ false) limit
          (refuse-eq-ok _ _ checked) in
      let few : length p ≡ length (of_tier V F required cs) =
        sym (length-map (λ (x : Picked V F). x.candidate) p) ∙ ap length start in
      fitting-length cs budget runtime _ excluded b p _ n limit (ground arith) h3
