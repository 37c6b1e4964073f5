-- ===== src/Context/Chosen.antt =====
-- src/context/budget.rs: what holds of every candidate holds of every picked item.
use mathlib.Core.Path.{subst}
use equill.Base.{
  ℕ, String, ◌≡◌, sym, inl, inr, Bool, Option, List, [], ◌∷◌, ◌++◌, filter, All, Bool-cases,
}
use equill.Kernel.Error.{Result, ok, >>=-eq-ok, ok-injective}
use equill.Record.{StoredRecord}
use equill.Context.Model.{
  required, core, relevant, Candidate, TokenizerCoordinate, ContextBudget, RuntimeBudget,
  ExclusionReason, ExcludedCoordinate, Picked, Budgeted, core_cap, total_budget,
}
use equill.Context.Budget.{
  Candidates, Taken, of_tier, prospective_total, push, push_all, take_one, take, apply_optional,
}
use equill.Context.Shares.{push-snoc, take_one-cases}
use equill.Context.Fits.{Run}
use equill.Context.Sifting.{All-snoc}

pub All-filter {ℓ κ} :
    {A : Type ℓ} (P : A → Type κ) (test : A → Bool) (xs : List A)
    → All P xs
    → All P (filter test xs)
unfolding filter
All-filter P test [] h = tt
All-filter P test (x ∷ xs) h = elim (Bool-cases (test x)) [
  | inl p ↦ rw p (h.0, All-filter P test xs h.1)
  | inr p ↦ rw p (All-filter P test xs h.1)
]

module _ {V F : Type 0} (render : List (StoredRecord V) → Result String) (tokens : String → ℕ)
    (max : ℕ) (P : Candidate V F → Type 0) where
  abbrev Own : Picked V F → Type 0
  Own item = P item.candidate

  Own-snoc :
      (c : Candidate V F) (p q : List (Picked V F)) (item : Picked V F)
      → item.candidate ≡ c
      → q ≡ p ++ item ∷ []
      → P c
      → All Own p
      → All Own q
  Own-snoc c p q item own last h a =
      subst (All Own) (sym last) (All-snoc Own p item a (subst P (sym own) h))

  push_all-Own :
      (cs : Candidates V F) (p q : List (Picked V F)) (tk : TokenizerCoordinate)
      → All P cs
      → All Own p
      → push_all V F render tokens max cs p tk ≡ ok q
      → All Own q
  unfolding push_all
  push_all-Own [] p q tk c a h = subst (All Own) (ok-injective h) a
  push_all-Own (c ∷ cs) p q tk k a h =
      let (mid, one, rest) = >>=-eq-ok (push V F render tokens max c p tk) _ h in
      let (item, own, last) = push-snoc render tokens max c p mid tk one in
      push_all-Own cs mid q tk k.1 (Own-snoc c p mid item own last k.0 a) rest

  take-Own :
      (cs : Candidates V F) (limit : ℕ) (t u : Taken V F) (reason : ExclusionReason)
      (records : Option ℕ) (tk : TokenizerCoordinate)
      → All P cs
      → All Own t.0
      → take V F render tokens max cs limit t reason records tk ≡ ok u
      → All Own u.0
  unfolding take
  take-Own [] limit t u reason records tk k a h =
      subst (λ (x : Taken V F). All Own x.0) (ok-injective h) a
  take-Own (c ∷ cs) limit t u reason records tk k a h =
      let (mid, one, rest) =
        >>=-eq-ok (take_one V F render tokens max c limit t reason records tk) _ h in
      elim (take_one-cases render tokens max c limit t mid reason records tk one) [
        | inl (item, own, last, _, _) ↦
            take-Own cs limit mid u reason records tk k.1 (Own-snoc c t.0 mid.0 item own last k.0 a)
              rest
        | inr (_, same, _) ↦
            take-Own cs limit mid u reason records tk k.1 (subst (All Own) (sym same) a) rest
      ]

  apply_optional-Own :
      (cs ds : Candidates V F) (budget : ContextBudget) (runtime : RuntimeBudget) (limit needed : ℕ)
      (t u : Taken V F)
      → All P cs
      → All P ds
      → All Own t.0
      → apply_optional V F render tokens max cs ds budget runtime limit needed t ≡ ok u
      → All Own u.0
  unfolding apply_optional
  apply_optional-Own cs ds budget runtime limit needed (p, e) u kc kd a h =
      let (whole, _, rest) =
        >>=-eq-ok (prospective_total V F render tokens max p ds budget.tokenizer) _ h in
      let (mid, first, last) =
        >>=-eq-ok (take V F render tokens max cs _ (p, e) core_cap runtime.records budget.tokenizer)
          _ rest in
      take-Own ds limit mid u total_budget runtime.records budget.tokenizer kd
        (take-Own cs _ (p, e) mid core_cap runtime.records budget.tokenizer kc a first) last

  -- the items behind an answer without overflow
  pub Run-Own :
      (cs : Candidates V F) (budget : ContextBudget) (runtime : RuntimeBudget)
      (excluded : List ExcludedCoordinate) (b : Budgeted)
      (run : Run render tokens max cs budget runtime excluded b)
      → All P cs
      → All Own run.taken.0
  unfolding of_tier
  Run-Own cs budget runtime excluded b run k =
      apply_optional-Own (of_tier V F core cs) (of_tier V F relevant cs) budget runtime _ _
        (run.picked, excluded) run.taken (All-filter P _ cs k) (All-filter P _ cs k)
        (push_all-Own (of_tier V F required cs) [] run.picked budget.tokenizer (All-filter P _ cs k)
          tt run.required_picked)
        run.optional
