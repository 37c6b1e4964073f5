-- ===== src/Context/Sifting.antt =====
-- src/context/retrieval.rs: what the loop over the records does with each of them.
use mathlib.Core.Path.{subst}
use mathlib.Core.List.{map-append}
use equill.Base.{
  ℕ, ◌+◌, String, ◌≡◌, refl, sym, ap, ◌∙◌, inl, inr, true, Option, none, some, List, [], ◌∷◌, ◌++◌,
  nat_eq, string_eq, map, All, lookup, arith, Bool-cases,
}
use equill.Kernel.Error.{ok, >>=-eq-ok, ok-injective}
use equill.Json.{Json}
use equill.Json.Tree.{Tree}
use equill.Context.Model.{
  Tier, Strategy, Candidate, ExclusionReason, filter_mismatch, selector_mismatch,
  ExcludedCoordinate, Selector,
}
use equill.Context.Matching.{Row, gate, classify}
use equill.Context.Gate.{IsAdmitted, gate-IsAdmitted}
use equill.Context.Shares.{times, times-append, excluded_ids, candidate_ids}
use equill.Context.Retrieval.{
  Numbers, Question, Sifted, exclusion, include, passes, candidate_of, classify_row, judge,
  sift_one, sift,
}

pub All-snoc {ℓ κ} :
    {A : Type ℓ} (P : A → Type κ) (xs : List A) (x : A) → All P xs → P x → All P (xs ++ x ∷ [])
All-snoc P [] x h p = (p, tt)
All-snoc P (y ∷ xs) x h p = (h.0, All-snoc P xs x h.1 p)

pub times-snoc {ℓ} :
    {A : Type ℓ} (f : A → ℕ) (id : ℕ) (xs : List A) (x : A)
    → times id (map f (xs ++ x ∷ [])) ≡ times id (map f xs) + times id (f x ∷ [])
times-snoc f id xs x =
    ap (times id) (map-append f xs (x ∷ [])) ∙ times-append id (map f xs) (f x ∷ [])

pub times-cons : (id x : ℕ) (xs : List ℕ) → times id (x ∷ xs) ≡ times id (x ∷ []) + times id xs
unfolding times
times-cons id x xs = ground arith

module _ (j : Json) (lower : String → String) (parse : String → Option ℕ) where
  open j use {Value}

  module _ (arms : Value → Tree) (uuid : ℕ → String) (numbers : Numbers Value) where
    open numbers use {F}

    abbrev Rows : Type 0
    Rows = List (Row j lower parse)

    abbrev Asked : Type 0
    Asked = Question j lower parse arms uuid numbers

    abbrev Lists : Type 0
    Lists = Sifted j lower parse arms uuid numbers

    -- what a candidate has behind it
    pub record IsCandidate (q : Asked) (c : Candidate Value F) : Type 0 where
      pub filtered : passes j lower parse arms uuid numbers q.filter c.stored ≡ true
      pub admitted : IsAdmitted j lower parse c.stored q.profile q.selectors q.request q.at q.hidden
      pub selector : Selector
      pub typed : lookup c.stored.type_name q.selectors ≡ some selector
      pub classified :
          classify j lower parse c.stored selector q.request q.hits.fts q.hits.semantic
          ≡ some (c.tier, c.strategies)

    -- the record became the last candidate, or the last exclusion
    pub data Places (q : Asked) (r : Row j lower parse) (before after : Lists) : Type 0 where
      placed :
          (c : Candidate Value F)
          → c.stored ≡ r
          → IsCandidate q c
          → after ≡ (before.0 ++ c ∷ [], before.1)
          → Places q r before after
      dropped :
          (reason : ExclusionReason)
          → after ≡ (before.0, before.1 ++ exclusion j lower parse r reason ∷ [])
          → Places q r before after

    classify_row-Places :
        (q : Asked) (r : Row j lower parse) (selector : Selector)
        (o : Option (Tier × List Strategy)) (before after : Lists)
        → passes j lower parse arms uuid numbers q.filter r ≡ true
        → IsAdmitted j lower parse r q.profile q.selectors q.request q.at q.hidden
        → lookup r.type_name q.selectors ≡ some selector
        → classify j lower parse r selector q.request q.hits.fts q.hits.semantic ≡ o
        → include j lower parse arms uuid numbers r selector q.hits o before ≡ after
        → Places q r before after
    unfolding candidate_of
    classify_row-Places q r selector none before after f a t e h = dropped selector_mismatch (sym h)
    classify_row-Places q r selector (some (tier, matched)) before after f a t e h =
        placed (candidate_of j lower parse arms uuid numbers r selector q.hits tier matched) refl
          (record { filtered = f; admitted = a; selector = selector; typed = t; classified = e })
          (sym h)

    judge-Places :
        (q : Asked) (r : Row j lower parse) (o : Option ExclusionReason) (before after : Lists)
        → passes j lower parse arms uuid numbers q.filter r ≡ true
        → gate j lower parse r q.profile q.selectors q.request q.at q.hidden ≡ ok o
        → judge j lower parse arms uuid numbers q r o before ≡ ok after
        → Places q r before after
    judge-Places q r (some reason) before after f g h = dropped reason (sym (ok-injective h))
    judge-Places q r none before after f g h =
        let admitted =
          gate-IsAdmitted j lower parse r q.profile q.selectors q.request q.at q.hidden g in
        let reached : classify_row j lower parse arms uuid numbers q r (some admitted.selector)
              before
            ≡ ok after =
          rw admitted.typed at h in
        classify_row-Places q r admitted.selector _ before after f admitted admitted.typed refl
          (ok-injective reached)

    sift_one-Places :
        (q : Asked) (r : Row j lower parse) (before after : Lists)
        → sift_one j lower parse arms uuid numbers q r before ≡ ok after
        → Places q r before after
    unfolding sift_one
    sift_one-Places q r before after h =
        elim (Bool-cases (passes j lower parse arms uuid numbers q.filter r)) [
          | inl p ↦
              let through = rw p at h in
              let (o, gated, judged) =
                >>=-eq-ok (gate j lower parse r q.profile q.selectors q.request q.at q.hidden) _
                  through in
              judge-Places q r o before after p gated judged
          | inr p ↦ dropped filter_mismatch (sym (ok-injective (rw p at h)))
        ]

    -- how often an id stands among the candidates and the exclusions
    abbrev pub share : ℕ → Lists → ℕ
    share id lists = times id (candidate_ids lists.0) + times id (excluded_ids lists.1)

    Places-share :
        (q : Asked) (r : Row j lower parse) (before after : Lists) (id : ℕ)
        → Places q r before after
        → share id after ≡ share id before + times id (r.id ∷ [])
    Places-share q r before after id (placed c same is e) =
        let one = times-snoc (λ (c : Candidate Value F). c.stored.id) id before.0 c in
        let named = ap (λ (r : Row j lower parse). times id (r.id ∷ [])) same in
        let counted = ap (share id) e in omega arith
    Places-share q r before after id (dropped reason e) =
        let one =
          times-snoc (λ (x : ExcludedCoordinate). x.id) id before.1
            (exclusion j lower parse r reason) in
        let counted = ap (share id) e in omega arith

    pub sift-share :
        (q : Asked) (rows : Rows) (before after : Lists) (id : ℕ)
        → sift j lower parse arms uuid numbers q rows before ≡ ok after
        → share id after ≡ share id before + times id (map (λ r. r.id) rows)
    unfolding sift
    sift-share q [] before after id h =
        let same = ap (share id) (ok-injective h) in
        let none_left : times id [] ≡ 0 = unfold times in refl in omega arith
    sift-share q (r ∷ rows) before after id h =
        let (next, one, rest) =
          >>=-eq-ok (sift_one j lower parse arms uuid numbers q r before) _ h in
        let step = Places-share q r before next id (sift_one-Places q r before next one) in
        let later = sift-share q rows next after id rest in
        let front = times-cons id r.id (map (λ (r : Row j lower parse). r.id) rows) in omega arith

    Places-All :
        (q : Asked) (r : Row j lower parse) (before after : Lists)
        → All (IsCandidate q) before.0
        → Places q r before after
        → All (IsCandidate q) after.0
    Places-All q r before after h (placed c same is e) =
        subst (λ (l : Lists). All (IsCandidate q) l.0) (sym e)
          (All-snoc (IsCandidate q) before.0 c h is)
    Places-All q r before after h (dropped reason e) =
        subst (λ (l : Lists). All (IsCandidate q) l.0) (sym e) h

    pub sift-All :
        (q : Asked) (rows : Rows) (before after : Lists)
        → All (IsCandidate q) before.0
        → sift j lower parse arms uuid numbers q rows before ≡ ok after
        → All (IsCandidate q) after.0
    unfolding sift
    sift-All q [] before after a h =
        subst (λ (l : Lists). All (IsCandidate q) l.0) (ok-injective h) a
    sift-All q (r ∷ rows) before after a h =
        let (next, one, rest) =
          >>=-eq-ok (sift_one j lower parse arms uuid numbers q r before) _ h in
        sift-All q rows next after
          (Places-All q r before next a (sift_one-Places q r before next one)) rest
