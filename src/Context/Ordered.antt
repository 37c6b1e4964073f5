-- ===== src/Context/Ordered.antt =====
-- src/context/retrieval.rs and its fallback.rs: the order of the candidates, and which half of a
-- hybrid search they come from.
use Prim.Native.Nat.{compare, Ordering}
use Prim.Native.Char.{code}
use Prim.Native.String.{String}
use mathlib.Core.Path.{subst}
use equill.Base.{
  ℕ, ◌≡◌, refl, sym, ◌⊎◌, inl, inr, Bool, false, Option, none, some, List, [], ◌∷◌, any, All, arith,
  Bool-cases, sort_by, All-sort_by, IsSorted, sort_by-IsSorted, Antisymmetric, then_with, reverse,
  compare_text, compare_option,
}
use equill.Kernel.Error.{ok}
use equill.Json.{Json}
use equill.Json.Tree.{Tree}
use equill.Vector.Fusion.{Policy}
use equill.Context.Model.{Candidate, Selector}
use equill.Context.Matching.{Row}
use equill.Context.Budget.{Candidates}
use equill.Context.Retrieval.{
  Numbers, Question, Sifted, Found, Cardinality, source_order, tier_place, compare_rank,
  compare_candidates, fall_back, keep_the_first_source_that_answered, select,
}
use equill.Context.Answers.{stands_in, prefers, drain-All, stays}
use equill.Context.Selected.{select-Retrieved}

compare-reverse : (a b : ℕ) → compare b a ≡ reverse (compare a b)
compare-reverse a b = ground arith

then_with-reverse :
    (a b c d : Ordering) → a ≡ reverse b → c ≡ reverse d → then_with a c ≡ reverse (then_with b d)
then_with-reverse a Ordering.lt c d p q = rw p refl
then_with-reverse a Ordering.eq c d p q = rw p q
then_with-reverse a Ordering.gt c d p q = rw p refl

compare_option-reverse : (a b : Option ℕ) → compare_option b a ≡ reverse (compare_option a b)
compare_option-reverse none none = refl
compare_option-reverse none (some b) = refl
compare_option-reverse (some a) none = refl
compare_option-reverse (some a) (some b) = compare-reverse a b

compare_text-reverse : (s t : String) → compare_text t s ≡ reverse (compare_text s t)
unfolding compare_text
compare_text-reverse String.[] String.[] = refl
compare_text-reverse String.[] (String.◌∷◌ d t) = refl
compare_text-reverse (String.◌∷◌ c s) String.[] = refl
compare_text-reverse (String.◌∷◌ c s) (String.◌∷◌ d t) =
    then_with-reverse _ _ _ _ (compare-reverse (code c) (code d)) (compare_text-reverse s t)

all-none {κ} :
    {A : Type κ} (test : A → Bool) (xs : List A)
    → any test xs ≡ false
    → All (λ x. test x ≡ false) xs
unfolding any
all-none test [] h = tt
all-none test (x ∷ xs) h = (ground arith, all-none test xs (ground arith))

module _ (j : Json) (lower : String → String) (parse : String → Option ℕ) where
  open j use {Value}

  module _ (arms : Value → Tree) (uuid : ℕ → String) (numbers : Numbers Value) where
    open numbers use {F, total_cmp}

    abbrev Rows : Type 0
    Rows = List (Row j lower parse)

    abbrev Asked : Type 0
    Asked = Question j lower parse arms uuid numbers

    abbrev Lists : Type 0
    Lists = Sifted j lower parse arms uuid numbers

    compare_rank-reverse :
        Antisymmetric total_cmp
        → (a b : Candidate Value F) (x y : Option F)
        → compare_rank j lower parse arms uuid numbers b a y x
          ≡ reverse (compare_rank j lower parse arms uuid numbers a b x y)
    compare_rank-reverse anti a b none none = compare-reverse b.score a.score
    compare_rank-reverse anti a b none (some y) = refl
    compare_rank-reverse anti a b (some x) none = refl
    compare_rank-reverse anti a b (some x) (some y) = anti y x

    compare_candidates-Antisymmetric :
        (policy : Policy)
        → Antisymmetric total_cmp
        → Antisymmetric (compare_candidates j lower parse arms uuid numbers policy)
    unfolding compare_candidates
    compare_candidates-Antisymmetric policy anti a b =
        then_with-reverse _ _ _ _ (compare-reverse (tier_place a.tier) (tier_place b.tier)) (
          then_with-reverse _ _ _ _
            (compare-reverse (source_order a.source policy) (source_order b.source policy))
            (then_with-reverse _ _ _ _ (compare_option-reverse a.search_rank b.search_rank) (
              then_with-reverse _ _ _ _ (compare_rank-reverse anti a b a.rank b.rank) (
                then_with-reverse _ _ _ _
                  (compare_text-reverse b.stored.observed_at a.stored.observed_at)
                  (compare-reverse a.stored.id b.stored.id)))))

    -- no candidate stands behind one that the comparator puts after it
    pub select-IsSorted :
        (q : Asked) (selectors : List Selector) (cardinality : Cardinality) (policy : Policy)
        (rows : Rows) (result : Lists)
        → Antisymmetric total_cmp
        → select j lower parse arms uuid numbers q selectors cardinality policy rows ≡ ok result
        → IsSorted (compare_candidates j lower parse arms uuid numbers policy) result.0
    select-IsSorted q selectors cardinality policy rows result anti h =
        let run =
          select-Retrieved j lower parse arms uuid numbers q selectors cardinality policy rows
            result h in
        let cmp = compare_candidates j lower parse arms uuid numbers policy in
        subst (λ (cs : Candidates Value F). IsSorted cmp cs) (sym run.candidates)
          (sort_by-IsSorted cmp (compare_candidates-Antisymmetric policy anti) _)

    abbrev pub found_by : Policy → Asked → Found
    found_by policy q = record {
      vector = q.hits.vector;
      fts = q.hits.fts;
      preferred = policy.hybrid_order.0;
    }

    -- no candidate of the one kind, or none of the other
    abbrev pub OneSource : Found → Candidates Value F → Type 0
    OneSource found cs =
        All (λ c. stands_in j lower parse arms uuid numbers found c ≡ false) cs
        ⊎ All (λ c. prefers j lower parse arms uuid numbers found c ≡ false) cs

    OneSource-sort_by :
        (cmp : Candidate Value F → Candidate Value F → Ordering) (found : Found)
        (cs : Candidates Value F)
        → OneSource found cs
        → OneSource found (sort_by cmp cs)
    OneSource-sort_by cmp found cs (inl h) = inl (All-sort_by cmp _ cs h)
    OneSource-sort_by cmp found cs (inr h) = inr (All-sort_by cmp _ cs h)

    fall_back-OneSource :
        (q : Asked) (policy : Policy) (before : Lists)
        → policy.hybrid_fill_remaining ≡ false
        → OneSource
            (found_by policy q)
            (fall_back j lower parse arms uuid numbers policy q.hits before).0
    unfolding keep_the_first_source_that_answered
    fall_back-OneSource q policy (cs, ex) p =
        let found = found_by policy q in
        elim (Bool-cases (any (prefers j lower parse arms uuid numbers found) cs)) [
          | inl r ↦
              rw (p, r)
                (inl (
                  drain-All j lower parse arms uuid numbers
                    (λ c. stands_in j lower parse arms uuid numbers found c ≡ false) found cs
                    ([], ex) (stays j lower parse arms uuid numbers found cs) tt))
          | inr r ↦ rw (p, r) (inr (all-none (prefers j lower parse arms uuid numbers found) cs r))
        ]

    -- Under a policy that does not fill what remains, the candidates that only a hybrid search found
    -- are all from one source: none stands in for the preferred source, or none is from that source.
    pub select-OneSource :
        (q : Asked) (selectors : List Selector) (cardinality : Cardinality) (policy : Policy)
        (rows : Rows) (result : Lists)
        → policy.hybrid_fill_remaining ≡ false
        → select j lower parse arms uuid numbers q selectors cardinality policy rows ≡ ok result
        → OneSource (found_by policy q) result.0
    select-OneSource q selectors cardinality policy rows result p h =
        let run =
          select-Retrieved j lower parse arms uuid numbers q selectors cardinality policy rows
            result h in
        subst (OneSource (found_by policy q)) (sym run.candidates) (
          OneSource-sort_by (compare_candidates j lower parse arms uuid numbers policy)
            (found_by policy q) _ (fall_back-OneSource q policy run.sifted p))
