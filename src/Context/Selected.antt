-- ===== src/Context/Selected.antt =====
-- src/context/retrieval.rs: `retrieve` as a whole.
use mathlib.Core.Path.{subst}
use equill.Base.{
  ℕ, ◌+◌, String, ◌≡◌, refl, sym, ap, ◌∙◌, Option, List, [], map, All, arith, if◌then◌else◌,
  sort_by, All-sort_by,
}
use equill.Kernel.Error.{ok, >>=-eq-ok, >>-eq-ok, ok-injective}
use equill.Json.{Json}
use equill.Json.Tree.{Tree}
use equill.Vector.Fusion.{Policy}
use equill.Context.Model.{Candidate, ExcludedCoordinate, Selector}
use equill.Context.Matching.{Row}
use equill.Context.Budget.{Candidates, sort_by_id}
use equill.Context.Shares.{times, excluded_ids, candidate_ids}
use equill.Context.Accounts.{times-sort_by_id}
use equill.Context.Retrieval.{
  Numbers, Question, Sifted, Cardinality, is_answering, sift, compare_candidates, require,
  fall_back, select,
}
use equill.Context.Sifting.{IsCandidate, sift-share, sift-All}
use equill.Context.Answers.{times-sort_by, fall_back-share, fall_back-All}

module _ (j : Json) (lower : String → String) (parse : String → Option ℕ) where
  open j use {Value}

  module _ (arms : Value → Tree) (uuid : ℕ → String) (numbers : Numbers Value) where
    open numbers use {F, total_cmp}

    abbrev Rows : Type 0
    Rows = List (Row j lower parse)

    abbrev Asked : Type 0
    Asked = Question j lower parse arms uuid numbers

    abbrev Lists : Type 0
    Lists = Sifted j lower parse arms uuid numbers

    -- the steps of a retrieval that succeeds
    pub record Retrieved (q : Asked) (selectors : List Selector) (cardinality : Cardinality)
        (policy : Policy) (rows : Rows) (result : Lists) : Type 0 where
      pub sifted : Lists
      pub sifts : sift j lower parse arms uuid numbers q rows ([], []) ≡ ok sifted
      pub candidates :
          result.0
          ≡ sort_by
              (compare_candidates j lower parse arms uuid numbers policy)
              (fall_back j lower parse arms uuid numbers policy q.hits sifted).0
      pub excluded :
          result.1 ≡ sort_by_id (fall_back j lower parse arms uuid numbers policy q.hits sifted).1
      pub required :
          (if is_answering cardinality
            then require j lower parse arms uuid numbers result.0 selectors
            else ok tt)
          ≡ ok tt

    pub select-Retrieved :
        (q : Asked) (selectors : List Selector) (cardinality : Cardinality) (policy : Policy)
        (rows : Rows) (result : Lists)
        → select j lower parse arms uuid numbers q selectors cardinality policy rows ≡ ok result
        → Retrieved q selectors cardinality policy rows result
    unfolding select
    select-Retrieved q selectors cardinality policy rows result h =
        let (sifted, sifts, h1) =
          >>=-eq-ok (sift j lower parse arms uuid numbers q rows ([], [])) _ h in
        let kept = fall_back j lower parse arms uuid numbers policy q.hits sifted in
        let candidates =
          sort_by (compare_candidates j lower parse arms uuid numbers policy) kept.0 in
        let (held, h2) =
          >>-eq-ok
            (if is_answering cardinality
              then require j lower parse arms uuid numbers candidates selectors
              else ok tt)
            _ h1 in
        let same = ok-injective h2 in
        record {
          sifted = sifted;
          sifts = sifts;
          candidates = sym (ap (λ (l : Lists). l.0) same);
          excluded = sym (ap (λ (l : Lists). l.1) same);
          required =
              subst
                (λ (cs : Candidates Value F).
                  (if is_answering cardinality
                    then require j lower parse arms uuid numbers cs selectors
                    else ok tt)
                  ≡ ok tt)
                (ap (λ (l : Lists). l.0) same) held;
        }

    -- A retrieval that succeeds loses no record and invents none: an id stands among the candidates
    -- and the exclusions together as often as among the records of the store.
    pub select-share :
        (q : Asked) (selectors : List Selector) (cardinality : Cardinality) (policy : Policy)
        (rows : Rows) (result : Lists) (id : ℕ)
        → select j lower parse arms uuid numbers q selectors cardinality policy rows ≡ ok result
        → times id (candidate_ids result.0) + times id (excluded_ids result.1)
          ≡ times id (map (λ r. r.id) rows)
    select-share q selectors cardinality policy rows result id h =
        let run = select-Retrieved q selectors cardinality policy rows result h in
        let kept = fall_back j lower parse arms uuid numbers policy q.hits run.sifted in
        let nothing : times id [] ≡ 0 = unfold times in refl in
        let counted =
          sift-share j lower parse arms uuid numbers q rows ([], []) run.sifted id run.sifts in
        let moved = fall_back-share j lower parse arms uuid numbers q policy run.sifted id in
        let left =
          ap (λ (cs : Candidates Value F). times id (candidate_ids cs)) run.candidates
          ∙ times-sort_by (compare_candidates j lower parse arms uuid numbers policy)
              (λ (c : Candidate Value F). c.stored.id) id kept.0 in
        let right =
          ap (λ (xs : List ExcludedCoordinate). times id (excluded_ids xs)) run.excluded
          ∙ times-sort_by_id id kept.1 in
        omega arith

    -- Every candidate of a retrieval that succeeds passes the filter and the gate, and is in the tier
    -- and under the strategies in which the selector of its type holds it.
    pub select-IsCandidate :
        (q : Asked) (selectors : List Selector) (cardinality : Cardinality) (policy : Policy)
        (rows : Rows) (result : Lists)
        → select j lower parse arms uuid numbers q selectors cardinality policy rows ≡ ok result
        → All (IsCandidate j lower parse arms uuid numbers q) result.0
    select-IsCandidate q selectors cardinality policy rows result h =
        let run = select-Retrieved q selectors cardinality policy rows result h in
        let P = IsCandidate j lower parse arms uuid numbers q in
        let sifted =
          sift-All j lower parse arms uuid numbers q rows ([], []) run.sifted tt run.sifts in
        let kept = fall_back-All j lower parse arms uuid numbers P q policy run.sifted sifted in
        subst (λ (cs : Candidates Value F). All P cs) (sym run.candidates)
          (All-sort_by (compare_candidates j lower parse arms uuid numbers policy) P _ kept)
