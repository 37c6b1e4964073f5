-- ===== src/Context/Expected.antt =====
-- src/context/retrieval.rs, `require`: what each selector was promised.
use equill.Base.{
  ℕ, ◌+◌, ◌≤◌, String, ◌≡◌, refl, ◌↔◌, inl, inr, Bool, true, false, not, Option, List, [], ◌∷◌,
  ◌==◌, nat_eq, string_eq, All, arith, filter, Bool-cases, if◌then◌else◌,
}
use equill.Kernel.Error.{ok, refuse, >>-eq-ok, refuse-eq-ok}
use equill.Json.{Json}
use equill.Json.Tree.{Tree}
use equill.Vector.Fusion.{Policy}
use equill.Context.Model.{Selector, Expectation, expect_any, expect_some, expect_one}
use equill.Context.Matching.{Row}
use equill.Context.Budget.{Candidates}
use equill.Context.Retrieval.{
  Numbers, Question, Sifted, Cardinality, answering, diagnosing, meets_expectation, found_for,
  require, select,
}
use equill.Context.Selected.{Retrieved, select-Retrieved}

-- what a selector that expects so much is promised of the number that is found
abbrev pub Expects : Expectation → ℕ → Type 0
Expects expect_any n = Unit
Expects expect_some n = 1 ≤ n
Expects expect_one n = n ≡ 1

Expects-of : (e : Expectation) (n : ℕ) → meets_expectation e n ≡ true → Expects e n
Expects-of expect_any n h = tt
Expects-of expect_some n h = ground arith
Expects-of expect_one n h = ground arith

meets-of : (e : Expectation) (n : ℕ) → Expects e n → meets_expectation e n ≡ true
meets-of expect_any n h = refl
meets-of expect_some n h = ground arith
meets-of expect_one n h = ground arith

module _ (j : Json) (lower : String → String) (parse : String → Option ℕ) where
  open j use {Value}

  module _ (arms : Value → Tree) (uuid : ℕ → String) (numbers : Numbers Value) where
    open numbers use {F}

    abbrev Rows : Type 0
    Rows = List (Row j lower parse)

    abbrev Asked : Type 0
    Asked = Question j lower parse arms uuid numbers

    abbrev Lists : Type 0
    Lists = Sifted j lower parse arms uuid numbers

    -- how many of the candidates are of the type
    unfoldable pub number_of : String → Candidates Value F → ℕ
    number_of type_name [] = 0
    number_of type_name (c ∷ cs) =
        let rest = number_of type_name cs in
        if c.stored.type_name == type_name then 1 + rest else rest

    -- every selector found what it expects
    abbrev pub Promised : List Selector → Candidates Value F → Type 0
    Promised selectors cs =
        All (λ (s : Selector). Expects s.expect (number_of s.type_name cs)) selectors

    found_for-number_of :
        (cs : Candidates Value F) (s : Selector)
        → found_for j lower parse arms uuid numbers cs s ≡ number_of s.type_name cs
    unfolding number_of filter
    found_for-number_of [] s = refl
    found_for-number_of (c ∷ cs) s =
        let ih = found_for-number_of cs s in
        elim (Bool-cases (c.stored.type_name == s.type_name)) [
          | inl p ↦ rw p (omega arith)
          | inr p ↦ rw p ih
        ]

    require-Promised :
        (cs : Candidates Value F) (selectors : List Selector)
        → require j lower parse arms uuid numbers cs selectors ≡ ok tt
        → Promised selectors cs
    unfolding require
    require-Promised cs [] h = tt
    require-Promised cs (s ∷ selectors) h =
        let found = found_for j lower parse arms uuid numbers cs s in
        let (one, rest) = >>-eq-ok (refuse (not (meets_expectation s.expect found)) _) _ h in
        let met : meets_expectation s.expect found ≡ true =
          kept (meets_expectation s.expect found) (refuse-eq-ok _ _ one) in
        let counted = found_for-number_of cs s in
        (Expects-of s.expect _ (rw counted at met), require-Promised cs selectors rest)
      where
        kept : (b : Bool) → not b ≡ false → b ≡ true
        kept b k = ground arith

    Promised-require :
        (cs : Candidates Value F) (selectors : List Selector)
        → Promised selectors cs
        → require j lower parse arms uuid numbers cs selectors ≡ ok tt
    unfolding require
    Promised-require cs [] h = refl
    Promised-require cs (s ∷ selectors) h =
        let met = meets-of s.expect (number_of s.type_name cs) h.0 in
        rw (found_for-number_of cs s, met) (Promised-require cs selectors h.1)

    Retrieved-select :
        (q : Asked) (selectors : List Selector) (cardinality : Cardinality) (policy : Policy)
        (rows : Rows) (result : Lists)
        → Retrieved j lower parse arms uuid numbers q selectors cardinality policy rows result
        → select j lower parse arms uuid numbers q selectors cardinality policy rows ≡ ok result
    unfolding select
    Retrieved-select q selectors cardinality policy rows result run =
        rw run.sifts (rw (← run.candidates, ← run.excluded, run.required) refl)

    -- A retrieval that answers a request returns a result exactly when the retrieval that diagnoses it
    -- returns the same and every selector found what it expects: exactly one candidate of its type, at
    -- least one, or any number.
    pub select-Promised :
        (q : Asked) (selectors : List Selector) (policy : Policy) (rows : Rows) (result : Lists)
        → (select j lower parse arms uuid numbers q selectors answering policy rows ≡ ok result) ↔ (
            (select j lower parse arms uuid numbers q selectors diagnosing policy rows ≡ ok result)
            × Promised selectors result.0)
    select-Promised q selectors policy rows result = (
      (λ h.
          let run =
            select-Retrieved j lower parse arms uuid numbers q selectors answering policy rows
              result h in
          (
            Retrieved-select q selectors diagnosing policy rows result (record {
              sifted = run.sifted;
              sifts = run.sifts;
              candidates = run.candidates;
              excluded = run.excluded;
              required = refl;
            }),
            require-Promised result.0 selectors run.required,
          )),
      (λ (h, promised).
          let run =
            select-Retrieved j lower parse arms uuid numbers q selectors diagnosing policy rows
              result h in
          Retrieved-select q selectors answering policy rows result (record {
            sifted = run.sifted;
            sifts = run.sifts;
            candidates = run.candidates;
            excluded = run.excluded;
            required = Promised-require result.0 selectors promised;
          })),
    )
