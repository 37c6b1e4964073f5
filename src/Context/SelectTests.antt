-- ===== src/Context/SelectTests.antt =====
-- Runs of a retrieval on a hybrid search that two halves answered.
use equill.Base.{
  ◌↔◌, ℕ, ◌+◌, ◌≤◌, String, ◌≡◌, ◌≢◌, refl, sym, ap, ◌∙◌, ◌⊎◌, ◌==◌, Bool, true, false, Option,
  none, some, List, [], ◌∷◌, ◌++◌, map, All, arith, lookup, string_eq, if◌then◌else◌, Antisymmetric,
  IsSorted, reverse,
}
use equill.Kernel.Error.{Result, ok, err}
use equill.Samples.{text}
use equill.Record.{StoredRecord}
use equill.Vector.Fusion.{Policy, vector_half, text_half}
use equill.Context.Model.{Selector, expect_one, hybrid}
use equill.Context.Shares.{candidate_ids}
use equill.Context.Search.{Hits}
use equill.Context.Retrieval.{Question, Sifted, answering, diagnosing, select}
use equill.Context.Expected.{Promised, select-Promised}
use equill.Context.Ordered.{select-OneSource, OneSource, found_by}
use equill.Context.GateTests.{lower, parse, row, selector, request}
use equill.Context.BundleData.{reader_profile, policy, numbers, arms, uuid, no_filter}

-- a search whose vector half found the first record and whose text half found the second
abbrev both_halves : Hits
both_halves = record {
  skipped_by = none;
  fts = 4 ∷ [];
  semantic = 1 ∷ 4 ∷ [];
  vector = 1 ∷ [];
  ranks = (1, 0) ∷ (4, 0) ∷ [];
  answer = none;
  order = (vector_half, text_half);
  mixed = true;
}

abbrev hybrid_note : Selector
hybrid_note = record selector { strategies = hybrid ∷ [] }

abbrev asked : Question text lower parse arms uuid numbers
asked = record {
  profile = reader_profile;
  selectors = ("note", record hybrid_note { expect = expect_one }) ∷ [];
  request = request;
  at = 12;
  hidden = [];
  hits = both_halves;
  filter = no_filter;
}

abbrev found_rows : List (StoredRecord String)
found_rows = row [] ∷ record (row []) { id = 4 } ∷ []

abbrev selectors : List Selector
selectors = record hybrid_note { expect = expect_one } ∷ []

abbrev Chosen : Type 0
Chosen = Sifted text lower parse arms uuid numbers

abbrev lists_of : Result Chosen → Chosen
lists_of (ok lists) = lists
lists_of (err e) = ([], [])

abbrev chosen : Chosen
chosen =
    lists_of (select text lower parse arms uuid numbers asked selectors answering policy found_rows)

selected :
    select text lower parse arms uuid numbers asked selectors answering policy found_rows
    ≡ ok chosen
unfolding select equill.Base.all equill.Base.any equill.Base.contains lookup equill.Base.filter
selected = refl

keeps_vector : candidate_ids chosen.0 ≡ 1 ∷ []
unfolding select equill.Base.all equill.Base.any equill.Base.contains lookup equill.Base.filter
keeps_vector = refl

select-Promised_example :
    (select text lower parse arms uuid numbers asked selectors answering policy found_rows
      ≡ ok chosen)
    ↔ ((select text lower parse arms uuid numbers asked selectors diagnosing policy found_rows
          ≡ ok chosen)
        × Promised text lower parse arms uuid numbers selectors chosen.0)
select-Promised_example =
    select-Promised text lower parse arms uuid numbers asked selectors policy found_rows chosen

-- a policy that fills up with what the other half of the search found
abbrev filling : Policy
filling = record policy { hybrid_fill_remaining = true }

abbrev filled : Chosen
filled =
    lists_of
      (select text lower parse arms uuid numbers asked selectors diagnosing filling found_rows)

preferred_first : candidate_ids filled.0 ≡ 1 ∷ 4 ∷ []
unfolding select equill.Base.all equill.Base.any equill.Base.contains lookup equill.Base.filter
preferred_first = refl

select-OneSource_example :
    OneSource text lower parse arms uuid numbers
      (found_by text lower parse arms uuid numbers policy asked)
      chosen.0
select-OneSource_example =
    select-OneSource text lower parse arms uuid numbers asked selectors answering policy found_rows
      chosen refl selected
