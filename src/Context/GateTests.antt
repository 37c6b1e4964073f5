-- ===== src/Context/GateTests.antt =====
-- Runs of the gate on one record.
use equill.Base.{
  ℕ, String, ◌≡◌, refl, ◌↔◌, false, Option, none, true, some, List, [], ◌∷◌, ◌==◌, string_eq,
  if◌then◌else◌, any, all, contains, lookup,
}
use equill.Kernel.Error.{ok}
use equill.Samples.{text}
use equill.Record.{StoredRecord}
use equill.Context.Model.{
  revoked, Selector, recency, desc, expect_any, ContextProfile, ContextRequest, default_tokenizer,
  set_mode,
}
use equill.Context.Matching.{gate, set_or_wildcard}
use equill.Context.Diagnosis.{diagnose_all, coordinate_diagnosis, IsSummary, diagnose_all-IsSummary}
use equill.Context.Gate.{IsAdmitted, gate_iff, set_or_wildcard_comm}

abbrev pub lower : String → String
lower s = s

abbrev pub parse : String → Option ℕ
parse s = if s == "noon" then some 12 else none

abbrev pub row : List String → StoredRecord String
row tags = record {
  id = 1;
  namespace = "agent.memory";
  type_name = "note";
  actor = "owner";
  recorded_at = "noon";
  observed_at = "noon";
  valid_at = "noon";
  payload = "role";
  evidence = [];
  tags = tags;
  supersedes = none;
}

abbrev pub profile : ContextProfile
profile = record {
  id = "profile";
  version = "1";
  actors = [];
  grants = record { namespace = "agent.memory"; types = "note" ∷ [] } ∷ [];
  selectors = "notes" ∷ [];
  budget = record {
    total = none;
    required_cap = none;
    core_cap = none;
    relevant_floor = none;
    receipt_reserve = none;
    tokenizer = default_tokenizer;
  };
}

abbrev pub selector : Selector
selector = record {
  id = "notes";
  version = "1";
  type_name = "note";
  strategies = recency ∷ [];
  required_tags = [];
  core_tags = [];
  kind_pointer = none;
  expires_at_pointer = none;
  rank_pointer = none;
  rank_order = desc;
  expect = expect_any;
  coordinate_pointers = ("role", "/key") ∷ [];
  coordinate_modes = ("role", set_mode) ∷ [];
}

abbrev pub request : ContextRequest String
request = record {
  at = "noon";
  query = "";
  tags = [];
  kinds = [];
  coordinates = ("role", "role") ∷ [];
  include_superseded = false;
}

admitted : gate text lower parse (row []) profile (("note", selector) ∷ []) request 12 [] ≡ ok none
unfolding gate any contains lookup all
admitted = refl

withdrawn_refused :
    gate text lower parse
      (row ("equill:revoked" ∷ []))
      profile
      (("note", selector) ∷ [])
      request
      12
      []
    ≡ ok (some revoked)
unfolding gate any contains
withdrawn_refused = refl

gate_iff_example :
    (gate text lower parse (row []) profile (("note", selector) ∷ []) request 12 [] ≡ ok none)
    ↔ IsAdmitted text lower parse (row []) profile (("note", selector) ∷ []) request 12 []
gate_iff_example =
    gate_iff text lower parse (row []) profile (("note", selector) ∷ []) request 12 []

set_or_wildcard_comm_example :
    set_or_wildcard text lower parse (some "set") "backend"
    ≡ set_or_wildcard text lower parse (some "backend") "set"
set_or_wildcard_comm_example = set_or_wildcard_comm text lower parse "set" "backend" refl refl

diagnose_all-IsSummary_example :
    IsSummary text lower parse
      (row [] ∷ [])
      "role"
      "other"
      (selector ∷ [])
      (record { declared = false; matched = false; exact_only = true })
      (diagnose_all text lower parse
        (row [] ∷ [])
        "role"
        "other"
        (selector ∷ [])
        (record { declared = false; matched = false; exact_only = true }))
diagnose_all-IsSummary_example =
    diagnose_all-IsSummary text lower parse (row [] ∷ []) "role" "other" (selector ∷ [])
      (record { declared = false; matched = false; exact_only = true })

-- A coordinate that no record matches is reported, as declared and compared as a set.
unmatched_role :
    coordinate_diagnosis text lower parse
      (row [] ∷ [])
      (selector ∷ [])
      (record request { coordinates = ("role", "other") ∷ [] })
    ≡ record { key = "role"; declared = true; exact_only = false } ∷ []
unfolding coordinate_diagnosis lookup any set_or_wildcard
unmatched_role = refl
