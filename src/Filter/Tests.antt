-- ===== src/Filter/Tests.antt =====
-- Runs of the filter: parsing, matching and the check against a schema.
use equill.Base.{
  ℕ, String, ◌≡◌, refl, ◌↔◌, ◌⊎◌, inl, inr, ◌||◌, Bool, true, false, Option, none, some, List, [],
  ◌∷◌, ◌++◌, ◌==◌, string_eq, All, if◌then◌else◌,
}
use equill.Kernel.Error.{ok, err, filter as filter_error}
use equill.Json.Tree.{Tree, null, text, array, object, nil, cons, end, field}
use equill.Record.{StoredRecord, append_only}
use equill.Filter.Terms.{Term, null_term, literal, Condition, Absent, wildcard, exclude, Filter}
use equill.Filter.Parse.{condition, candidate_limit}
use equill.Filter.Print.{print}
use equill.Filter.RoundTrip.{IsWritten}
use equill.Filter.Flags.{condition_iff}
use equill.Filter.Apply.{matches, holds, contains_term}
use equill.Filter.Schema.{Definition, is_empty, validate}
use equill.Filter.Known.{AllNamed, validate-Names}
use equill.Filter.Policy.{alternatives, matches-lenient, holds-alternatives}

abbrev lanes : Condition
lanes = record {
  path = "payload" ∷ "lane" ∷ [];
  negated = false;
  values = literal "backend" ∷ null_term ∷ [];
}

reads_lanes : condition " payload.lane =backend,null" ≡ ok lanes
unfolding condition equill.Base.is_blank equill.Base.any equill.Base.strip_prefix
reads_lanes = refl

prints_lanes : print lanes ≡ "payload.lane=backend,null"
unfolding print
prints_lanes = refl

refuses_mixed_negation :
    condition "lane=!backend,null"
    ≡ err (
        filter_error
          "filter {flag} negates a list containing null; ask for the values and the absence separately so the intent is explicit")
unfolding condition equill.Base.is_blank equill.Base.any equill.Base.strip_prefix
refuses_mixed_negation = refl

abbrev flag : String
flag = " payload.lane =backend,null"

condition_iff_example : (condition flag ≡ ok lanes) ↔ IsWritten flag lanes
condition_iff_example = condition_iff flag lanes

abbrev uuid : ℕ → String
uuid n = "id"

abbrev note : Tree → StoredRecord Tree
note payload = record {
  id = 1;
  namespace = "agent.memory";
  type_name = "note";
  actor = "owner";
  recorded_at = "noon";
  observed_at = "noon";
  valid_at = "noon";
  payload = payload;
  evidence = [];
  tags = "urgent" ∷ [];
  supersedes = none;
}

abbrev lane_note : StoredRecord Tree
lane_note = note (object (field "lane" (array (cons (text "backend") nil)) end))

abbrev lane_conditions : List Condition
lane_conditions =
    alternatives ("lane" ∷ []) (literal "backend" ∷ [])
    ∷ alternatives ("tags" ∷ []) (literal "urgent" ∷ [])
    ∷ []

passes_strictly :
    matches uuid lane_note (record { conditions = lane_conditions; strict = true }) ≡ true
unfolding matches equill.Base.all equill.Base.any contains_term equill.Filter.Terms.envelope_path
passes_strictly = refl

passes_absent :
    matches uuid (note (object end)) (record { conditions = lane_conditions; strict = false })
    ≡ true
unfolding matches equill.Base.all equill.Filter.Terms.envelope_path equill.Base.any contains_term
passes_absent = refl

matches-lenient_example :
    matches uuid lane_note (record { conditions = lane_conditions; strict = false }) ≡ true
matches-lenient_example = matches-lenient uuid lane_note lane_conditions passes_strictly

holds-alternatives_example :
    holds
      (some (text "backend"))
      (alternatives ("lane" ∷ []) ((literal "frontend" ∷ []) ++ (literal "backend" ∷ [])))
      wildcard
    ≡ (holds (some (text "backend")) (alternatives ("lane" ∷ []) (literal "frontend" ∷ [])) wildcard
        || holds
            (some (text "backend"))
            (alternatives ("lane" ∷ []) (literal "backend" ∷ []))
            wildcard)
unfolding equill.Base.any
holds-alternatives_example =
    holds-alternatives (some (text "backend")) ("lane" ∷ []) (literal "frontend" ∷ [])
      (literal "backend" ∷ []) wildcard refl refl

-- An array that holds a null passes a list of null and a literal, and neither of the two alone.
null_in_list :
    holds
      (some (array (cons null nil)))
      (alternatives ("lane" ∷ []) (null_term ∷ literal "x" ∷ []))
      exclude
    ≡ true
unfolding holds equill.Base.any contains_term
null_in_list = refl

null_alone :
    holds (some (array (cons null nil))) (alternatives ("lane" ∷ []) (null_term ∷ [])) exclude
    ≡ false
unfolding holds
null_alone = refl

literal_alone :
    holds (some (array (cons null nil))) (alternatives ("lane" ∷ []) (literal "x" ∷ [])) exclude
    ≡ false
unfolding holds equill.Base.any contains_term
literal_alone = refl

abbrev definition : Definition
definition = record {
  type_name = "note";
  uri = "note";
  owner = "owner";
  payload_schema = object (field "properties" (object (field "lane" (object end) end)) end);
  lifecycle = record { mode = append_only; key_pointer = none; allowed_predecessor_types = [] };
}

abbrev asked : Filter
asked = record {
  conditions = lanes ∷ alternatives ("evidence" ∷ "kind" ∷ []) (literal "log" ∷ []) ∷ [];
  strict = true;
}

accepts : validate asked (definition ∷ []) ≡ ok tt
unfolding validate equill.Base.any equill.Filter.Terms.envelope_path equill.Base.contains
accepts = refl

refuses_unknown :
    validate
      (record { conditions = alternatives ("role" ∷ []) (literal "x" ∷ []) ∷ []; strict = true })
      (definition ∷ [])
    ≡ err (filter_error "unknown field {field}: no type in scope declares it ({types})")
unfolding validate equill.Base.any equill.Filter.Terms.envelope_path
refuses_unknown = refl

validate-Names_example : (validate asked (definition ∷ []) ≡ ok tt) ↔ (
    (is_empty asked.conditions ≡ true)
    ⊎ ((is_empty (definition ∷ []) ≡ false) × AllNamed (definition ∷ []) asked.conditions))
validate-Names_example = validate-Names asked (definition ∷ [])

scans_scope : candidate_limit 1000 300 20 ≡ ok 300
unfolding candidate_limit
scans_scope = refl
