-- ===== src/Filter/Terms.antt =====
-- src/filter/mod.rs: conditions, the filter and the names of the envelope.
use equill.Base.{
  String, Bool, true, false, Option, none, some, List, [], ◌∷◌, ◌==◌, string_eq, contains,
  if◌then◌else◌,
}

pub data Term : Type 0 where
  null_term : Term
  literal : String → Term

abbrev pub is_null_term : Term → Bool
is_null_term null_term = true
is_null_term (literal s) = false

pub record Condition : Type 0 where
  pub path : List String
  pub negated : Bool
  pub values : List Term

pub data Absent : Type 0 where
  wildcard exclude : Absent

pub record Filter : Type 0 where
  pub conditions : List Condition
  pub strict : Bool

abbrev pub absent : Filter → Absent
absent f = if f.strict then exclude else wildcard

-- `ENVELOPE_FIELDS`
abbrev pub envelope_fields : List (String × List String)
envelope_fields =
    ("id", [])
    ∷ ("namespace", [])
    ∷ ("type", [])
    ∷ ("actor", [])
    ∷ ("recorded_at", [])
    ∷ ("observed_at", [])
    ∷ ("valid_at", [])
    ∷ ("tags", [])
    ∷ ("evidence", "kind" ∷ "reference" ∷ "sha256" ∷ [])
    ∷ ("supersedes", [])
    ∷ []

unfoldable pub nested_names : String → List (String × List String) → Option (List String)
nested_names name [] = none
nested_names name ((n, nested) ∷ rest) = if n == name then some nested else nested_names name rest

abbrev pub names_envelope : List String → List String → Bool
names_envelope nested [] = true
names_envelope nested (second ∷ []) = contains nested second
names_envelope nested (second ∷ third ∷ rest) = false

abbrev pub judge_envelope : Option (List String) → List String → Option Bool
judge_envelope none rest = none
judge_envelope (some nested) rest = some (names_envelope nested rest)

-- An empty path, which `condition` never makes and on which the source would panic, names nothing.
unfoldable pub envelope_path : List String → Option Bool
unfolding nested_names
envelope_path [] = none
envelope_path (first ∷ rest) = judge_envelope (nested_names first envelope_fields) rest
