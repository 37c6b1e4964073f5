-- ===== src/Filter/Schema.antt =====
-- src/filter/schema.rs: a filter's paths against the schemas that it will run over.
use equill.Base.{
  String, Bool, true, false, not, ◌||◌, Option, none, some, List, [], ◌∷◌, ◌==◌, string_eq, any,
  if◌then◌else◌,
}
use equill.Kernel.Error.{filter as filter_error, Result, ok, err, ◌>>◌, refuse}
use equill.Json.Tree.{
  Tree, null, truth, number, text, array, object, Fields, end, field, get_field, get,
}
use equill.Record.{TypeDefinition}
use equill.Filter.Terms.{Condition, Filter, envelope_path}

abbrev get_opt : Option Tree → String → Option Tree
get_opt none segment = none
get_opt (some t) segment = get t segment

-- `descend`: through `items` where the schema has it, and else through `properties`
unfoldable mutual
  unfolding get_field get

  pub descend : Tree → String → Option Tree
  descend (object fs) segment = descend_in fs fs segment
  descend null segment = none
  descend (truth b) segment = none
  descend (number n) segment = none
  descend (text s) segment = none
  descend (array xs) segment = none

  pub descend_in : Fields → Fields → String → Option Tree
  descend_in end whole segment = get_opt (get_field whole "properties") segment
  descend_in (field k v fs) whole segment = elim (k == "items") [
    | true ↦ descend v segment
    | false ↦ descend_in fs whole segment
  ]

unfoldable pub declared_opt : Option Tree → List String → Bool
unfolding descend
declared_opt none path = false
declared_opt (some schema) [] = true
declared_opt (some schema) (segment ∷ path) = declared_opt (descend schema segment) path

abbrev pub declared : Tree → List String → Bool
declared schema path = declared_opt (some schema) path

abbrev pub is_true : Option Bool → Bool
is_true (some true) = true
is_true _ = false

abbrev pub is_empty {ℓ} : {A : Type ℓ} → List A → Bool
is_empty [] = true
is_empty (x ∷ xs) = false

abbrev pub Definition : Type 0
Definition = TypeDefinition Tree

-- `definitions.iter().any(|definition| declared(&definition.payload_schema, path))`
unfoldable pub known : List Definition → List String → Bool
unfolding declared_opt
known definitions path = any (λ d. declared d.payload_schema path) definitions

-- the last checks of a round, on the path that is left
abbrev pub require_known : List Definition → List String → Result (Unit {0})
require_known definitions path =
    refuse (is_empty path) (filter_error "filter needs a field after payload.")
    >> refuse (not (known definitions path))
        (filter_error "unknown field {field}: no type in scope declares it ({types})")

-- a bare path that no payload declares
abbrev pub judge_bare : List Definition → List String → Option Bool → Result (Unit {0})
judge_bare definitions path (some true) = ok tt
judge_bare definitions path (some false) =
    err (filter_error "unknown field {field}: the record envelope has no such name")
judge_bare definitions path none = require_known definitions path

-- one round of the loop; `condition` makes no empty path
unfoldable pub check_path : List Definition → List String → Result (Unit {0})
unfolding known
check_path definitions [] = require_known definitions []
check_path definitions (first ∷ rest) =
    if first == "payload"
    then require_known definitions rest
    else if first == "record"
    then refuse (is_empty rest || not (is_true (envelope_path rest)))
        (filter_error "unknown field {field}: the record envelope has no such name")
    else if known definitions (first ∷ rest)
    then ok tt
    else judge_bare definitions (first ∷ rest) (envelope_path (first ∷ rest))

unfoldable pub check_paths : List Definition → List Condition → Result (Unit {0})
unfolding check_path
check_paths definitions [] = ok tt
check_paths definitions (c ∷ rest) = check_path definitions c.path >> check_paths definitions rest

unfoldable pub validate : Filter → List Definition → Result (Unit {0})
unfolding check_paths
validate f definitions =
    if is_empty f.conditions
    then ok tt
    else refuse (is_empty definitions)
        (filter_error "filters need at least one registered type to check against")
      >> check_paths definitions f.conditions
