-- ===== src/Filter/Apply.antt =====
-- src/filter/apply.rs: which records a filter lets through. `uuid` prints an id.
use equill.Base.{
  ℕ, String, Bool, true, false, ◌||◌, not, Option, none, some, List, [], ◌∷◌, ◌==◌, string_eq, map,
  any, all, if◌then◌else◌,
}
use equill.Json.Tree.{
  Tree, null, truth, number, text, array, object, Items, nil, cons, Fields, end, field, items,
  fields, is_null,
}
use equill.Record.{EvidenceRef, StoredRecord}
use equill.Filter.Terms.{
  Term, null_term, literal, is_null_term, Condition, Absent, wildcard, exclude, Filter, absent,
  envelope_path,
}

abbrev pub or_else : Option Tree → Option Tree → Option Tree
or_else (some t) o = some t
or_else none o = o

-- `resolve`; an array passes the whole path on to its elements, the first of which to answer wins
unfoldable mutual
  pub resolve : Tree → List String → Option Tree
  resolve t [] = some t
  resolve (object fs) (segment ∷ rest) = resolve_field fs segment rest
  resolve (array xs) (segment ∷ rest) = resolve_items xs (segment ∷ rest)
  resolve null (segment ∷ rest) = none
  resolve (truth b) (segment ∷ rest) = none
  resolve (number n) (segment ∷ rest) = none
  resolve (text s) (segment ∷ rest) = none

  pub resolve_field : Fields → String → List String → Option Tree
  resolve_field end segment rest = none
  resolve_field (field k v fs) segment rest = elim (k == segment) [
    | true ↦ resolve v rest
    | false ↦ resolve_field fs segment rest
  ]

  pub resolve_items : Items → List String → Option Tree
  resolve_items nil path = none
  resolve_items (cons x xs) path = or_else (resolve x path) (resolve_items xs path)

abbrev pub truth_text : Bool → String
truth_text true = "true"
truth_text false = "false"

unfoldable mutual
  pub contains_term : Tree → Term → Bool
  contains_term (array xs) term = contains_item xs term
  contains_term null null_term = true
  contains_term null (literal s) = false
  contains_term (truth b) null_term = false
  contains_term (truth b) (literal s) = truth_text b == s
  contains_term (number n) null_term = false
  contains_term (number n) (literal s) = n == s
  contains_term (text t) null_term = false
  contains_term (text t) (literal s) = t == s
  contains_term (object fs) term = false

  pub contains_item : Items → Term → Bool
  contains_item nil term = false
  contains_item (cons x xs) term = contains_term x term || contains_item xs term

-- what a bare path finds in the envelope
abbrev pub envelope_value : Option Bool → Tree → List String → Option Tree
envelope_value (some true) envelope path = resolve envelope path
envelope_value (some false) envelope path = none
envelope_value none envelope path = none

-- An empty path, on which the source would panic, is never made by `condition`.
unfoldable pub address : Tree → Tree → List String → Option Tree
unfolding resolve
address payload envelope [] = none
address payload envelope (first ∷ rest) =
    if first == "payload"
    then resolve payload rest
    else if first == "record"
    then resolve envelope rest
    else or_else (resolve payload (first ∷ rest))
        (envelope_value (envelope_path (first ∷ rest)) envelope (first ∷ rest))

abbrev pub is_missing : Option Tree → Bool
is_missing none = true
is_missing (some t) = is_null t

-- `condition.values == [Term::Null]`
abbrev pub is_null_alone : List Term → Bool
is_null_alone (null_term ∷ []) = true
is_null_alone _ = false

abbrev pub absent_passes : Absent → Bool
absent_passes wildcard = true
absent_passes exclude = false

abbrev pub found : Option Tree → List Term → Bool
found none values = false
found (some t) values = any (contains_term t) values

-- `a != b` on booleans
abbrev pub differs : Bool → Bool → Bool
differs true b = not b
differs false b = b

unfoldable pub holds : Option Tree → Condition → Absent → Bool
holds actual condition policy =
    if is_null_alone condition.values
    then differs (is_missing actual) condition.negated
    else if is_missing actual
    then (if any is_null_term condition.values then not condition.negated else absent_passes policy)
    else differs (found actual condition.values) condition.negated

abbrev pub opt_field : String → Option Tree → List (String × Tree)
opt_field name none = []
opt_field name (some t) = (name, t) ∷ []

abbrev pub text_opt : Option String → Option Tree
text_opt none = none
text_opt (some s) = some (text s)

unfoldable pub evidence_tree : EvidenceRef → Tree
evidence_tree e = object (
    fields (
      ("kind", text e.kind)
      ∷ ("reference", text e.reference)
      ∷ opt_field "sha256" (text_opt e.sha256)))

module _ (uuid : ℕ → String) where
  abbrev uuid_opt : Option ℕ → Option Tree
  uuid_opt none = none
  uuid_opt (some id) = some (text (uuid id))

  -- `serde_json::to_value(record)`
  unfoldable pub envelope : StoredRecord Tree → Tree
  unfolding evidence_tree
  envelope r = object (
      fields (
        ("id", text (uuid r.id))
        ∷ ("namespace", text r.namespace)
        ∷ ("type", text r.type_name)
        ∷ ("actor", text r.actor)
        ∷ ("recorded_at", text r.recorded_at)
        ∷ ("observed_at", text r.observed_at)
        ∷ ("valid_at", text r.valid_at)
        ∷ ("payload", r.payload)
        ∷ ("evidence", array (items (map evidence_tree r.evidence)))
        ∷ ("tags", array (items (map text r.tags)))
        ∷ opt_field "supersedes" (uuid_opt r.supersedes)))

  unfoldable pub matches : StoredRecord Tree → Filter → Bool
  unfolding envelope address holds
  matches r f = all (λ c. holds (address r.payload (envelope r) c.path) c (absent f)) f.conditions
