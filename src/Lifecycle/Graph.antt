-- ===== src/Lifecycle/Graph.antt =====
-- src/record/lifecycle/graph.rs: the canonical validation of a whole ledger.
use equill.Base.{
  ℕ, zero, suc, String, Bool, true, false, ◌&&◌, not, Option, none, some, List, [], ◌∷◌, ◌==◌, ◌!=◌,
  string_eq, nat_eq, contains, any, filter, lookup, insert, length, if◌then◌else◌,
}
use equill.Kernel.Error.{invalid_record, panic, Result, ok, err, ◌>>=◌, ◌>>◌, refuse, ok_or}
use equill.Json.{Json}
use equill.Record.{StoredRecord, TypeDefinition}
use equill.Lifecycle.Rules.{key, require_key, linear_type, append_only_type, eligible}
use equill.Lifecycle.Append.{keys_differ}

-- `map[&key]`
abbrev pub index : {V : Type 0} → Option V → Result V
index o = ok_or o panic

module _ (j : Json) where
  open j use {Value, to_string}

  abbrev pub Records : Type 0
  Records = List (StoredRecord Value)

  abbrev pub ById : Type 0
  ById = List (ℕ × StoredRecord Value)

  abbrev pub Definitions : Type 0
  Definitions = List (String × TypeDefinition Value)

  -- `records.iter().map(|record| (record.id, record)).collect::<HashMap<_, _>>()`
  unfoldable pub collect : ById → Records → ById
  collect m [] = m
  collect m (r ∷ rs) = collect (insert r.id r m) rs

  -- the definitions of the types that occur; `load` is `schema::load` at the store
  module _ (load : String → Result (TypeDefinition Value)) where
    unfoldable pub add_definition :
        String → Definitions → Option (TypeDefinition Value) → Result Definitions
    add_definition name m (some d) = ok m
    add_definition name m none = do d ← load name; ok (insert name d m)

    unfoldable pub load_all : Definitions → Records → Result Definitions
    unfolding add_definition
    load_all m [] = ok m
    load_all m (r ∷ rs) = do
      next ← add_definition r.type_name m (lookup r.type_name m)
      load_all next rs

  unfoldable pub validate_edge :
      StoredRecord Value → Option (StoredRecord Value) → TypeDefinition Value → Result (Unit {0})
  validate_edge r none definition = ok tt
  validate_edge r (some target) definition = do
    refuse (r.id == target.id) (invalid_record "record {} supersedes itself")
    refuse (append_only_type j definition)
        (invalid_record "type {} is append_only and cannot supersede records")
    refuse (r.namespace != target.namespace) (invalid_record "supersedes cannot cross namespaces")
    refuse
        (r.type_name != target.type_name
          && not (contains definition.lifecycle.allowed_predecessor_types target.type_name))
        (invalid_record "type {} cannot supersede predecessor type {}")
    refuse
        (linear_type j definition && keys_differ j (key j r definition) (key j target definition))
        (invalid_record "linear supersedes requires the same lifecycle key")

  unfoldable pub find_parent : ById → Option ℕ → Result (Option (StoredRecord Value))
  find_parent by_id none = ok none
  find_parent by_id (some id) = do
    r ← ok_or (lookup id by_id) (invalid_record "supersedes target is unknown: {id}")
    ok (some r)

  abbrev pub require_linear_key :
      StoredRecord Value → TypeDefinition Value → Bool → Result (Unit {0})
  require_linear_key r definition false = ok tt
  require_linear_key r definition true = require_key j r definition >>= λ _. ok tt

  -- a target of an append_only type is refused; any other gains a child
  unfoldable pub target_child : Definitions → Option (StoredRecord Value) → Result (Option ℕ)
  target_child definitions none = ok none
  target_child definitions (some target) = do
    d ← index (lookup target.type_name definitions)
    refuse (append_only_type j d) (invalid_record "type {} is append_only and cannot be superseded")
    ok (some target.id)

  -- one round of the loop over the records, and the id whose count of children it raises
  unfoldable pub check_record : ById → Definitions → StoredRecord Value → Result (Option ℕ)
  unfolding find_parent validate_edge target_child
  check_record by_id definitions r = do
    definition ← index (lookup r.type_name definitions)
    target ← find_parent by_id r.supersedes
    validate_edge r target definition
    require_linear_key r definition (linear_type j definition)
    target_child definitions target

  abbrev pub add_child : Option ℕ → List ℕ → List ℕ
  add_child none children = children
  add_child (some id) children = id ∷ children

  -- The map `children` is the list of its keys, each as often as it counts children.
  unfoldable pub check_records : ById → Definitions → List ℕ → Records → Result (List ℕ)
  unfolding check_record
  check_records by_id definitions children [] = ok children
  check_records by_id definitions children (r ∷ rs) = do
    child ← check_record by_id definitions r
    check_records by_id definitions (add_child child children) rs

  -- `while let Some(parent) = current.supersedes`, on fuel
  unfoldable pub walk : ℕ → ById → List ℕ → StoredRecord Value → Option ℕ → Result (Unit {0})
  walk fuel by_id seen current none = ok tt
  walk zero by_id seen current (some parent) = err panic
  walk (suc fuel) by_id seen current (some parent) =
      refuse (contains seen current.id) (invalid_record "supersedes cycle contains {}")
      >> (index (lookup parent by_id) >>= λ next.
          walk fuel by_id (current.id ∷ seen) next next.supersedes)

  unfoldable pub reject_cycles : ℕ → ById → Records → Result (Unit {0})
  unfolding walk
  reject_cycles fuel by_id [] = ok tt
  reject_cycles fuel by_id (origin ∷ rs) =
      walk fuel by_id [] origin origin.supersedes >> reject_cycles fuel by_id rs

  unfoldable pub count : ℕ → List ℕ → ℕ
  count id [] = 0
  count id (x ∷ xs) = let rest = count id xs in if x == id then suc rest else rest

  abbrev pub shared_target : List ℕ → Option ℕ → Bool
  shared_target children none = false
  shared_target children (some target) = not (count target children == 1)

  -- `key(head, definition).is_some_and(|value| !keys.insert(value.to_string()))`, over the heads
  abbrev pub seen_key : List String → Option Value → Bool
  seen_key keys none = false
  seen_key keys (some v) = contains keys (to_string v)

  abbrev pub see_key : Option Value → List String → List String
  see_key none keys = keys
  see_key (some v) keys = to_string v ∷ keys

  unfoldable pub unique_keys : TypeDefinition Value → List String → Records → Result (Unit {0})
  unique_keys definition keys [] = ok tt
  unique_keys definition keys (h ∷ heads) =
      refuse (seen_key keys (key j h definition))
        (invalid_record "linear lifecycle key has multiple current heads")
      >> unique_keys definition (see_key (key j h definition) keys) heads

  -- the heads that a linear record's type counts, of `children`'s graph
  unfoldable pub counted :
      List ℕ → StoredRecord Value → TypeDefinition Value → StoredRecord Value → Bool
  counted children r definition item =
      not (contains children item.id) && eligible j r item definition

  -- `checked.contains(&(namespace, type_name))`
  unfoldable pub checked_before : List (String × String) → StoredRecord Value → Bool
  checked_before checked r = any (λ c. c.0 == r.namespace && c.1 == r.type_name) checked

  -- one round for a record of a linear type: `checked` holds the pairs that need no second look
  unfoldable pub check_linear_record :
      Records
      → List ℕ
      → List (String × String)
      → StoredRecord Value
      → TypeDefinition Value
      → Result (Unit {0})
  unfolding unique_keys counted checked_before
  check_linear_record records children checked r definition = do
    refuse (shared_target children r.supersedes)
        (invalid_record "linear lifecycle has multiple children of one head")
    if checked_before checked r
        then ok tt
        else unique_keys definition [] (filter (counted children r definition) records)

  abbrev pub check_if_linear :
      Records
      → List ℕ
      → List (String × String)
      → StoredRecord Value
      → TypeDefinition Value
      → Bool
      → Result (List (String × String))
  check_if_linear records children checked r definition false = ok checked
  check_if_linear records children checked r definition true =
      check_linear_record records children checked r definition
      >> ok ((r.namespace, r.type_name) ∷ checked)

  -- the loop of `validate_linear_graph`: over `rest`, in a ledger of `records`
  unfoldable pub linear_loop :
      Records → Definitions → List ℕ → List (String × String) → Records → Result (Unit {0})
  unfolding check_linear_record
  linear_loop records definitions children checked [] = ok tt
  linear_loop records definitions children checked (r ∷ rest) = do
    definition ← index (lookup r.type_name definitions)
    checked' ← check_if_linear records children checked r definition (linear_type j definition)
    linear_loop records definitions children checked' rest

  unfoldable pub validate_linear_graph : Records → Definitions → List ℕ → Result (Unit {0})
  unfolding linear_loop
  validate_linear_graph records definitions children =
      linear_loop records definitions children [] records

  -- A walk makes fewer steps than there are records, and one step finds the repetition.
  unfoldable pub validate_graph :
      (String → Result (TypeDefinition Value)) → Records → Result (Unit {0})
  unfolding collect load_all check_records reject_cycles validate_linear_graph
  validate_graph load records = do
    let by_id = collect [] records
    definitions ← load_all load [] records
    children ← check_records by_id definitions [] records
    reject_cycles (suc (length records)) by_id records
    validate_linear_graph records definitions children
