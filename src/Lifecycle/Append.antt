-- ===== src/Lifecycle/Append.antt =====
-- src/record/lifecycle/mod.rs: the check that the writer makes against compact state.
use equill.Base.{
  ℕ, String, Bool, true, false, ◌&&◌, not, Option, none, some, List, [], ◌∷◌, ◌==◌, ◌!=◌, string_eq,
  nat_eq, contains, any, filter, lookup,
}
use equill.Kernel.Error.{invalid_record, Result, ok, ◌>>=◌, ◌>>◌, refuse, ok_or}
use equill.Json.{Json}
use equill.Record.{StoredRecord, TypeDefinition}
use equill.Lifecycle.Rules.{key, require_key, linear_type, append_only_type, accepts}
use equill.Lifecycle.State.{Entry, LifecycleState, head, heads_claiming}

-- `heads.iter().any(|head| Some(*head) != superseding)`
unfoldable pub other_head : List ℕ → Option ℕ → Bool
other_head heads none = any (λ _. true) heads
other_head heads (some id) = any (λ h. h != id) heads

module _ (j : Json) where
  open j use {Value, beq}

  abbrev pub Definition : Type 0
  Definition = TypeDefinition Value

  -- `candidate.supersedes`, looked up in the state
  unfoldable pub find_target : LifecycleState Value → Option ℕ → Result (Option (ℕ × Entry Value))
  find_target state none = ok none
  find_target state (some id) = do
    entry ← ok_or (lookup id state.entries) (invalid_record "supersedes target is unknown: {id}")
    ok (some (id, entry))

  -- `matches!(keys, (Some(left), Some(right)) if left != right)`
  abbrev pub keys_differ : Option Value → Option Value → Bool
  keys_differ (some left) (some right) = not (beq left right)
  keys_differ _ _ = false

  abbrev pub append_only_target : Option Definition → Bool
  append_only_target none = false
  append_only_target (some definition) = append_only_type j definition

  -- the rules for the candidate's own edge
  unfoldable pub check_target :
      StoredRecord Value
      → Definition
      → Option Definition
      → Option (ℕ × Entry Value)
      → Result (Unit {0})
  check_target candidate definition target_definition none = ok tt
  check_target candidate definition target_definition (some (id, entry)) = do
    refuse (candidate.id == id) (invalid_record "record {} supersedes itself")
    refuse (append_only_type j definition)
        (invalid_record "type {} is append_only and cannot supersede records")
    refuse (candidate.namespace != entry.namespace)
        (invalid_record "supersedes cannot cross namespaces")
    refuse
        (candidate.type_name != entry.type_name
          && not (contains definition.lifecycle.allowed_predecessor_types entry.type_name))
        (invalid_record "type {} cannot supersede predecessor type {}")
    refuse (append_only_target target_definition)
        (invalid_record "type {} is append_only and cannot be superseded")
    refuse
        (linear_type j definition
          && keys_differ (key j candidate definition) (lookup candidate.type_name entry.keys))
        (invalid_record "linear supersedes requires the same lifecycle key")

  -- the head rules of a linear candidate
  unfoldable pub check_heads :
      LifecycleState Value → StoredRecord Value → Option ℕ → Value → Result (Unit {0})
  unfolding other_head
  check_heads state candidate none k =
      refuse (other_head (heads_claiming j state candidate.type_name candidate.namespace k) none)
        (invalid_record "linear lifecycle key already has a current head; supersedes is required")
  check_heads state candidate (some id) k = do
    refuse (not (head j state id))
        (invalid_record "linear supersedes target is not the current head")
    refuse (other_head (heads_claiming j state candidate.type_name candidate.namespace k) (some id))
        (invalid_record "linear supersedes would leave more than one current head")

  -- The linear types, other than a linear candidate's own, that would count it as a head.
  unfoldable pub is_claimant : StoredRecord Value → Definition → String × Definition → Bool
  is_claimant candidate definition (name, linear) =
      (linear_type j linear && accepts j name linear candidate.type_name)
      && not (name == candidate.type_name && linear_type j definition)

  unfoldable pub claimants :
      StoredRecord Value → Definition → List (String × Definition) → List (String × Definition)
  unfolding is_claimant
  claimants candidate definition claiming = filter (is_claimant candidate definition) claiming

  abbrev pub head_conflict :
      LifecycleState Value → StoredRecord Value → Option ℕ → String → Option Value → Bool
  head_conflict state candidate target name none = false
  head_conflict state candidate target name (some k) =
      other_head (heads_claiming j state name candidate.namespace k) target

  -- the loop over the claimants; a record with no key under a pointer claims no head there
  unfoldable pub check_claimants :
      LifecycleState Value
      → StoredRecord Value
      → Option ℕ
      → List (String × Definition)
      → Result (Unit {0})
  unfolding other_head
  check_claimants state candidate target [] = ok tt
  check_claimants state candidate target ((name, linear) ∷ rest) =
      refuse (head_conflict state candidate target name (key j candidate linear))
        (invalid_record "linear lifecycle key has multiple current heads")
      >> check_claimants state candidate target rest

  -- `if definition.lifecycle.mode == LifecycleMode::Linear { … }`
  unfoldable pub check_linear :
      LifecycleState Value → StoredRecord Value → Definition → Option ℕ → Bool → Result (Unit {0})
  unfolding check_heads
  check_linear state candidate definition target false = ok tt
  check_linear state candidate definition target true = do
    k ← require_key j candidate definition
    check_heads state candidate target k

  unfoldable pub validate_append_against :
      LifecycleState Value
      → StoredRecord Value
      → Definition
      → Option Definition
      → List (String × Definition)
      → Result (Unit {0})
  unfolding find_target check_target check_linear check_claimants claimants
  validate_append_against state candidate definition target_definition claiming = do
    target ← find_target state candidate.supersedes
    check_target candidate definition target_definition target
    check_linear state candidate definition candidate.supersedes (linear_type j definition)
    check_claimants state candidate candidate.supersedes (claimants candidate definition claiming)
