-- ===== src/Lifecycle/Writer.antt =====
-- src/record/writer/mod.rs: `validate_lifecycle`, the writer's call of the compact check.
use equill.Base.{ℕ, String, Option, none, some, List, lookup, nat_eq}
use equill.Kernel.Error.{Result, ok, ◌>>=◌}
use equill.Json.{Json}
use equill.Record.{StoredRecord, TypeDefinition}
use equill.Lifecycle.State.{Entry, LifecycleState}
use equill.Lifecycle.Append.{validate_append_against}

module _ (j : Json) (load : String → Result (TypeDefinition j.Value)) where
  open j use {Value}

  -- `.map(|entry| schema::load(root, &entry.type_name)).transpose()`
  unfoldable pub load_entry_type : Option (Entry Value) → Result (Option (TypeDefinition Value))
  load_entry_type none = ok none
  load_entry_type (some entry) = do d ← load entry.type_name; ok (some d)

  abbrev pub entry_of : LifecycleState Value → Option ℕ → Option (Entry Value)
  entry_of state none = none
  entry_of state (some id) = lookup id state.entries

  unfoldable pub validate_lifecycle :
      StoredRecord Value
      → TypeDefinition Value
      → LifecycleState Value
      → List (String × TypeDefinition Value)
      → Result (Unit {0})
  unfolding load_entry_type
  validate_lifecycle candidate definition state claiming = do
    target ← load_entry_type (entry_of state candidate.supersedes)
    validate_append_against j state candidate definition target claiming
