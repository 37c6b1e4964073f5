-- ===== src/Lifecycle/Rules.antt =====
-- src/record/lifecycle/mod.rs: keys, eligibility, and the linear types that count a record.
use equill.Base.{String, Bool, false, ◌&&◌, ◌||◌, Option, none, some, ◌==◌, string_eq, contains}
use equill.Kernel.Error.{invalid_record, Result, ok_or}
use equill.Json.{Json}
use equill.Record.{StoredRecord, TypeDefinition, is_linear, is_append_only}

module _ (j : Json) where
  open j use {Value, beq, pointer}

  -- the key pointer, read in the payload; `none` where either is missing
  abbrev pub key_at : Option String → Value → Option Value
  key_at none payload = none
  key_at (some p) payload = pointer payload p

  unfoldable pub key : StoredRecord Value → TypeDefinition Value → Option Value
  key r definition = key_at definition.lifecycle.key_pointer r.payload

  unfoldable pub require_key : StoredRecord Value → TypeDefinition Value → Result Value
  require_key r definition =
      ok_or (key r definition) (invalid_record "record {id} is missing lifecycle key {pointer}")

  -- `found == Some(value)`
  abbrev pub is_value : Option Value → Value → Bool
  is_value none v = false
  is_value (some w) v = beq w v

  unfoldable pub linear_type : TypeDefinition Value → Bool
  linear_type definition = is_linear definition.lifecycle.mode

  unfoldable pub append_only_type : TypeDefinition Value → Bool
  append_only_type definition = is_append_only definition.lifecycle.mode

  -- The type called `name` takes a record of type `other` for its own or for a predecessor.
  unfoldable pub accepts : String → TypeDefinition Value → String → Bool
  accepts name definition other =
      name == other || contains definition.lifecycle.allowed_predecessor_types other

  unfoldable pub eligible : StoredRecord Value → StoredRecord Value → TypeDefinition Value → Bool
  unfolding accepts
  eligible candidate r definition =
      candidate.namespace == r.namespace && accepts candidate.type_name definition r.type_name
