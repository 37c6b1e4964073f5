-- ===== src/Record.antt =====
-- src/record/model.rs and src/schema/model.rs: stored records and type definitions. `V` is the
-- type of JSON values; an id is the 128-bit number that orders UUIDs.
pub mod Words
pub mod WordTests
use equill.Base.{ℕ, String, Bool, true, false, Option, List}

pub record EvidenceRef : Type 0 where
  pub kind : String
  pub reference : String
  pub sha256 : Option String

pub record StoredRecord (V : Type 0) : Type 0 where
  pub id : ℕ
  pub namespace : String
  pub type_name : String
  pub actor : String
  pub recorded_at : String
  pub observed_at : String
  pub valid_at : String
  pub payload : V
  pub evidence : List EvidenceRef
  pub tags : List String
  pub supersedes : Option ℕ

pub data LifecycleMode : Type 0 where
  append_only linear dag : LifecycleMode

pub record LifecyclePolicy : Type 0 where
  pub mode : LifecycleMode
  pub key_pointer : Option String
  pub allowed_predecessor_types : List String

pub record TypeDefinition (V : Type 0) : Type 0 where
  pub type_name : String
  pub uri : String
  pub owner : String
  pub payload_schema : V
  pub lifecycle : LifecyclePolicy

-- `==` on `LifecycleMode`
abbrev pub is_linear : LifecycleMode → Bool
is_linear linear = true
is_linear _ = false

abbrev pub is_append_only : LifecycleMode → Bool
is_append_only append_only = true
is_append_only _ = false
