-- ===== src/Json.antt =====
-- serde_json, as the source uses it: an opaque value with equality, RFC 6901 pointers and compact
-- printing. None of it is under src/, so it is a parameter of the definitions.
pub mod Tree
use equill.Base.{String, ◌≡◌, ◌↔◌, Bool, true, Option, List}

pub record Json : Type 1 where
  pub Value : Type 0
  -- `PartialEq for Value`
  pub beq : Value → Value → Bool
  pub beq_iff : (a b : Value) → (beq a b ≡ true) ↔ (a ≡ b)
  -- `Value::pointer`
  pub pointer : Value → String → Option Value
  -- `Value::to_string`, which `from_str` reads back
  pub to_string : Value → String
  pub to_string_injective : (a b : Value) → to_string a ≡ to_string b → a ≡ b
  -- the arms of `Value` that the source tells apart: `Null`, `Array`, and `as_str`
  pub is_null : Value → Bool
  pub as_array : Value → Option (List Value)
  pub as_str : Value → Option String
