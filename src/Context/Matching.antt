-- ===== src/Context/Matching.antt =====
-- src/context/matching.rs: which records a profile's selectors let through, and in which tier. The
-- text of a JSON value, Unicode's lower case and jiff's timestamps are parameters: an instant is
-- the number of nanoseconds since the earliest one.
use equill.Base.{
  ℕ, String, Bool, true, false, ◌&&◌, ◌||◌, not, Option, none, some, List, [], ◌∷◌, ◌==◌, string_eq,
  nat_eq, any, all, filter, contains, lookup, ltb, is_blank, includes, strip_prefix, if◌then◌else◌,
}
use equill.Kernel.Error.{context, Result, ok, ◌>>=◌, ok_or}
use equill.Json.{Json}
use equill.Record.{StoredRecord}
use equill.Context.Model.{
  Tier, required, core, relevant, Strategy, exact, tag, recency, fts, hybrid, ExclusionReason,
  unauthorized, superseded, revoked, invalid_at_request_time, expired, selector_mismatch,
  CoordinateMode, set_mode, Selector, ContextProfile, ContextRequest,
}

abbrev pub is_empty {ℓ} : {A : Type ℓ} → List A → Bool
is_empty [] = true
is_empty (x ∷ xs) = false

unfoldable pub has_any : List String → List String → Bool
has_any values expected = not (is_empty expected) && any (λ v. contains expected v) values

abbrev pub is_set_mode : Option CoordinateMode → Bool
is_set_mode (some set_mode) = true
is_set_mode _ = false

-- the first tag's rest behind "expires:"
unfoldable pub expiry_tag : List String → Option String
expiry_tag [] = none
expiry_tag (t ∷ tags) = elim (strip_prefix "expires:" t) [
  | none ↦ expiry_tag tags
  | some s ↦ some s
]

abbrev pub or_else {ℓ} : {A : Type ℓ} → Option A → Option A → Option A
or_else (some a) o = some a
or_else none o = o

abbrev pub and_then {ℓ κ} : {A : Type ℓ} {B : Type κ} → Option A → (A → Option B) → Option B
and_then (some a) f = f a
and_then none f = none

module _ (j : Json) (lower : String → String) (parse : String → Option ℕ) where
  open j use {Value, beq, pointer, to_string, is_null, as_array, as_str}

  abbrev pub Row : Type 0
  Row = StoredRecord Value

  unfoldable pub read_authorized : Row → ContextProfile → Bool
  read_authorized r profile =
      any (λ grant. grant.namespace == r.namespace && any (λ item. item == r.type_name) grant.types)
        profile.grants

  -- `crate::record::withdrawn`
  unfoldable pub withdrawn : Row → Bool
  withdrawn r = any (λ t. t == "equill:revoked" || t == "status:revoked") r.tags

  -- `held.contains(value)`
  unfoldable pub has_value : List Value → Value → Bool
  has_value values v = any (λ held. beq held v) values

  -- the four cases of a value or a set, on either side
  abbrev pub meets : Option (List Value) → Option (List Value) → Value → Value → Bool
  meets (some held) (some wanted) actual expected = any (λ v. has_value wanted v) held
  meets (some held) none actual expected = has_value held expected
  meets none (some wanted) actual expected = has_value wanted actual
  meets none none actual expected = beq actual expected

  unfoldable pub set_or_wildcard : Option Value → Value → Bool
  unfolding has_value
  set_or_wildcard none expected = true
  set_or_wildcard (some actual) expected =
      if is_null actual then true else meets (as_array actual) (as_array expected) actual expected

  -- `actual == Some(expected)`
  abbrev pub equals : Option Value → Value → Bool
  equals none expected = false
  equals (some actual) expected = beq actual expected

  abbrev pub coordinate_test : Bool → Option Value → Value → Bool
  coordinate_test true actual expected = set_or_wildcard actual expected
  coordinate_test false actual expected = equals actual expected

  abbrev pub coordinate_matches : Row → Selector → String × String → Option Value → Bool
  coordinate_matches r selector (key, place) none = true
  coordinate_matches r selector (key, place) (some expected) =
      coordinate_test (is_set_mode (lookup key selector.coordinate_modes)) (pointer r.payload place)
        expected

  unfoldable pub coordinates_match : Row → Selector → ContextRequest Value → Bool
  unfolding set_or_wildcard
  coordinates_match r selector request =
      all (λ c. coordinate_matches r selector c (lookup c.0 request.coordinates))
        selector.coordinate_pointers

  unfoldable pub exact_match : Row → String → Bool
  exact_match r query =
      if is_blank query
      then false
      else includes (lower query) (lower (to_string r.payload))
        || any (λ t. includes (lower query) (lower t)) r.tags

  abbrev pub is_kind : Option String → List String → Bool
  is_kind none kinds = false
  is_kind (some kind) kinds = any (λ item. item == kind) kinds

  unfoldable pub kind_matches : Row → Selector → List String → Bool
  kind_matches r selector kinds =
      is_kind (and_then (and_then selector.kind_pointer (pointer r.payload)) as_str) kinds

  unfoldable pub expiry : Row → Selector → Option String
  unfolding expiry_tag
  expiry r selector =
      or_else (and_then (and_then selector.expires_at_pointer (pointer r.payload)) as_str)
        (expiry_tag r.tags)

  abbrev pub expired_at : Option String → ℕ → Result Bool
  expired_at none at = ok false
  expired_at (some value) at = do
    instant ← ok_or (parse value) (context "record {} has invalid expiry")
    ok (ltb instant at)

  -- the guards of `gate` behind the lookup of the selector
  abbrev pub gate_selector :
      Row → ContextRequest Value → ℕ → Option Selector → Result (Option ExclusionReason)
  gate_selector r request at none = ok (some selector_mismatch)
  gate_selector r request at (some selector) = expired_at (expiry r selector) at >>= λ old.
      if old
      then ok (some expired)
      else if not (coordinates_match r selector request)
      then ok (some selector_mismatch)
      else if not (is_empty request.kinds) && not (kind_matches r selector request.kinds)
      then ok (some selector_mismatch)
      else ok none

  unfoldable pub gate :
      Row
      → ContextProfile
      → List (String × Selector)
      → ContextRequest Value
      → ℕ
      → List ℕ
      → Result (Option ExclusionReason)
  unfolding read_authorized withdrawn coordinates_match kind_matches expiry
  gate r profile selectors request at hidden =
      if not (read_authorized r profile)
      then ok (some unauthorized)
      else if contains hidden r.id
      then ok (some superseded)
      else if not request.include_superseded && withdrawn r
      then ok (some revoked)
      else ok_or (parse r.valid_at) (context "record {} has invalid valid_at") >>= λ valid_at.
          if ltb at valid_at
          then ok (some invalid_at_request_time)
          else gate_selector r request at (lookup r.type_name selectors)

  abbrev pub strategy_matches : Row → ContextRequest Value → List ℕ → List ℕ → Strategy → Bool
  strategy_matches r request texts meanings exact = exact_match r request.query
  strategy_matches r request texts meanings tag = has_any r.tags request.tags
  strategy_matches r request texts meanings recency = true
  strategy_matches r request texts meanings fts = contains texts r.id
  strategy_matches r request texts meanings hybrid = contains meanings r.id

  abbrev pub relevant_by : List Strategy → Option (Tier × List Strategy)
  relevant_by [] = none
  relevant_by (s ∷ matched) = some (relevant, s ∷ matched)

  unfoldable pub classify :
      Row → Selector → ContextRequest Value → List ℕ → List ℕ → Option (Tier × List Strategy)
  unfolding has_any exact_match
  classify r selector request texts meanings =
      if has_any r.tags selector.required_tags
      then some (required, tag ∷ [])
      else if has_any r.tags selector.core_tags
      then some (core, tag ∷ [])
      else relevant_by (filter (strategy_matches r request texts meanings) selector.strategies)
