-- ===== src/Kernel/Identity.antt =====
-- src/kernel/identity.rs, and the store's configuration of src/kernel/store.rs: who may change what.
use equill.Base.{
  ℕ, String, Bool, true, false, ◌&&◌, ◌||◌, not, Option, none, some, List, [], ◌∷◌, ◌==◌, string_eq,
  any, all, any_char, is_blank, is_control,
}
use equill.Kernel.Error.{read_only_actor, permission_denied, Result, ok, err, ◌>>◌, refuse}
use equill.Json.{Json}

pub record WriteGrant (V : Type 0) : Type 0 where
  pub actors : List String
  pub namespace : String
  pub types : List String
  pub payload_equals : List (String × V)

pub record StoreConfig (V : Type 0) : Type 0 where
  pub format_version : ℕ
  pub root_owner : String
  pub namespaces : List String
  pub writers : List String
  pub read_only : List String
  pub write_grants : List (WriteGrant V)
  pub created_at_unix_ms : ℕ
  pub default_context_profile : Option String
  pub extra : List (String × V)

pub record WriteTarget (V : Type 0) : Type 0 where
  pub namespace : String
  pub type_name : String
  pub payload : V

unfoldable pub valid : String → Bool
valid identity = not (is_blank identity) && not (any_char is_control identity)

unfoldable pub permits : List String → String → Bool
permits allowed actor = valid actor && any (λ item. item == "*" || item == actor) allowed

abbrev pub matches : String → String → Bool
matches expected actual = expected == "*" || expected == actual

-- `if allowed { Ok(()) } else { Err(Error::PermissionDenied) }`
abbrev pub allow : Bool → Result (Unit {0})
allow true = ok tt
allow false = err permission_denied

module _ (j : Json) where
  open j use {Value, beq, pointer}

  -- `Err(Error::ReadOnlyActor(actor))` when the store holds the actor to reading
  unfoldable pub read_only : StoreConfig Value → String → Result (Unit {0})
  read_only config actor =
      refuse (any (λ item. item == actor) config.read_only) (read_only_actor actor)

  unfoldable pub require_root : StoreConfig Value → String → Result (Unit {0})
  unfolding read_only
  require_root config actor = read_only config actor >> allow (actor == config.root_owner)

  -- the root owner and the store-wide writers
  unfoldable pub broad : StoreConfig Value → String → Bool
  unfolding permits
  broad config actor = actor == config.root_owner || permits config.writers actor

  unfoldable pub require_writer : StoreConfig Value → String → Result (Unit {0})
  unfolding read_only broad
  require_writer config actor = read_only config actor >> allow (valid actor && broad config actor)

  abbrev no_fields : List (String × Value) → Bool
  no_fields [] = true
  no_fields (x ∷ xs) = false

  unfoldable pub scoped : StoreConfig Value → String → String → String → Bool
  unfolding permits
  scoped config actor namespace type_name =
      any
        (λ grant.
          permits grant.actors actor
          && matches grant.namespace namespace
          && any (λ item. matches item type_name) grant.types
          && no_fields grant.payload_equals)
        config.write_grants

  unfoldable pub require_type_writer :
      StoreConfig Value → String → String → String → Result (Unit {0})
  unfolding read_only broad scoped
  require_type_writer config actor namespace type_name =
      read_only config actor
      >> allow (valid actor && (broad config actor || scoped config actor namespace type_name))

  -- `target.payload.pointer(pointer) == Some(expected)`
  abbrev pub holds : Option Value → Value → Bool
  holds none expected = false
  holds (some v) expected = beq v expected

  unfoldable pub grant_allows : WriteGrant Value → String → WriteTarget Value → Bool
  unfolding permits
  grant_allows grant actor target =
      permits grant.actors actor
      && matches grant.namespace target.namespace
      && any (λ item. matches item target.type_name) grant.types
      && all (λ field. holds (pointer target.payload field.0) field.1) grant.payload_equals

  -- `predecessor.is_none_or(|target| grant_allows(grant, actor, target))`
  abbrev pub grant_allows_opt : WriteGrant Value → String → Option (WriteTarget Value) → Bool
  grant_allows_opt grant actor none = true
  grant_allows_opt grant actor (some target) = grant_allows grant actor target

  abbrev pub allow_granted :
      StoreConfig Value
      → String
      → WriteTarget Value
      → Option (WriteTarget Value)
      → Bool
      → Result (Unit {0})
  allow_granted config actor target predecessor true = ok tt
  allow_granted config actor target predecessor false = allow (
      any (λ grant. grant_allows grant actor target && grant_allows_opt grant actor predecessor)
        config.write_grants)

  unfoldable pub require_record_writer :
      StoreConfig Value
      → String
      → WriteTarget Value
      → Option (WriteTarget Value)
      → Result (Unit {0})
  unfolding read_only broad grant_allows
  require_record_writer config actor target predecessor =
      read_only config actor
      >> allow_granted config actor target predecessor (valid actor && broad config actor)
