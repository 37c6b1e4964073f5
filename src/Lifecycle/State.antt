-- ===== src/Lifecycle/State.antt =====
-- src/record/lifecycle/state.rs: what a write knows of the ledger.
use Prim.Native.String.{slice, ◌++◌ as str_append}
use equill.Base.{
  ℕ, String, Bool, true, ◌&&◌, Option, none, some, List, [], ◌∷◌, ◌++◌, ◌==◌, string_eq, nat_eq,
  contains, filter, map, lookup, insert, if◌then◌else◌, not,
}
use equill.Kernel.Error.{Result, ok, ◌>>=◌}
use equill.Json.{Json}
use equill.Record.{StoredRecord, TypeDefinition}
use equill.Lifecycle.Rules.{key, is_value, linear_type, accepts}

pub record Entry (V : Type 0) : Type 0 where
  pub type_name : String
  pub namespace : String
  pub ledger : String
  pub record_sha256 : String
  pub supersedes : Option ℕ
  pub keys : List (String × V)

-- The watermark is the size of the ledger in bytes.
pub record LifecycleState (V : Type 0) : Type 0 where
  pub watermark : ℕ
  pub entries : List (ℕ × Entry V)
  pub superseded : List ℕ
  pub pending : List ℕ
  pub chain : String
  pub rewrite : Bool

-- `BTreeSet::insert`
abbrev pub add_id : ℕ → List ℕ → List ℕ
add_id x s = if contains s x then s else x ∷ s

abbrev pub add_target : Option ℕ → List ℕ → List ℕ
add_target none s = s
add_target (some t) s = add_id t s

module _ (j : Json) where
  open j use {Value}

  unfoldable pub head : LifecycleState Value → ℕ → Bool
  head state id = not (contains state.superseded id)

  -- the test of `heads_claiming`
  unfoldable pub claims : LifecycleState Value → String → String → Value → ℕ × Entry Value → Bool
  unfolding head
  claims state linear namespace k e =
      head state e.0 && (e.1.namespace == namespace && is_value j (lookup linear e.1.keys) k)

  unfoldable pub heads_claiming : LifecycleState Value → String → String → Value → List ℕ
  unfolding claims
  heads_claiming state linear namespace k =
      map (λ e. e.0) (filter (claims state linear namespace k) state.entries)

  -- the value under which `keys_of` files a record for one registered type
  unfoldable pub claimed_key : StoredRecord Value → String × TypeDefinition Value → Option Value
  claimed_key r (name, definition) =
      if linear_type j definition && accepts j name definition r.type_name
      then key j r definition
      else none

  abbrev pub add_key : String → Option Value → List (String × Value) → List (String × Value)
  add_key name none keys = keys
  add_key name (some k) keys = insert name k keys

  unfoldable pub keys_from :
      StoredRecord Value
      → List (String × Value)
      → List (String × TypeDefinition Value)
      → List (String × Value)
  unfolding claimed_key
  keys_from r keys [] = keys
  keys_from r keys ((name, definition) ∷ claiming) =
      keys_from r (add_key name (claimed_key r (name, definition)) keys) claiming

  -- every key that the record presents, one for each linear type that could claim it
  unfoldable pub keys_of :
      StoredRecord Value → List (String × TypeDefinition Value) → List (String × Value)
  unfolding keys_from
  keys_of r claiming = keys_from r [] claiming

  unfoldable pub empty : LifecycleState Value
  empty = record {
    watermark = 0;
    entries = [];
    superseded = [];
    pending = [];
    chain = "";
    rewrite = true;
  }

  -- `digest` stands for serde_json's `to_vec` followed by SHA-256.
  module _ (digest : StoredRecord Value → Result String) where
    -- `&recorded_at[..7]` is a year and a month.
    unfoldable pub record_into :
        LifecycleState Value
        → StoredRecord Value
        → List (String × Value)
        → Result (LifecycleState Value)
    record_into state r keys = do
      record_sha256 ← digest r
      ok (record state {
        superseded = add_target r.supersedes state.superseded;
        pending = state.pending ++ r.id ∷ [];
        entries =
            insert r.id
              (record {
                type_name = r.type_name;
                namespace = r.namespace;
                ledger = str_append "records/" (str_append (slice r.recorded_at 0 7) ".jsonl");
                record_sha256 = record_sha256;
                supersedes = r.supersedes;
                keys = keys;
              })
              state.entries;
      })

    unfoldable pub record_all :
        LifecycleState Value
        → List (StoredRecord Value)
        → List (String × TypeDefinition Value)
        → Result (LifecycleState Value)
    unfolding record_into
    record_all state [] claiming = ok state
    record_all state (r ∷ rs) claiming = do
      next ← record_into state r (keys_of r claiming)
      record_all next rs claiming

    unfoldable pub from_records :
        List (StoredRecord Value)
        → List (String × TypeDefinition Value)
        → Result (LifecycleState Value)
    unfolding record_all
    from_records rs claiming = record_all empty rs claiming
