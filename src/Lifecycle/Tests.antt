-- ===== src/Lifecycle/Tests.antt =====
-- Runs of the lifecycle rules on a small ledger, whose JSON values are strings.
use equill.Base.{
  ℕ, Bool-cases, String, ◌≡◌, ◌≢◌, refl, inl, inr, true, Option, none, some, List, [], ◌∷◌, ◌++◌,
  ◌==◌, ap, ◌∙◌, string_eq, nat_eq, eq_iff, contains, lookup, insert, filter, any, Elem, Unique,
  arith, if◌then◌else◌,
}
use equill.Kernel.Error.{Result, ok, err, invalid_type, panic}
use equill.Samples.{text}
use equill.Record.{StoredRecord, TypeDefinition, LifecycleMode, linear, dag}
use equill.Lifecycle.State.{
  LifecycleState, empty, from_records, record_all, record_into, keys_of, heads_claiming, head,
}
use equill.Lifecycle.Append.{validate_append_against}
use equill.Lifecycle.Graph.{validate_graph}
use equill.Lifecycle.Registry.{registered_types}
use equill.Lifecycle.Describes.{from_records-Describes, Describes}
use equill.Lifecycle.Valid.{Fits}
use equill.Lifecycle.Writer.{validate_lifecycle}
use equill.Lifecycle.Calm.{validate_graph-ne-panic}
use equill.Lifecycle.Writes.{validate_lifecycle-validate_graph, shared_target-refused}

abbrev row : ℕ → String → String → Option ℕ → StoredRecord String
row id type_name payload supersedes = record {
  id = id;
  namespace = "agent.memory";
  type_name = type_name;
  actor = "owner";
  recorded_at = "2026-01-02T00:00:00Z";
  observed_at = "2026-01-02T00:00:00Z";
  valid_at = "2026-01-02T00:00:00Z";
  payload = payload;
  evidence = [];
  tags = [];
  supersedes = supersedes;
}

abbrev kind : String → LifecycleMode → List String → TypeDefinition String
kind name mode allowed = record {
  type_name = name;
  uri = name;
  owner = "owner";
  payload_schema = "";
  lifecycle = record {
    mode = mode;
    key_pointer = some "/key";
    allowed_predecessor_types = allowed;
  };
}

-- "note" records form a graph, "plan" records a line that may start from a note
abbrev load : String → Result (TypeDefinition String)
load name =
    if name == "plan"
    then ok (kind "plan" linear ("note" ∷ []))
    else if name == "note"
    then ok (kind "note" dag [])
    else err (invalid_type "")

abbrev names : List String
names = "plan" ∷ "note" ∷ []

abbrev digest : StoredRecord String → Result String
digest r = ok "sha"

abbrev note_and_plan : List (StoredRecord String)
note_and_plan = row 1 "note" "k" none ∷ row 2 "plan" "k" (some 1) ∷ []

-- the note's line goes on
abbrev next_plan : StoredRecord String
next_plan = row 3 "plan" "k" (some 2)

-- a second child of the note, under another key
abbrev other_note : StoredRecord String
other_note = row 3 "note" "q" (some 1)

abbrev registered : List (String × TypeDefinition String)
registered = ("plan", kind "plan" linear ("note" ∷ [])) ∷ ("note", kind "note" dag []) ∷ []

registered-registered_types : registered_types text load names ≡ registered
unfolding registered_types
registered-registered_types = refl

abbrev state_of : Result (LifecycleState String) → LifecycleState String
state_of (ok s) = s
state_of (err e) = empty text

abbrev state : LifecycleState String
state = state_of (from_records text digest note_and_plan (registered_types text load names))

distinct_ids : Unique {A = ℕ} (1 ∷ 2 ∷ [])
unfolding contains
distinct_ids = (refl, (refl, tt))

described : Describes text (registered_types text load names) state note_and_plan
unfolding contains from_records record_all record_into empty
described =
    from_records-Describes text (registered_types text load names) digest note_and_plan state
      distinct_ids refl

complete :
    (name : String) (e : TypeDefinition String) → load name ≡ ok e → contains names name ≡ true
unfolding contains
complete name e h =
    ground (arith, eq_iff name "plan", eq_iff "plan" name, eq_iff name "note", eq_iff "note" name)

other_target :
    (r : StoredRecord String) (t : ℕ)
    → Elem r note_and_plan
    → r.supersedes ≡ some t
    → next_plan.supersedes ≢ some t
other_target r t (inl e) s h = let s' = ap (λ (x : StoredRecord String). x.supersedes) e ∙ s in cc
other_target r t (inr (inl e)) s h =
    let s' = ap (λ (x : StoredRecord String). x.supersedes) e ∙ s in absurd (ground arith)
other_target r t (inr (inr m)) s h = elim m [ ]

fits : Fits text load note_and_plan next_plan (kind "plan" linear ("note" ∷ []))
unfolding filter contains equill.Lifecycle.Graph.unique_keys equill.Lifecycle.Graph.counted
    equill.Lifecycle.Rules.eligible equill.Lifecycle.Rules.key
fits = record { alone = λ r e t m l p s. other_target r t m s; distinct = λ _. refl }

graph_accepts : validate_graph text load note_and_plan ≡ ok tt
unfolding validate_graph lookup insert equill.Lifecycle.Rules.linear_type
    equill.Lifecycle.Rules.append_only_type contains equill.Lifecycle.Rules.key
    equill.Lifecycle.Rules.require_key equill.Lifecycle.Graph.count any filter
    equill.Lifecycle.Rules.eligible
graph_accepts = refl

writer_accepts :
    validate_lifecycle text load next_plan
      (kind "plan" linear ("note" ∷ []))
      state
      (registered_types text load names)
    ≡ ok tt
unfolding validate_lifecycle validate_append_against lookup from_records insert empty
    equill.Lifecycle.Rules.append_only_type equill.Lifecycle.Rules.linear_type
    equill.Lifecycle.Rules.key keys_of registered_types equill.Lifecycle.Rules.accepts
    equill.Lifecycle.Rules.require_key head contains any heads_claiming filter
writer_accepts = refl

-- The writer's check accepts the second child, which a canonical read refuses.
writer_accepts_other :
    validate_lifecycle text load other_note
      (kind "note" dag [])
      state
      (registered_types text load names)
    ≡ ok tt
unfolding validate_lifecycle validate_append_against lookup from_records insert empty
    equill.Lifecycle.Rules.append_only_type equill.Lifecycle.Rules.linear_type filter
    registered_types equill.Lifecycle.Rules.accepts contains equill.Lifecycle.Rules.key any
    heads_claiming keys_of
writer_accepts_other = refl

all_ids : Unique {A = ℕ} (1 ∷ 2 ∷ 3 ∷ [])
unfolding contains
all_ids = (refl, (refl, (refl, tt)))

validate_lifecycle-validate_graph_example :
    validate_graph text load (note_and_plan ++ next_plan ∷ []) ≡ ok tt
unfolding contains
validate_lifecycle-validate_graph_example =
    validate_lifecycle-validate_graph text load names state note_and_plan next_plan
      (kind "plan" linear ("note" ∷ [])) (refl, (refl, tt)) complete refl distinct_ids refl
      described fits graph_accepts writer_accepts

shared_target-refused_example : validate_graph text load (note_and_plan ++ other_note ∷ []) ≢ ok tt
unfolding equill.Lifecycle.Rules.linear_type
shared_target-refused_example =
    shared_target-refused text load note_and_plan other_note (row 2 "plan" "k" (some 1))
      (kind "plan" linear ("note" ∷ [])) 1 all_ids (inr (inl refl)) refl refl refl refl

from_records-Describes_example :
    Describes text (registered_types text load names) state note_and_plan
unfolding from_records record_all record_into empty
from_records-Describes_example =
    from_records-Describes text (registered_types text load names) digest note_and_plan state
      distinct_ids refl

load_returns : (name : String) → load name ≢ err panic
load_returns name h = elim (Bool-cases (name == "plan")) [
  | inl p ↦ let bad = rw p at h in cc
  | inr p ↦
      let h' : (if name == "note" then ok (kind "note" dag []) else err (invalid_type ""))
          ≡ err panic =
        rw p at h in
      elim (Bool-cases (name == "note")) [
        | inl q ↦ let bad = rw q at h' in cc
        | inr q ↦ let bad = rw q at h' in cc
      ]
]

validate_graph-ne-panic_example :
    validate_graph text load (note_and_plan ++ other_note ∷ []) ≢ err panic
validate_graph-ne-panic_example =
    validate_graph-ne-panic text load (note_and_plan ++ other_note ∷ []) all_ids load_returns
