-- ===== src/Context/Receipt.antt =====
-- src/context/receipt.rs: the receipt of an answer, and how the store keeps it. The store's files are
-- an association list of paths and contents; serde_json, SHA-256 and the faults of the file system
-- are parameters.
use equill.Base.{
  ℕ, String, Bool, true, false, ◌||◌, not, Option, none, some, List, ◌==◌, string_eq, map, lookup,
  insert, glue, if◌then◌else◌,
}
use equill.Kernel.Error.{Error, integrity, io, Result, ok, err}
use equill.Context.Model.{
  Strategy, ContextBudget, RuntimeBudget, SelectedCoordinate, ExcludedCoordinate, TokenUsage,
  UnmatchedCoordinate, Budgeted,
}
use equill.Context.Matching.{is_empty}
use equill.Context.Search.{SemanticAnswer}

pub data ProjectionState : Type 0 where
  ready queued degraded missing : ProjectionState

pub record VersionCoordinate : Type 0 where
  pub id : String
  pub version : String
  pub digest : String

pub record ContextReceipt : Type 0 where
  pub schema : String
  pub profile : VersionCoordinate
  pub selectors : List VersionCoordinate
  pub request_digest : String
  pub included : List SelectedCoordinate
  pub excluded : List ExcludedCoordinate
  pub unmatched_coordinates : List UnmatchedCoordinate
  pub strategies : List Strategy
  pub budget : ContextBudget
  pub runtime_budget_tokens : Option ℕ
  pub runtime_budget_records : Option ℕ
  pub effective_total_tokens : Option ℕ
  pub usage : TokenUsage
  pub bundle_digest : String
  pub projection : ProjectionState
  pub degraded_strategies : List Strategy
  pub degraded : Bool
  pub empty : Bool
  pub semantic : Option SemanticAnswer
  pub query_skipped_by : Option String

pub record ContextBundle : Type 0 where
  pub content : String
  pub bundle_digest : String
  pub selected_record_ids : List ℕ
  pub receipt : ContextReceipt
  pub receipt_persisted : Bool
  pub receipt_path : Option String

-- what a `Retrieval` hands to the receipt
pub record Findings : Type 0 where
  pub unmatched_coordinates : List UnmatchedCoordinate
  pub strategies : List Strategy
  pub degraded_strategies : List Strategy
  pub semantic : Option SemanticAnswer
  pub projection : ProjectionState
  pub query_skipped_by : Option String

abbrev pub Files : Type 0
Files = List (String × String)

-- the fault that reading, or creating and renaming, a file meets, if any
pub record Faults : Type 0 where
  pub reading : Option Error
  pub writing : Option Error

abbrev pub receipt_path_of : String → String
receipt_path_of digest = glue "receipts/context/" (glue digest ".json")

abbrev pub compare_existing :
    Option Error → Files → String → String → String → Result String × Files
compare_existing (some fault) files path old bytes = (err fault, files)
compare_existing none files path old bytes =
    if old == bytes
    then (ok path, files)
    else (err (integrity "context receipt hash collision"), files)

abbrev pub write_new : Option Error → Files → String → String → Result String × Files
write_new (some fault) files path bytes = (err fault, files)
write_new none files path bytes = (ok path, insert path bytes files)

abbrev pub write_or_compare :
    Faults → Files → String → String → Option String → Result String × Files
write_or_compare faults files path bytes (some old) =
    compare_existing faults.reading files path old bytes
write_or_compare faults files path bytes none = write_new faults.writing files path bytes

abbrev pub bundle_at : ContextReceipt → String → Option String → ContextBundle
bundle_at receipt content path = record {
  content = content;
  bundle_digest = receipt.bundle_digest;
  selected_record_ids = map (λ item. item.id) receipt.included;
  receipt = receipt;
  receipt_persisted = is_some path;
  receipt_path = path;
}
  where
    is_some : Option String → Bool
    is_some none = false
    is_some (some p) = true

-- a store that would not take the file is no error
abbrev pub bundle_persisted : ContextReceipt → String → Result String → Result ContextBundle
bundle_persisted receipt content (ok path) = ok (bundle_at receipt content (some path))
bundle_persisted receipt content (err io) = ok (bundle_at receipt content none)
bundle_persisted receipt content (err e) = err e

-- the counts of a limited hybrid search
abbrev count_selected : Budgeted → SemanticAnswer → Option ℕ → SemanticAnswer
count_selected b answer none = answer
count_selected b answer (some n) = record {
  answered_by = answer.answered_by;
  fallback = answer.fallback;
  vector_freshness = answer.vector_freshness;
  vector_indexed_records = answer.vector_indexed_records;
  vector_pending_records = answer.vector_pending_records;
  vector_selected_records = some b.vector_selected_records;
  fts_selected_records = some b.fts_selected_records;
}

abbrev count_answer : Budgeted → Option SemanticAnswer → Option SemanticAnswer
count_answer b none = none
count_answer b (some answer) = some (count_selected b answer answer.vector_selected_records)

module _ (serialize : ContextReceipt → Result String) (sha256_hex : String → String) where
  abbrev pub persist_bytes : Faults → Files → Result String → Result String × Files
  persist_bytes faults files (err e) = (err e, files)
  persist_bytes faults files (ok text) =
      let bytes = glue text "\n" in
      let path = receipt_path_of (sha256_hex bytes) in
      write_or_compare faults files path bytes (lookup path files)

  unfoldable pub persist : Faults → Files → ContextReceipt → Result String × Files
  unfolding glue
  persist faults files receipt = persist_bytes faults files (serialize receipt)

  unfoldable pub receipt_of :
      VersionCoordinate
      → List VersionCoordinate
      → String
      → ContextBudget
      → RuntimeBudget
      → Findings
      → Budgeted
      → ContextReceipt
  receipt_of profile selectors request_digest budget runtime found b = record {
    schema = "equill.context-receipt.v4";
    profile = profile;
    selectors = selectors;
    request_digest = request_digest;
    included = b.selected;
    excluded = b.excluded;
    unmatched_coordinates = found.unmatched_coordinates;
    strategies = found.strategies;
    budget = budget;
    runtime_budget_tokens = runtime.tokens;
    runtime_budget_records = runtime.records;
    effective_total_tokens = b.effective_total;
    usage = b.usage;
    bundle_digest = sha256_hex b.content;
    projection = found.projection;
    degraded_strategies = found.degraded_strategies;
    degraded = b.degraded || not (is_empty found.degraded_strategies);
    empty = is_empty b.selected;
    semantic = count_answer b found.semantic;
    query_skipped_by = found.query_skipped_by;
  }

  unfoldable pub bundle :
      Faults
      → Files
      → VersionCoordinate
      → List VersionCoordinate
      → String
      → ContextBudget
      → RuntimeBudget
      → Findings
      → Budgeted
      → Result ContextBundle × Files
  unfolding persist receipt_of
  bundle faults files profile selectors request_digest budget runtime found b =
      let receipt = receipt_of profile selectors request_digest budget runtime found b in
      let (stored, after) = persist faults files receipt in
      (bundle_persisted receipt b.content stored, after)
