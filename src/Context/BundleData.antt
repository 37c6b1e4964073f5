-- ===== src/Context/BundleData.antt =====
-- A store of three records, its searches and its loads, for runs of an assembly.
use Prim.Native.Nat.{compare}
use equill.Base.{
  ℕ, String, ◌==◌, true, false, none, some, List, [], ◌∷◌, arith, string_eq, if◌then◌else◌,
  Antisymmetric,
}
use equill.Kernel.Error.{io, Result, ok}
use equill.Kernel.Identity.{StoreConfig}
use equill.Samples.{text}
use equill.Json.Tree.{Tree, text as text_tree}
use equill.Record.{StoredRecord, append_only}
use equill.Filter.Terms.{Filter}
use equill.Filter.Schema.{Definition}
use equill.Vector.Fusion.{vector_half, text_half, Policy}
use equill.Context.Model.{RuntimeBudget, Selector, ContextProfile, expect_one, default_tokenizer}
use equill.Context.Search.{SearchReport, lagging}
use equill.Context.Collect.{Searches}
use equill.Context.Receipt.{ready, VersionCoordinate, ContextReceipt, ContextBundle, Files, Faults}
use equill.Context.Retrieval.{Numbers}
use equill.Context.Assembly.{Store}
use equill.Context.GateTests.{row, profile, selector}

abbrev pub reader_profile : ContextProfile
reader_profile = record {
  id = "profile";
  version = "1";
  actors = "reader" ∷ [];
  grants = profile.grants;
  selectors = "notes" ∷ [];
  budget = record {
    total = some 40;
    required_cap = none;
    core_cap = none;
    relevant_floor = none;
    receipt_reserve = some 8;
    tokenizer = default_tokenizer;
  };
}

abbrev pub one_note : Selector
one_note = record selector { expect = expect_one }

abbrev pub elsewhere : StoredRecord String
elsewhere = record (row []) { id = 2; namespace = "other" }

abbrev pub revoked_row : StoredRecord String
revoked_row = record (row ("status:revoked" ∷ [])) { id = 3 }

abbrev pub policy : Policy
policy = record {
  hybrid_order = (vector_half, text_half);
  hybrid_fill_remaining = false;
  hybrid_deduplicate = true;
}

abbrev pub coordinate : String → VersionCoordinate
coordinate id = record { id = id; version = "1"; digest = "d" }

abbrev pub config : StoreConfig String
config = record {
  format_version = 1;
  root_owner = "owner";
  namespaces = "agent.memory" ∷ [];
  writers = [];
  read_only = [];
  write_grants = [];
  created_at_unix_ms = 0;
  default_context_profile = none;
  extra = [];
}

abbrev pub definition : Definition
definition = record {
  type_name = "note";
  uri = "note";
  owner = "owner";
  payload_schema = text_tree "";
  lifecycle = record { mode = append_only; key_pointer = none; allowed_predecessor_types = [] };
}

abbrev pub rows : List (StoredRecord String)
rows = revoked_row ∷ row [] ∷ elsewhere ∷ []

abbrev pub store : Store text
store = record {
  resolve =
      ok (record { policy = policy; default_budget_records = some 30; skip_query = λ q. none });
  load_config = ok config;
  load_profile = λ id. ok (reader_profile, coordinate id);
  load_selector = λ id. ok (one_note, coordinate id);
  load_type = λ name. ok definition;
  request_digest = λ r. ok "request";
  read_all = ok rows;
  projection_state = ok ready;
}

abbrev pub no_report : SearchReport
no_report = record {
  hits = [];
  answered_by = "fts";
  fallback = none;
  vector_freshness = lagging;
  vector_indexed_records = none;
  vector_pending_records = none;
}

abbrev pub searches : Searches
searches = record {
  vector_search = λ name limit. ok no_report;
  hybrid_search = λ name limit. ok no_report;
  text_search = λ name limit. ok [];
  freshness = ok (record { freshness = lagging; indexed_records = none; pending_records = none });
  explain = λ e. "unreachable";
}

-- numbers that all rank alike
abbrev pub numbers : Numbers String
numbers = record { F = ℕ; as_f64 = λ v. some 1; negate = λ x. x; total_cmp = compare }

pub compare-Antisymmetric : Antisymmetric compare
compare-Antisymmetric a b = ground arith

abbrev pub arms : String → Tree
arms s = text_tree s

abbrev pub uuid : ℕ → String
uuid n = "id"

abbrev pub render : List (StoredRecord String) → Result String
render [] = ok ""
render (r ∷ []) = ok "one"
render _ = ok "more"

abbrev pub tokens : String → ℕ
tokens s = if s == "one" then 10 else if s == "more" then 50 else 0

abbrev pub serialize : ContextReceipt → Result String
serialize receipt = ok receipt.bundle_digest

abbrev pub sha256_hex : String → String
sha256_hex s = s

abbrev pub no_filter : Filter
no_filter = record { conditions = []; strict = false }

abbrev pub runtime : RuntimeBudget
runtime = record { tokens = some 30; records = none }

abbrev pub files : Files
files = ("receipts/context/other.json", "other") ∷ []

abbrev pub full_disk : Faults
full_disk = record { reading = none; writing = some io }

abbrev pub no_faults : Faults
no_faults = record { reading = none; writing = none }

abbrev pub placeholder : ContextBundle
placeholder = record {
  content = "";
  bundle_digest = "";
  selected_record_ids = [];
  receipt = record {
    schema = "";
    profile = coordinate "";
    selectors = [];
    request_digest = "";
    included = [];
    excluded = [];
    unmatched_coordinates = [];
    strategies = [];
    budget = reader_profile.budget;
    runtime_budget_tokens = none;
    runtime_budget_records = none;
    effective_total_tokens = none;
    usage = record {
      required = 0;
      core = 0;
      relevant = 0;
      content = 0;
      receipt_reserved = 0;
      total = 0;
    };
    bundle_digest = "";
    projection = ready;
    degraded_strategies = [];
    degraded = false;
    empty = true;
    semantic = none;
    query_skipped_by = none;
  };
  receipt_persisted = false;
  receipt_path = none;
}
