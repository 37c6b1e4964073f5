-- ===== src/Context/Model.antt =====
-- src/context/model and src/context/budget.rs: candidates, budgets and the budgeted answer. `V` is
-- the type of JSON values and `F` that of `f64`, which the budget never reads.
use equill.Base.{ℕ, String, Bool, true, false, ◌&&◌, Option, some, List, ◌==◌, string_eq}
use equill.Record.{StoredRecord}

pub data Tier : Type 0 where
  required core relevant : Tier

-- `==` on `Tier`
abbrev pub is_tier : Tier → Tier → Bool
is_tier required required = true
is_tier core core = true
is_tier relevant relevant = true
is_tier _ _ = false

pub data Strategy : Type 0 where
  exact tag recency fts hybrid : Strategy

pub data SearchSource : Type 0 where
  vector_source fts_source : SearchSource

abbrev pub is_vector : Option SearchSource → Bool
is_vector (some vector_source) = true
is_vector _ = false

abbrev pub is_fts : Option SearchSource → Bool
is_fts (some fts_source) = true
is_fts _ = false

pub record Candidate (V F : Type 0) : Type 0 where
  pub stored : StoredRecord V
  pub tier : Tier
  pub strategies : List Strategy
  pub score : ℕ
  pub rank : Option F
  pub source : Option SearchSource
  pub search_rank : Option ℕ

pub record TokenizerCoordinate : Type 0 where
  pub id : String
  pub version : String

-- `TokenizerCoordinate::default()`
abbrev pub default_tokenizer : TokenizerCoordinate
default_tokenizer = record { id = "o200k_base"; version = "tiktoken-rs-0.12.0" }

abbrev pub same_tokenizer : TokenizerCoordinate → TokenizerCoordinate → Bool
same_tokenizer a b = a.id == b.id && a.version == b.version

pub record ContextBudget : Type 0 where
  pub total : Option ℕ
  pub required_cap : Option ℕ
  pub core_cap : Option ℕ
  pub relevant_floor : Option ℕ
  pub receipt_reserve : Option ℕ
  pub tokenizer : TokenizerCoordinate

pub record RuntimeBudget : Type 0 where
  pub tokens : Option ℕ
  pub records : Option ℕ

pub data ExclusionReason : Type 0 where
  unauthorized superseded revoked invalid_at_request_time expired : ExclusionReason
  selector_mismatch filter_mismatch : ExclusionReason
  required_overflow core_cap total_budget record_budget : ExclusionReason

pub record ExcludedCoordinate : Type 0 where
  pub id : ℕ
  pub namespace : String
  pub type_name : String
  pub reason : ExclusionReason

pub record SelectedCoordinate : Type 0 where
  pub id : ℕ
  pub namespace : String
  pub type_name : String
  pub tier : Tier
  pub tokens : ℕ
  pub strategies : List Strategy

pub record TokenUsage : Type 0 where
  pub required : ℕ
  pub core : ℕ
  pub relevant : ℕ
  pub content : ℕ
  pub receipt_reserved : ℕ
  pub total : ℕ

pub record Picked (V F : Type 0) : Type 0 where
  pub candidate : Candidate V F
  pub tokens : ℕ

pub record Budgeted : Type 0 where
  pub content : String
  pub required_limit : ℕ
  pub required_needed : ℕ
  pub selected : List SelectedCoordinate
  pub excluded : List ExcludedCoordinate
  pub usage : TokenUsage
  pub degraded : Bool
  pub required_overflow : ℕ
  pub effective_total : Option ℕ
  pub vector_selected_records : ℕ
  pub fts_selected_records : ℕ

pub data CoordinateMode : Type 0 where
  exact_mode set_mode : CoordinateMode

pub data RankOrder : Type 0 where
  desc asc : RankOrder

pub data Expectation : Type 0 where
  expect_any expect_some expect_one : Expectation

pub record Selector : Type 0 where
  pub id : String
  pub version : String
  pub type_name : String
  pub strategies : List Strategy
  pub required_tags : List String
  pub core_tags : List String
  pub kind_pointer : Option String
  pub expires_at_pointer : Option String
  pub rank_pointer : Option String
  pub rank_order : RankOrder
  pub expect : Expectation
  pub coordinate_pointers : List (String × String)
  pub coordinate_modes : List (String × CoordinateMode)

pub record ReadGrant : Type 0 where
  pub namespace : String
  pub types : List String

pub record ContextProfile : Type 0 where
  pub id : String
  pub version : String
  pub actors : List String
  pub grants : List ReadGrant
  pub selectors : List String
  pub budget : ContextBudget

pub record ContextRequest (V : Type 0) : Type 0 where
  pub at : String
  pub query : String
  pub tags : List String
  pub kinds : List String
  pub coordinates : List (String × V)
  pub include_superseded : Bool

pub record UnmatchedCoordinate : Type 0 where
  pub key : String
  pub declared : Bool
  pub exact_only : Bool
