-- ===== src/Context/Assembly.antt =====
-- src/context/retrieval.rs and src/context/assembly.rs: a request answered from the store. The loads
-- of the store are the fields of `Store`, the searches those of `Searches`.
use Prim.Native.Nat.{compare}
use equill.Base.{
  ℕ, zero, ltb, String, Bool, true, false, ◌||◌, not, Option, some, List, [], ◌∷◌, ◌==◌, string_eq,
  any, filter, if◌then◌else◌, sort_by, compare_text,
}
use equill.Kernel.Error.{context, permission_denied, Result, ok, err, ◌>>=◌, ◌>>◌, refuse, ok_or}
use equill.Kernel.Identity.{StoreConfig, permits, require_root}
use equill.Json.{Json}
use equill.Json.Tree.{Tree}
use equill.Record.{StoredRecord}
use equill.Filter.Terms.{Filter}
use equill.Filter.Schema.{Definition, validate as validate_filter}
use equill.Vector.Fusion.{Policy}
use equill.Context.Model.{
  Strategy, exact, tag, recency, fts, hybrid, RuntimeBudget, Budgeted, Selector, ContextProfile,
  ContextRequest,
}
use equill.Context.Matching.{or_else}
use equill.Context.Search.{Hits}
use equill.Context.Collect.{Searches, collect}
use equill.Context.Budget.{apply}
use equill.Context.Diagnosis.{coordinate_diagnosis}
use equill.Context.Receipt.{
  ProjectionState, ready, VersionCoordinate, ContextReceipt, ContextBundle, Findings, Files, Faults,
  bundle,
}
use equill.Context.Retrieval.{
  Numbers, Cardinality, answering, Question, Sifted, selector_map, superseded_ids, is_readable,
  select,
}

-- `==` on `Strategy`
abbrev pub strategy_place : Strategy → ℕ
strategy_place exact = 0
strategy_place tag = 1
strategy_place recency = 2
strategy_place fts = 3
strategy_place hybrid = 4

abbrev pub is_strategy : Strategy → Strategy → Bool
is_strategy a b =
    not (ltb (strategy_place a) (strategy_place b) || ltb (strategy_place b) (strategy_place a))

-- the strategies of the selectors, as a `BTreeSet` lists them
unfoldable pub strategies_of : List Selector → List Strategy
strategies_of selectors =
    filter (λ s. any (λ (selector : Selector). any (is_strategy s) selector.strategies) selectors)
      (exact ∷ tag ∷ recency ∷ fts ∷ hybrid ∷ [])

abbrev pub is_ready : ProjectionState → Bool
is_ready ready = true
is_ready _ = false

unfoldable pub degraded_strategies_of : ProjectionState → List Strategy → List Strategy
degraded_strategies_of state strategies =
    if is_ready state || not (any (is_strategy fts) strategies) then [] else fts ∷ []

-- a retrieval policy, with the parts of it that retrieval and assembly read
pub record Settings : Type 0 where
  pub policy : Policy
  pub default_budget_records : Option ℕ
  pub skip_query : String → Option String

abbrev pub is_zero : Option ℕ → Bool
is_zero (some zero) = true
is_zero _ = false

module _ (j : Json) where
  open j use {Value}

  -- what `retrieve` is asked
  pub record Asking : Type 0 where
    pub profile : ContextProfile
    pub selectors : List Selector
    pub request : ContextRequest Value
    pub filter : Filter
    pub cardinality : Cardinality
    pub record_limit : Option ℕ
    pub settings : Settings

  -- what the store loads
  pub record Store : Type 0 where
    pub resolve : Result Settings
    pub load_config : Result (StoreConfig Value)
    pub load_profile : String → Result (ContextProfile × VersionCoordinate)
    pub load_selector : String → Result (Selector × VersionCoordinate)
    pub load_type : String → Result Definition
    pub request_digest : ContextRequest Value → Result String
    pub read_all : Result (List (StoredRecord Value))
    pub projection_state : Result ProjectionState

  -- `actor != config.root_owner` must be root or an actor of the profile
  abbrev pub require_reader : Store → String → StoreConfig Value → String → Result (Unit {0})
  require_reader store profile_id config actor =
      if actor == config.root_owner then ok tt else or_reader (require_root j config actor)
    where
      or_reader : Result (Unit {0}) → Result (Unit {0})
      or_reader (ok u) = ok tt
      or_reader (err e) = store.load_profile profile_id >>= λ loaded.
          if permits loaded.0.actors actor then ok tt else err permission_denied

  unfoldable pub load_selectors :
      Store → List String → Result (List Selector × List VersionCoordinate)
  load_selectors store [] = ok ([], [])
  load_selectors store (id ∷ ids) = do
    one ← store.load_selector id
    rest ← load_selectors store ids
    ok (one.0 ∷ rest.0, one.1 ∷ rest.1)

  unfoldable pub load_scope : Store → List Selector → Result (List Definition)
  load_scope store [] = ok []
  load_scope store (s ∷ selectors) = do
    one ← store.load_type s.type_name
    rest ← load_scope store selectors
    ok (one ∷ rest)

  abbrev pub by_name : List VersionCoordinate → List VersionCoordinate
  by_name coordinates = sort_by (λ (a b : VersionCoordinate). compare_text a.id b.id) coordinates

  abbrev pub with_default : RuntimeBudget → Settings → RuntimeBudget
  with_default runtime settings = record {
    tokens = runtime.tokens;
    records = or_else runtime.records settings.default_budget_records;
  }

  -- what `assemble` has loaded when it calls `retrieve`
  pub record Prepared : Type 0 where
    pub profile : VersionCoordinate
    pub selectors : List VersionCoordinate
    pub digest : String
    pub asking : Asking
    pub runtime : RuntimeBudget

  abbrev pub admit : Store → String → String → Result (Unit {0})
  admit store profile_id actor =
      store.load_config >>= λ config. require_reader store profile_id config actor

  abbrev pub asking_of :
      ContextProfile
      → List Selector
      → ContextRequest Value
      → Filter
      → RuntimeBudget
      → Settings
      → Asking
  asking_of profile selectors request f runtime settings = record {
    profile = profile;
    selectors = selectors;
    request = request;
    filter = f;
    cardinality = answering;
    record_limit = runtime.records;
    settings = settings;
  }

  -- the part of `assemble` from the profile to the check of the filter
  unfoldable pub load_asking :
      Store → String → ContextRequest Value → Filter → RuntimeBudget → Settings → Result Prepared
  unfolding load_selectors load_scope validate_filter sort_by compare_text
  load_asking store profile_id request f runtime settings = do
    loaded ← store.load_profile profile_id
    chosen ← load_selectors store loaded.0.selectors
    digest ← store.request_digest request
    scope ← load_scope store chosen.0
    validate_filter f scope
    ok (record {
      profile = loaded.1;
      selectors = by_name chosen.1;
      digest = digest;
      asking = asking_of loaded.0 chosen.0 request f runtime settings;
      runtime = runtime;
    })

  unfoldable pub prepare :
      Store → String → ContextRequest Value → String → Filter → RuntimeBudget → Result Prepared
  unfolding load_asking require_root permits
  prepare store profile_id request actor f runtime = do
    refuse (is_zero runtime.tokens) (context "runtime token budget must be positive")
    refuse (is_zero runtime.records) (context "runtime record budget must be positive")
    settings ← store.resolve
    admit store profile_id actor
    load_asking store profile_id request f (with_default runtime settings) settings

  module _ (lower : String → String) (parse : String → Option ℕ) (arms : Value → Tree)
      (uuid : ℕ → String) (numbers : Numbers Value) (searches : Searches) where
    open numbers use {F}

    abbrev pub Lists : Type 0
    Lists = Sifted j lower parse arms uuid numbers

    abbrev pub by_id : List (StoredRecord Value) → List (StoredRecord Value)
    by_id rows = sort_by (λ (a b : StoredRecord Value). compare a.id b.id) rows

    abbrev pub question :
        Asking → ℕ → List (StoredRecord Value) → Hits → Question j lower parse arms uuid numbers
    question asking at rows hits = record {
      profile = asking.profile;
      selectors = selector_map [] asking.selectors;
      request = asking.request;
      at = at;
      hidden =
          superseded_ids j lower parse asking.profile (selector_map [] asking.selectors)
            asking.request rows;
      hits = hits;
      filter = asking.filter;
    }

    abbrev pub findings : Asking → List (StoredRecord Value) → ProjectionState → Hits → Findings
    findings asking rows state hits = record {
      unmatched_coordinates =
          coordinate_diagnosis j lower parse
            (filter (is_readable j lower parse asking.profile (selector_map [] asking.selectors))
              rows)
            asking.selectors asking.request;
      strategies = strategies_of asking.selectors;
      degraded_strategies = degraded_strategies_of state (strategies_of asking.selectors);
      semantic = hits.answer;
      projection = state;
      query_skipped_by = hits.skipped_by;
    }

    unfoldable pub retrieve :
        Result ProjectionState → Asking → List (StoredRecord Value) → Result (Lists × Findings)
    unfolding selector_map superseded_ids strategies_of degraded_strategies_of collect
        coordinate_diagnosis select sort_by
    retrieve projection asking records = do
      at ← ok_or (parse asking.request.at) (context "request at must be RFC3339")
      let rows = by_id records
      state ← projection
      hits ←
          collect searches asking.settings.skip_query (is_ready state) asking.selectors
            asking.request.query asking.record_limit asking.settings.policy
      lists ←
          select j lower parse arms uuid numbers (question asking at rows hits) asking.selectors
            asking.cardinality asking.settings.policy rows
      ok (lists, findings asking rows state hits)

    module _ (render : List (StoredRecord Value) → Result String) (tokens : String → ℕ) (max : ℕ)
        (serialize : ContextReceipt → Result String) (sha256_hex : String → String) where
      -- what `assemble` hands to `bundle`
      pub record Assembled : Type 0 where
        pub prepared : Prepared
        pub retrieved : Lists
        pub findings : Findings
        pub budgeted : Budgeted

      abbrev pub refuse_overflow : Budgeted → Result (Unit {0})
      refuse_overflow b = refuse (ltb 0 b.required_overflow) (
          context
            "CONTEXT_REQUIRED_OVERFLOW: required context needs {} tokens but the effective limit is {}")

      -- `retrieve`, the budget and its check
      unfoldable pub complete : Store → Prepared → Result Assembled
      unfolding retrieve apply
      complete store p = do
        records ← store.read_all
        retrieved ← retrieve store.projection_state p.asking records
        budgeted ←
            apply Value F render tokens max retrieved.0.0 p.asking.profile.budget p.runtime
              retrieved.0.1
        refuse_overflow budgeted
        ok (record {
          prepared = p;
          retrieved = retrieved.0;
          findings = retrieved.1;
          budgeted = budgeted;
        })

      -- `assemble` up to the call of `bundle`
      unfoldable pub gather :
          Store → String → ContextRequest Value → String → Filter → RuntimeBudget → Result Assembled
      unfolding prepare complete
      gather store profile_id request actor f runtime =
          prepare store profile_id request actor f runtime >>= λ p. complete store p

      abbrev pub bundle_assembled : Faults → Files → Result Assembled → Result ContextBundle × Files
      bundle_assembled faults files (err e) = (err e, files)
      bundle_assembled faults files (ok a) =
          bundle serialize sha256_hex faults files a.prepared.profile a.prepared.selectors
            a.prepared.digest a.prepared.asking.profile.budget a.prepared.runtime a.findings
            a.budgeted

      unfoldable pub assemble :
          Faults
          → Files
          → Store
          → String
          → ContextRequest Value
          → String
          → Filter
          → RuntimeBudget
          → Result ContextBundle × Files
      unfolding gather bundle
      assemble faults files store profile_id request actor f runtime =
          bundle_assembled faults files (gather store profile_id request actor f runtime)
