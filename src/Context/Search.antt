-- ===== src/Context/Search.antt =====
-- src/context/semantic.rs and src/context/retrieval/search.rs: what the searches behind the
-- strategies found. The searches of the projection and of the vector index, the index's freshness
-- and the compiled patterns of queries to skip are parameters.
use equill.Base.{
  ℕ, suc, String, Bool, true, false, not, Option, none, some, List, [], ◌∷◌, ◌++◌, ◌==◌, nat_eq,
  string_eq, any, contains, lookup, insert, ltb, if◌then◌else◌,
}
use equill.Vector.Fusion.{Source, vector_half, text_half, Policy}
use equill.Context.Model.{Selector, Strategy, fts, hybrid, SearchSource, vector_source, fts_source}
use equill.Context.Matching.{or_else}

pub data VectorFreshness : Type 0 where
  current lagging unknown : VectorFreshness

pub record SemanticAnswer : Type 0 where
  pub answered_by : String
  pub fallback : Option String
  pub vector_freshness : VectorFreshness
  pub vector_indexed_records : Option ℕ
  pub vector_pending_records : Option ℕ
  pub vector_selected_records : Option ℕ
  pub fts_selected_records : Option ℕ

-- `StrategySearchReport`, with the ids of its hits
pub record SearchReport : Type 0 where
  pub hits : List ℕ
  pub answered_by : String
  pub fallback : Option String
  pub vector_freshness : VectorFreshness
  pub vector_indexed_records : Option ℕ
  pub vector_pending_records : Option ℕ

-- what `freshness_of` reads
pub record Reading : Type 0 where
  pub freshness : VectorFreshness
  pub indexed_records : Option ℕ
  pub pending_records : Option ℕ

pub record SemanticHits : Type 0 where
  pub ids : List ℕ
  pub answer : Option SemanticAnswer

abbrev pub no_hits : SemanticHits
no_hits = record { ids = []; answer = none }

-- `==` on `Strategy`, for the two that search
abbrev pub is_fts_strategy : Strategy → Bool
is_fts_strategy fts = true
is_fts_strategy _ = false

abbrev pub is_hybrid_strategy : Strategy → Bool
is_hybrid_strategy hybrid = true
is_hybrid_strategy _ = false

unfoldable pub asks_hybrid : Selector → Bool
asks_hybrid selector = any is_hybrid_strategy selector.strategies

unfoldable pub asks_fts : Selector → Bool
asks_fts selector = any is_fts_strategy selector.strategies

-- `if found.ids.insert(id) { found.ordered.push(id) }`; the set and the order hold the same ids
unfoldable pub add_ids : List ℕ → List ℕ → List ℕ
add_ids found [] = found
add_ids found (id ∷ hits) = add_ids (if contains found id then found else found ++ id ∷ []) hits

-- `u16::try_from(limit).unwrap_or(u16::MAX)`
abbrev pub as_u16 : ℕ → ℕ
as_u16 limit = if ltb 65535 limit then 65535 else limit

abbrev pub unwrap_limit : Option ℕ → ℕ
unwrap_limit none = 100
unwrap_limit (some limit) = limit

abbrev pub answer : SearchReport → String → Option String → SemanticAnswer
answer report answered_by fallback = record {
  answered_by = answered_by;
  fallback = fallback;
  vector_freshness = report.vector_freshness;
  vector_indexed_records = report.vector_indexed_records;
  vector_pending_records = report.vector_pending_records;
  vector_selected_records = some 0;
  fts_selected_records = some 0;
}

-- `get_or_insert` of a merged search's answer
abbrev pub first_answer : Option SemanticAnswer → SearchReport → SemanticAnswer
first_answer (some known) report = known
first_answer none report = record {
  answered_by = report.answered_by;
  fallback = report.fallback;
  vector_freshness = report.vector_freshness;
  vector_indexed_records = report.vector_indexed_records;
  vector_pending_records = report.vector_pending_records;
  vector_selected_records = none;
  fts_selected_records = none;
}

-- the weakest answer wins the label
abbrev pub weaken : SearchReport → SemanticAnswer → SemanticAnswer
weaken report known =
    if report.answered_by == "fts"
    then record {
      answered_by = "fts";
      fallback = or_else known.fallback report.fallback;
      vector_freshness = known.vector_freshness;
      vector_indexed_records = known.vector_indexed_records;
      vector_pending_records = known.vector_pending_records;
      vector_selected_records = known.vector_selected_records;
      fts_selected_records = known.fts_selected_records;
    }
    else known

abbrev pub merge_report : SearchReport → SemanticHits → SemanticHits
merge_report report found = record {
  ids = add_ids found.ids report.hits;
  answer = some (weaken report (first_answer found.answer report));
}

-- `fallback`
abbrev pub fallback_hits : String → Reading → SemanticHits
fallback_hits reason reading = record {
  ids = [];
  answer = some (record {
    answered_by = "fts";
    fallback = some reason;
    vector_freshness = reading.freshness;
    vector_indexed_records = reading.indexed_records;
    vector_pending_records = reading.pending_records;
    vector_selected_records = some 0;
    fts_selected_records = some 0;
  });
}

-- the `Hits` of search.rs: `vector` and `fts` hold the ids in the order of their ranks
pub record Hits : Type 0 where
  pub skipped_by : Option String
  pub fts : List ℕ
  pub semantic : List ℕ
  pub vector : List ℕ
  pub ranks : List (ℕ × ℕ)
  pub answer : Option SemanticAnswer
  pub order : Source × Source
  pub mixed : Bool

-- `ranks.entry(id).or_insert(rank)` over one ordered half
unfoldable pub add_ranks : List (ℕ × ℕ) → ℕ → List ℕ → List (ℕ × ℕ)
add_ranks ranks rank [] = ranks
add_ranks ranks rank (id ∷ ordered) =
    add_ranks (elim (lookup id ranks) [ none ↦ insert id rank ranks | some r ↦ ranks ]) (suc rank)
      ordered

abbrev pub half : Source → List ℕ → List ℕ → List ℕ
half vector_half vector text = vector
half text_half vector text = text

abbrev pub other : Source → Source
other vector_half = text_half
other text_half = vector_half

abbrev pub as_search_source : Source → SearchSource
as_search_source vector_half = vector_source
as_search_source text_half = fts_source

-- `Hits::source`
unfoldable pub source_of : Hits → ℕ → Option SearchSource × Option ℕ
source_of hits id = if not hits.mixed then (none, none) else (
  if contains (half hits.order.0 hits.vector hits.fts) id
      then some (as_search_source hits.order.0)
      else if contains (half hits.order.1 hits.vector hits.fts) id
      then some (as_search_source hits.order.1)
      else none,
  lookup id hits.ranks,
)

abbrev pub skipped : String → Policy → Hits
skipped rule policy = record {
  skipped_by = some rule;
  fts = [];
  semantic = [];
  vector = [];
  ranks = [];
  answer = none;
  order = policy.hybrid_order;
  mixed = false;
}

-- `record_limit.is_some() && semantic.answer.is_some()`
abbrev pub is_mixed : Option ℕ → Option SemanticAnswer → Bool
is_mixed (some limit) (some known) = true
is_mixed _ _ = false

-- the tail of `collect`, of what both halves found
unfoldable pub combine : List ℕ → SemanticHits → Option ℕ → Policy → Hits
unfolding add_ranks add_ids
combine texts meanings record_limit policy =
    let (one, two) = policy.hybrid_order in
    if is_mixed record_limit meanings.answer
    then record {
      skipped_by = none;
      fts = texts;
      semantic = add_ids (half one meanings.ids texts) (half (other one) meanings.ids texts);
      vector = meanings.ids;
      ranks =
          add_ranks (add_ranks [] 0 (half one meanings.ids texts)) 0 (half two meanings.ids texts);
      answer = meanings.answer;
      order = policy.hybrid_order;
      mixed = true;
    }
    else record {
      skipped_by = none;
      fts = texts;
      semantic = meanings.ids;
      vector = [];
      ranks = [];
      answer = meanings.answer;
      order = policy.hybrid_order;
      mixed = false;
    }
