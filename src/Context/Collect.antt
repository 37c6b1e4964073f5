-- ===== src/Context/Collect.antt =====
-- src/context/semantic.rs and src/context/retrieval/search.rs: the searches that a request runs.
use equill.Base.{
  ℕ, String, Bool, true, false, ◌&&◌, ◌||◌, not, Option, none, some, List, [], ◌∷◌, filter,
  is_blank, if◌then◌else◌,
}
use equill.Kernel.Error.{Error, Result, ok, err, ◌>>=◌}
use equill.Vector.Fusion.{Policy}
use equill.Context.Model.{Selector}
use equill.Context.Matching.{is_empty}
use equill.Context.Search.{
  SearchReport, Reading, SemanticHits, no_hits, asks_hybrid, asks_fts, add_ids, as_u16,
  unwrap_limit, answer, merge_report, fallback_hits, Hits, skipped, combine,
}

abbrev pub is_some {ℓ} : {A : Type ℓ} → Option A → Bool
is_some none = false
is_some (some a) = true

-- the searches of the store, by the name of a type and a limit: the vector index under the vector and
-- under the hybrid strategy, and the projection
pub record Searches : Type 0 where
  pub vector_search : String → ℕ → Result SearchReport
  pub hybrid_search : String → ℕ → Result SearchReport
  pub text_search : String → ℕ → Result (List ℕ)
  pub freshness : Result Reading
  pub explain : Error → String

module _ (store : Searches) where
  unfoldable pub merged : List Selector → SemanticHits → Result SemanticHits
  unfolding add_ids
  merged [] found = ok found
  merged (selector ∷ wanted) found = do
    report ← store.hybrid_search selector.type_name 100
    merged wanted (merge_report report found)

  abbrev or_fall_back :
      Result SearchReport → (SearchReport → Result SemanticHits) → Result SemanticHits
  or_fall_back (err e) next =
      store.freshness >>= λ reading. ok (fallback_hits (store.explain e) reading)
  or_fall_back (ok report) next = next report

  unfoldable pub limited : List Selector → ℕ → SemanticHits → Result SemanticHits
  unfolding add_ids
  limited [] limit found = ok found
  limited (selector ∷ wanted) limit found =
      or_fall_back (store.vector_search selector.type_name (as_u16 limit)) (λ report.
        limited wanted limit (record {
          ids = add_ids found.ids report.hits;
          answer = some (answer report "hybrid" none);
        }))

  abbrev limited_or_merged : List Selector → Option ℕ → Result SemanticHits
  limited_or_merged wanted none = merged wanted no_hits
  limited_or_merged wanted (some limit) = limited wanted limit no_hits

  -- `semantic::hits`
  unfoldable pub semantic_hits : List Selector → String → Option ℕ → Result SemanticHits
  unfolding asks_hybrid merged limited
  semantic_hits selectors query record_limit =
      let wanted = filter asks_hybrid selectors in
      if is_blank query || is_empty wanted
      then ok no_hits
      else limited_or_merged wanted record_limit

  unfoldable pub search_texts : List Selector → ℕ → List ℕ → Result (List ℕ)
  unfolding add_ids
  search_texts [] limit found = ok found
  search_texts (selector ∷ wanted) limit found = do
    hits ← store.text_search selector.type_name limit
    search_texts wanted limit (add_ids found hits)

  abbrev searches_text : Option ℕ → Selector → Bool
  searches_text record_limit selector =
      asks_fts selector || (is_some record_limit && asks_hybrid selector)

  -- `text`
  unfoldable pub text_hits : Bool → List Selector → String → Option ℕ → Result (List ℕ)
  unfolding asks_hybrid asks_fts search_texts
  text_hits ready selectors query record_limit =
      if is_blank query || not ready
      then ok []
      else search_texts (filter (searches_text record_limit) selectors)
          (as_u16 (unwrap_limit record_limit)) []

  abbrev search_both : Bool → List Selector → String → Option ℕ → Policy → Result Hits
  search_both ready selectors query record_limit policy = do
    texts ← text_hits ready selectors query record_limit
    meanings ← semantic_hits selectors query record_limit
    ok (combine texts meanings record_limit policy)

  abbrev skip_or_search :
      Bool → List Selector → String → Option ℕ → Policy → Option String → Result Hits
  skip_or_search ready selectors query record_limit policy none =
      search_both ready selectors query record_limit policy
  skip_or_search ready selectors query record_limit policy (some rule) = ok (skipped rule policy)

  -- `collect`; `matched` is the first of the operator's rules that matches a query
  unfoldable pub collect :
      (String → Option String) → Bool → List Selector → String → Option ℕ → Policy → Result Hits
  unfolding text_hits semantic_hits combine
  collect matched ready selectors query record_limit policy =
      skip_or_search ready selectors query record_limit policy
        (if is_blank query then none else matched query)
