-- ===== src/Context/Retrieval.antt =====
-- src/context/retrieval.rs and its fallback.rs: from the records of the store to ordered candidates.
-- `arms` shows a value to the filter, and `numbers` is what is used of `f64`.
use Prim.Native.Nat.{compare, Ordering}
use equill.Base.{
  ℕ, String, Bool, true, false, ◌&&◌, not, Option, none, some, List, [], ◌∷◌, ◌++◌, ◌==◌, string_eq,
  nat_eq, any, filter, contains, length, lookup, insert, leb, if◌then◌else◌, then_with,
  compare_text, compare_option, sort_by,
}
use equill.Kernel.Error.{context, panic, Result, ok, err, ◌>>=◌, ◌>>◌, refuse}
use equill.Json.{Json}
use equill.Json.Tree.{Tree}
use equill.Record.{StoredRecord}
use equill.Filter.Terms.{Filter}
use equill.Filter.Apply.{matches}
use equill.Vector.Fusion.{Source, vector_half, text_half, same_source, Policy}
use equill.Context.Model.{
  Tier, required, core, relevant, is_tier, Strategy, hybrid, SearchSource, vector_source,
  fts_source, Candidate, ExclusionReason, selector_mismatch, filter_mismatch, ExcludedCoordinate,
  RankOrder, desc, asc, Expectation, expect_any, expect_some, expect_one, Selector, ContextProfile,
  ContextRequest,
}
use equill.Context.Matching.{Row, and_then, read_authorized, gate, classify}
use equill.Context.Search.{Hits, half, source_of}
use equill.Context.Budget.{Candidates, sort_by_id}

-- `as_f64`, the negation of a number and `total_cmp`
pub record Numbers (V : Type 0) : Type 1 where
  pub F : Type 0
  pub as_f64 : V → Option F
  pub negate : F → F
  pub total_cmp : F → F → Ordering

pub data Cardinality : Type 0 where
  answering diagnosing : Cardinality

abbrev pub is_answering : Cardinality → Bool
is_answering answering = true
is_answering diagnosing = false

abbrev pub tier_place : Tier → ℕ
tier_place required = 0
tier_place core = 1
tier_place relevant = 2

abbrev pub search_half : SearchSource → Source
search_half vector_source = vector_half
search_half fts_source = text_half

-- `source_order`
unfoldable pub source_order : Option SearchSource → Policy → ℕ
source_order none policy = 2
source_order (some source) policy =
    if same_source policy.hybrid_order.0 (search_half source) then 0 else 1

-- `candidate.strategies == [Strategy::Hybrid]`
abbrev pub is_hybrid_alone : List Strategy → Bool
is_hybrid_alone (hybrid ∷ []) = true
is_hybrid_alone _ = false

-- the `Found` of fallback.rs
pub record Found : Type 0 where
  pub vector : List ℕ
  pub fts : List ℕ
  pub preferred : Source

abbrev pub preferred_holds : Found → ℕ → Bool
preferred_holds found id = contains (half found.preferred found.vector found.fts) id

abbrev pub is_standing_in : Option Bool → Bool
is_standing_in (some b) = b
is_standing_in none = false

abbrev pub is_preferred : Option Bool → Bool
is_preferred (some b) = not b
is_preferred none = false

-- the test of `require` for one selector, on the number of its candidates
abbrev pub meets_expectation : Expectation → ℕ → Bool
meets_expectation expect_any n = true
meets_expectation expect_some n = leb 1 n
meets_expectation expect_one n = n == 1

-- `selector_map`, in which a later selector for a type takes the place of an earlier one
unfoldable pub selector_map : List (String × Selector) → List Selector → List (String × Selector)
selector_map known [] = known
selector_map known (s ∷ selectors) = selector_map (insert s.type_name s known) selectors

module _ (j : Json) (lower : String → String) (parse : String → Option ℕ) where
  open j use {Value, pointer}

  -- `matching::exclusion`
  abbrev pub exclusion : Row j lower parse → ExclusionReason → ExcludedCoordinate
  exclusion r reason = record {
    id = r.id;
    namespace = r.namespace;
    type_name = r.type_name;
    reason = reason;
  }

  -- the readable records whose type has a selector
  abbrev pub is_readable : ContextProfile → List (String × Selector) → Row j lower parse → Bool
  is_readable profile selectors r =
      read_authorized j lower parse r profile && is_some (lookup r.type_name selectors)
    where
      is_some : Option Selector → Bool
      is_some none = false
      is_some (some s) = true

  abbrev add_hidden : Option ℕ → List ℕ → List ℕ
  add_hidden none hidden = hidden
  add_hidden (some id) hidden = id ∷ hidden

  unfoldable pub hidden_by : List (Row j lower parse) → List ℕ
  hidden_by [] = []
  hidden_by (r ∷ rows) = add_hidden r.supersedes (hidden_by rows)

  -- `superseded`
  unfoldable pub superseded_ids :
      ContextProfile
      → List (String × Selector)
      → ContextRequest Value
      → List (Row j lower parse)
      → List ℕ
  unfolding hidden_by read_authorized
  superseded_ids profile selectors request rows =
      if request.include_superseded
      then []
      else hidden_by (filter (is_readable profile selectors) rows)

  module _ (arms : Value → Tree) (uuid : ℕ → String) (numbers : Numbers Value) where
    open numbers use {F, as_f64, negate, total_cmp}

    abbrev pub shown : Row j lower parse → StoredRecord Tree
    shown r = record {
      id = r.id;
      namespace = r.namespace;
      type_name = r.type_name;
      actor = r.actor;
      recorded_at = r.recorded_at;
      observed_at = r.observed_at;
      valid_at = r.valid_at;
      payload = arms r.payload;
      evidence = r.evidence;
      tags = r.tags;
      supersedes = r.supersedes;
    }

    -- `crate::filter::matches`
    unfoldable pub passes : Filter → Row j lower parse → Bool
    unfolding matches
    passes f r = matches uuid (shown r) f

    abbrev pub signed : RankOrder → F → F
    signed asc x = negate x
    signed desc x = x

    abbrev pub map_option : (F → F) → Option F → Option F
    map_option f none = none
    map_option f (some x) = some (f x)

    unfoldable pub rank_of : Row j lower parse → Selector → Option F
    rank_of r selector =
        map_option (signed selector.rank_order)
          (and_then (and_then selector.rank_pointer (pointer r.payload)) as_f64)

    abbrev pub source_if_relevant : Tier → Hits → ℕ → Option SearchSource × Option ℕ
    source_if_relevant tier hits id =
        if is_tier tier relevant then source_of hits id else (none, none)

    unfoldable pub candidate_of :
        Row j lower parse → Selector → Hits → Tier → List Strategy → Candidate Value F
    unfolding source_of rank_of
    candidate_of r selector hits tier matched = record {
      stored = r;
      tier = tier;
      strategies = matched;
      score = length matched;
      rank = rank_of r selector;
      source = (source_if_relevant tier hits r.id).0;
      search_rank = (source_if_relevant tier hits r.id).1;
    }

    -- the two lists that the loop fills
    abbrev pub Sifted : Type 0
    Sifted = Candidates Value F × List ExcludedCoordinate

    abbrev pub exclude : Row j lower parse → ExclusionReason → Sifted → Sifted
    exclude r reason (candidates, excluded) = (candidates, excluded ++ exclusion r reason ∷ [])

    abbrev pub include :
        Row j lower parse → Selector → Hits → Option (Tier × List Strategy) → Sifted → Sifted
    include r selector hits none sifted = exclude r selector_mismatch sifted
    include r selector hits (some (tier, matched)) (candidates, excluded) =
        (candidates ++ candidate_of r selector hits tier matched ∷ [], excluded)

    -- what the loop reads: the request at its instant, the selectors, the hidden ids and the hits
    pub record Question : Type 0 where
      pub profile : ContextProfile
      pub selectors : List (String × Selector)
      pub request : ContextRequest Value
      pub at : ℕ
      pub hidden : List ℕ
      pub hits : Hits
      pub filter : Filter

    -- `selector_map[type_name]`, which panics on a type without a selector
    abbrev pub classify_row :
        Question → Row j lower parse → Option Selector → Sifted → Result Sifted
    classify_row q r none sifted = err panic
    classify_row q r (some selector) sifted = ok (
        include r selector q.hits
          (classify j lower parse r selector q.request q.hits.fts q.hits.semantic) sifted)

    abbrev pub judge :
        Question → Row j lower parse → Option ExclusionReason → Sifted → Result Sifted
    judge q r (some reason) sifted = ok (exclude r reason sifted)
    judge q r none sifted = classify_row q r (lookup r.type_name q.selectors) sifted

    -- one round of the loop over the records
    unfoldable pub sift_one : Question → Row j lower parse → Sifted → Result Sifted
    unfolding passes gate classify candidate_of
    sift_one q r sifted =
        if not (passes q.filter r)
        then ok (exclude r filter_mismatch sifted)
        else gate j lower parse r q.profile q.selectors q.request q.at q.hidden >>= λ reason.
            judge q r reason sifted

    unfoldable pub sift : Question → List (Row j lower parse) → Sifted → Result Sifted
    unfolding sift_one
    sift q [] sifted = ok sifted
    sift q (r ∷ rows) sifted = do next ← sift_one q r sifted; sift q rows next

    unfoldable pub stood_in : Candidate Value F → Found → Option Bool
    stood_in c found =
        if is_tier c.tier relevant && is_hybrid_alone c.strategies
        then some (not (preferred_holds found c.stored.id))
        else none

    -- one round of the drain of the candidates
    abbrev pub drain_one : Found → Candidate Value F → Sifted → Sifted
    drain_one found c (kept, excluded) =
        if is_standing_in (stood_in c found)
        then (kept, excluded ++ exclusion c.stored selector_mismatch ∷ [])
        else (kept ++ c ∷ [], excluded)

    unfoldable pub drain : Found → Candidates Value F → Sifted → Sifted
    unfolding stood_in
    drain found [] sifted = sifted
    drain found (c ∷ candidates) sifted = drain found candidates (drain_one found c sifted)

    unfoldable pub keep_the_first_source_that_answered : Found → Sifted → Sifted
    unfolding stood_in drain
    keep_the_first_source_that_answered found (candidates, excluded) =
        if any (λ c. is_preferred (stood_in c found)) candidates
        then drain found candidates ([], excluded)
        else (candidates, excluded)

    abbrev pub compare_rank : Candidate Value F → Candidate Value F → Option F → Option F → Ordering
    compare_rank a b (some x) (some y) = total_cmp y x
    compare_rank a b (some x) none = Ordering.lt
    compare_rank a b none (some y) = Ordering.gt
    compare_rank a b none none = compare b.score a.score

    -- the comparator of `candidates.sort_by`
    unfoldable pub compare_candidates : Policy → Candidate Value F → Candidate Value F → Ordering
    unfolding source_order compare_text
    compare_candidates policy a b = then_with (compare (tier_place a.tier) (tier_place b.tier)) (
        then_with (compare (source_order a.source policy) (source_order b.source policy)) (
          then_with (compare_option a.search_rank b.search_rank) (
            then_with (compare_rank a b a.rank b.rank) (
              then_with (compare_text b.stored.observed_at a.stored.observed_at)
                (compare a.stored.id b.stored.id)))))

    abbrev pub found_for : Candidates Value F → Selector → ℕ
    found_for candidates selector =
        length (filter (λ c. c.stored.type_name == selector.type_name) candidates)

    unfoldable pub require : Candidates Value F → List Selector → Result (Unit {0})
    require candidates [] = ok tt
    require candidates (s ∷ selectors) =
        refuse (not (meets_expectation s.expect (found_for candidates s)))
          (context "selector {} over {} expected {wanted} and found {found}")
        >> require candidates selectors

    abbrev pub fall_back : Policy → Hits → Sifted → Sifted
    fall_back policy hits sifted =
        if policy.hybrid_fill_remaining
        then sifted
        else keep_the_first_source_that_answered
            (record { vector = hits.vector; fts = hits.fts; preferred = policy.hybrid_order.0 })
            sifted

    -- `retrieve` from the loop over the records on
    unfoldable pub select :
        Question → List Selector → Cardinality → Policy → List (Row j lower parse) → Result Sifted
    unfolding sift keep_the_first_source_that_answered compare_candidates require sort_by_id sort_by
    select q selectors cardinality policy rows = do
      sifted ← sift q rows ([], [])
      let (kept, excluded) = fall_back policy q.hits sifted
      let candidates = sort_by (compare_candidates policy) kept
      if is_answering cardinality then require candidates selectors else ok tt
      ok (candidates, sort_by_id excluded)
