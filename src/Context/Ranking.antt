-- ===== src/Context/Ranking.antt =====
-- src/context/retrieval.rs: the order of the candidates, written out apart from its comparator.
use Prim.Native.Nat.{Ordering}
use Prim.Native.String.{String}
use equill.Base.{ℕ, ◌≤◌, ◌<◌, ◌≡◌, Option, none, some, [], ◌∷◌}
use equill.Json.{Json}
use equill.Json.Tree.{Tree}
use equill.Vector.Fusion.{Source}
use equill.Context.Model.{Candidate}
use equill.Context.Budget.{Candidates}
use equill.Context.Retrieval.{Numbers}
use equill.Context.Precedence.{TierBefore, SourceBefore, SearchBefore, TextBefore, Lex}

module _ (j : Json) (lower : String → String) (parse : String → Option ℕ) where
  open j use {Value}

  module _ (arms : Value → Tree) (uuid : ℕ → String) (numbers : Numbers Value) where
    open numbers use {F, total_cmp}

    -- a rank before none, the greater rank first, and without ranks the greater score
    abbrev pub RankBefore : Candidate Value F → Candidate Value F → Option F → Option F → Type 0
    RankBefore a b none none = b.score < a.score
    RankBefore a b none (some y) = ⊥
    RankBefore a b (some x) none = Unit
    RankBefore a b (some x) (some y) = total_cmp y x ≡ Ordering.lt

    abbrev pub SameRank : Candidate Value F → Candidate Value F → Option F → Option F → Type 0
    SameRank a b none none = a.score ≡ b.score
    SameRank a b (some x) (some y) = total_cmp y x ≡ Ordering.eq
    SameRank a b _ _ = ⊥

    -- one candidate may stand right before the other
    abbrev pub InOrder : Source → Candidate Value F → Candidate Value F → Type 0
    InOrder first a b = Lex (TierBefore a.tier b.tier) (a.tier ≡ b.tier) (
        Lex (SourceBefore first a.source b.source) (a.source ≡ b.source) (
          Lex (SearchBefore a.search_rank b.search_rank) (a.search_rank ≡ b.search_rank) (
            Lex (RankBefore a b a.rank b.rank) (SameRank a b a.rank b.rank) (
              Lex (TextBefore b.stored.observed_at a.stored.observed_at)
                (b.stored.observed_at ≡ a.stored.observed_at) (a.stored.id ≤ b.stored.id)))))

    abbrev pub IsRanked : Source → Candidates Value F → Type 0
    IsRanked first [] = Unit
    IsRanked first (a ∷ []) = Unit
    IsRanked first (a ∷ b ∷ rest) = InOrder first a b × IsRanked first (b ∷ rest)
