-- ===== src/Vector/Fusion.antt =====
-- src/vector/fusion.rs, and the policy of src/retrieval/mod.rs that it reads: two ranked lists into
-- one. `V` is the type of JSON values.
use equill.Base.{
  ℕ, suc, ◌+◌, ◌*◌, String, Bool, true, false, ◌&&◌, ◌||◌, not, Option, none, some, List, [], ◌∷◌,
  ◌++◌, nat_eq, map, length, contains, lookup, insert, ltb, leb, if◌then◌else◌,
}
use equill.Record.{StoredRecord}

pub data Source : Type 0 where
  vector_half text_half : Source

abbrev pub same_source : Source → Source → Bool
same_source vector_half vector_half = true
same_source text_half text_half = true
same_source _ _ = false

pub record Policy : Type 0 where
  pub hybrid_order : Source × Source
  pub hybrid_fill_remaining : Bool
  pub hybrid_deduplicate : Bool

-- `K`
abbrev pub damping : ℕ
damping = 60

pub record Score : Type 0 where
  pub numerator : ℕ
  pub denominator : ℕ

-- `Score::of`
abbrev pub score_of : Option ℕ → Option ℕ → Score
score_of (some v) (some t) = record {
  numerator = (damping + t) + (damping + v);
  denominator = (damping + v) * (damping + t);
}
score_of (some v) none = record { numerator = 1; denominator = damping + v }
score_of none (some t) = record { numerator = 1; denominator = damping + t }
score_of none none = record { numerator = 0; denominator = 1 }

-- `Score::cmp`, cross-multiplied
abbrev pub score_less : Score → Score → Bool
score_less a b = ltb (a.numerator * b.denominator) (b.numerator * a.denominator)

abbrev pub name : Source → String
name vector_half = "vector"
name text_half = "fts"

-- who answered, and the source that stood in with the one that it stood in for
unfoldable pub answered_by : Option Source → Source → String × Option (String × String)
answered_by none preferred = ("hybrid", none)
answered_by (some source) preferred =
    if same_source source preferred
    then ("hybrid", none)
    else (name source, some (name source, name preferred))

-- `or`
abbrev pub or_option : Option ℕ → Option ℕ → Option ℕ
or_option (some a) o = some a
or_option none o = o

module _ (V : Type 0) where
  -- `SearchHit`, which wraps a record
  abbrev pub Hit : Type 0
  Hit = StoredRecord V

  abbrev pub Standing : Type 0
  Standing = Hit × (Option ℕ × Option ℕ)

  -- `entry(id).or_insert((hit, None, None))`
  abbrev pub or_insert : Hit → Option Standing → Standing
  or_insert hit none = (hit, (none, none))
  or_insert hit (some s) = s

  abbrev pub rank_vector : ℕ → Standing → Standing
  rank_vector rank (hit, (v, t)) = (hit, (or_option v (some rank), t))

  abbrev pub rank_text : ℕ → Standing → Standing
  rank_text rank (hit, (v, t)) = (hit, (v, or_option t (some rank)))

  -- the two loops over a list, whose first hit has the rank `rank`
  unfoldable pub stand :
      (ℕ → Standing → Standing) → ℕ → List (ℕ × Standing) → List Hit → List (ℕ × Standing)
  stand place rank standings [] = standings
  stand place rank standings (hit ∷ hits) =
      stand place (suc rank)
        (insert hit.id (place rank (or_insert hit (lookup hit.id standings))) standings) hits

  abbrev pub Scored : Type 0
  Scored = Score × Hit

  -- the comparison of `sort_by`: the left one goes first
  abbrev pub ranks_before : Scored → Scored → Bool
  ranks_before a b = score_less b.0 a.0 || (not (score_less a.0 b.0) && leb a.1.id b.1.id)

  unfoldable pub insert_ranked : Scored → List Scored → List Scored
  insert_ranked a [] = a ∷ []
  insert_ranked a (b ∷ rest) =
      let later = insert_ranked a rest in if ranks_before a b then a ∷ b ∷ rest else b ∷ later

  unfoldable pub sort_ranked : List Scored → List Scored
  sort_ranked [] = []
  sort_ranked (a ∷ rest) = insert_ranked a (sort_ranked rest)

  abbrev pub scored : ℕ × Standing → Scored
  scored (id, (hit, (v, t))) = (score_of v t, hit)

  unfoldable pub fuse : List Hit → List Hit → List Hit
  unfolding stand sort_ranked
  fuse vector text =
      map (λ a. a.1)
        (sort_ranked (map scored (stand rank_text 1 (stand rank_vector 1 [] vector) text)))

  -- the variables of `ordered`; a half that was taken is empty
  pub record Merge : Type 0 where
    pub vector : List Hit
    pub text : List Hit
    pub output : List Hit
    pub answered : Option Source
    pub seen : List ℕ

  abbrev pub get_or_insert : Option Source → Source → Option Source
  get_or_insert none source = some source
  get_or_insert (some s) source = some s

  abbrev pub push_hit : Source → Hit → Merge → Merge
  push_hit source hit m = record m {
    output = m.output ++ hit ∷ [];
    answered = get_or_insert m.answered source;
  }

  -- `seen.insert(id)` runs only where hits are deduplicated
  abbrev pub see : Bool → ℕ → Merge → Merge
  see dedup id m = record m { seen = if dedup then id ∷ m.seen else m.seen }

  -- one round of the inner loop
  unfoldable pub add_hit : Policy → ℕ → Source → Hit → Merge → Merge
  add_hit policy limit source hit m =
      if (not policy.hybrid_deduplicate || not (contains m.seen hit.id))
        && ltb (length m.output) limit
      then push_hit source hit (see policy.hybrid_deduplicate hit.id m)
      else see policy.hybrid_deduplicate hit.id m

  unfoldable pub add_hits : Policy → ℕ → Source → List Hit → Merge → Merge
  unfolding add_hit
  add_hits policy limit source [] m = m
  add_hits policy limit source (hit ∷ hits) m =
      add_hits policy limit source hits (add_hit policy limit source hit m)

  abbrev pub hits_of : Source → Merge → List Hit
  hits_of vector_half m = m.vector
  hits_of text_half m = m.text

  abbrev pub take_half : Source → Merge → Merge
  take_half vector_half m = record m { vector = [] }
  take_half text_half m = record m { text = [] }

  unfoldable pub merge_source : Policy → ℕ → Source → Merge → Merge
  unfolding add_hits
  merge_source policy limit source m =
      add_hits policy limit source (hits_of source m) (take_half source m)

  -- `position > 0 && !fill_remaining && !output.is_empty()` stops before the second source.
  abbrev pub answered_already : Policy → Merge → Bool
  answered_already policy m = not policy.hybrid_fill_remaining && ltb 0 (length m.output)

  unfoldable pub ordered : List Hit → List Hit → Policy → ℕ → List Hit × Option Source
  unfolding merge_source
  ordered vector text policy limit =
      let start : Merge = record {
        vector = vector;
        text = text;
        output = [];
        answered = none;
        seen = [];
      } in
      let first = merge_source policy limit policy.hybrid_order.0 start in
      let both = merge_source policy limit policy.hybrid_order.1 first in
      if answered_already policy first
      then (first.output, first.answered)
      else (both.output, both.answered)
