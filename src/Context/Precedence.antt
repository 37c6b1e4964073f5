-- ===== src/Context/Precedence.antt =====
-- src/context/retrieval.rs: the keys of the order of the candidates, each written out apart from its
-- comparator.
use Prim.Native.Nat.{compare, Ordering}
use Prim.Native.Char.{code}
use Prim.Native.String.{String}
use text.Mathlib.TextEquality.{Char-path}
use equill.Base.{
  ℕ, ◌≤◌, ◌<◌, ◌≡◌, refl, sym, ap, ◌∙◌, if◌then◌else◌, ◌⊎◌, inl, inr, true, Option, none, some,
  arith, is_le, then_with, compare_text, compare_option,
}
use equill.Vector.Fusion.{Policy, Source, same_source, vector_half, text_half}
use equill.Context.Model.{Tier, required, core, relevant, SearchSource, vector_source, fts_source}
use equill.Context.Retrieval.{search_half, source_order, tier_place}

-- what is required stands before what is core, and that before what is relevant
abbrev pub TierBefore : Tier → Tier → Type 0
TierBefore required core = Unit
TierBefore required relevant = Unit
TierBefore core relevant = Unit
TierBefore _ _ = ⊥

-- the half of a hybrid search that the policy prefers
abbrev pub Prefers : Source → SearchSource → Type 0
Prefers vector_half vector_source = Unit
Prefers text_half fts_source = Unit
Prefers _ _ = ⊥

-- the preferred half, then the other half, then what no half found
abbrev pub SourceBefore : Source → Option SearchSource → Option SearchSource → Type 0
SourceBefore first none b = ⊥
SourceBefore first (some x) none = Unit
SourceBefore first (some x) (some y) = Prefers first x × (Prefers first y → ⊥)

-- no rank of a search, then the lower rank
abbrev pub SearchBefore : Option ℕ → Option ℕ → Type 0
SearchBefore none (some n) = Unit
SearchBefore (some m) (some n) = m < n
SearchBefore _ none = ⊥

-- one text stands before the other in the order of their code points
abbrev pub TextBefore : String → String → Type 0
TextBefore s String.[] = ⊥
TextBefore String.[] (String.◌∷◌ d t) = Unit
TextBefore (String.◌∷◌ c s) (String.◌∷◌ d t) = (code c < code d) ⊎ ((c ≡ d) × TextBefore s t)

-- by the one, and where it ties by the next
abbrev pub Lex : Type 0 → Type 0 → Type 0 → Type 0
Lex before tie next = before ⊎ (tie × next)

pub then_with-Lex :
    {before tie next : Type 0} (o p : Ordering)
    → (o ≡ Ordering.lt → before)
    → (o ≡ Ordering.eq → tie)
    → (is_le p ≡ true → next)
    → is_le (then_with o p) ≡ true
    → Lex before tie next
then_with-Lex Ordering.lt p f g k h = inl (f refl)
then_with-Lex Ordering.eq p f g k h = inr (g refl, k h)
then_with-Lex Ordering.gt p f g k h = cc

pub compare-below : (a b : ℕ) → compare a b ≡ Ordering.lt → a < b
compare-below a b h = ground arith

pub compare-same : (a b : ℕ) → compare a b ≡ Ordering.eq → a ≡ b
compare-same a b h = ground arith

pub compare-le : (a b : ℕ) → is_le (compare a b) ≡ true → a ≤ b
compare-le a b h = ground arith

pub tier-below : (a b : Tier) → tier_place a < tier_place b → TierBefore a b
tier-below required required h = absurd (omega arith)
tier-below required core h = tt
tier-below required relevant h = tt
tier-below core required h = absurd (omega arith)
tier-below core core h = absurd (omega arith)
tier-below core relevant h = tt
tier-below relevant required h = absurd (omega arith)
tier-below relevant core h = absurd (omega arith)
tier-below relevant relevant h = absurd (omega arith)

pub tier-same : (a b : Tier) → tier_place a ≡ tier_place b → a ≡ b
tier-same required required h = refl
tier-same required core h = absurd (omega arith)
tier-same required relevant h = absurd (omega arith)
tier-same core required h = absurd (omega arith)
tier-same core core h = refl
tier-same core relevant h = absurd (omega arith)
tier-same relevant required h = absurd (omega arith)
tier-same relevant core h = absurd (omega arith)
tier-same relevant relevant h = refl

pub search-below : (a b : Option ℕ) → compare_option a b ≡ Ordering.lt → SearchBefore a b
search-below none none h = cc
search-below none (some n) h = tt
search-below (some m) none h = cc
search-below (some m) (some n) h = compare-below m n h

pub search-same : (a b : Option ℕ) → compare_option a b ≡ Ordering.eq → a ≡ b
search-same none none h = refl
search-same none (some n) h = cc
search-same (some m) none h = cc
search-same (some m) (some n) h = ap some (compare-same m n h)

-- the first difference decides
then_with-eq :
    (o p : Ordering) → then_with o p ≡ Ordering.eq → (o ≡ Ordering.eq) × (p ≡ Ordering.eq)
then_with-eq Ordering.lt p h = cc
then_with-eq Ordering.eq p h = (refl, h)
then_with-eq Ordering.gt p h = cc

then_with-lt :
    (o p : Ordering)
    → then_with o p ≡ Ordering.lt
    → (o ≡ Ordering.lt) ⊎ ((o ≡ Ordering.eq) × (p ≡ Ordering.lt))
then_with-lt Ordering.lt p h = inl refl
then_with-lt Ordering.eq p h = inr (refl, h)
then_with-lt Ordering.gt p h = cc

pub text-same : (s t : String) → compare_text s t ≡ Ordering.eq → s ≡ t
unfolding compare_text
text-same String.[] String.[] h = refl
text-same String.[] (String.◌∷◌ d t) h = cc
text-same (String.◌∷◌ c s) String.[] h = cc
text-same (String.◌∷◌ c s) (String.◌∷◌ d t) h =
    let (here, later) = then_with-eq _ _ h in
    rw (Char-path c d (compare-same (code c) (code d) here), text-same s t later) refl

pub text-below : (s t : String) → compare_text s t ≡ Ordering.lt → TextBefore s t
unfolding compare_text
text-below String.[] String.[] h = cc
text-below String.[] (String.◌∷◌ d t) h = tt
text-below (String.◌∷◌ c s) String.[] h = cc
text-below (String.◌∷◌ c s) (String.◌∷◌ d t) h = elim (then_with-lt _ _ h) [
  | inl here ↦ inl (compare-below (code c) (code d) here)
  | inr (here, later) ↦
      inr (Char-path c d (compare-same (code c) (code d) here), text-below s t later)
]

-- the place of a source under a preference, as `source_order` counts it
abbrev place_of : Source → Option SearchSource → ℕ
place_of first none = 2
place_of vector_half (some vector_source) = 0
place_of vector_half (some fts_source) = 1
place_of text_half (some vector_source) = 1
place_of text_half (some fts_source) = 0

source_order-place_of :
    (policy : Policy) (a : Option SearchSource)
    → source_order a policy ≡ place_of policy.hybrid_order.0 a
unfolding source_order
source_order-place_of policy none = refl
source_order-place_of policy (some x) = by_half policy.hybrid_order.0 x
  where
    by_half :
        (first : Source) (x : SearchSource)
        → (if same_source first (search_half x) then 0 else 1) ≡ place_of first (some x)
    by_half vector_half vector_source = refl
    by_half vector_half fts_source = refl
    by_half text_half vector_source = refl
    by_half text_half fts_source = refl

place-below :
    (first : Source) (a b : Option SearchSource)
    → place_of first a < place_of first b
    → SourceBefore first a b
place-below first none none h = absurd (omega arith)
place-below vector_half none (some vector_source) h = absurd (omega arith)
place-below vector_half none (some fts_source) h = absurd (omega arith)
place-below text_half none (some vector_source) h = absurd (omega arith)
place-below text_half none (some fts_source) h = absurd (omega arith)
place-below first (some x) none h = tt
place-below vector_half (some vector_source) (some vector_source) h = absurd (omega arith)
place-below vector_half (some vector_source) (some fts_source) h = (tt, λ bad. bad)
place-below vector_half (some fts_source) (some vector_source) h = absurd (omega arith)
place-below vector_half (some fts_source) (some fts_source) h = absurd (omega arith)
place-below text_half (some vector_source) (some vector_source) h = absurd (omega arith)
place-below text_half (some vector_source) (some fts_source) h = absurd (omega arith)
place-below text_half (some fts_source) (some vector_source) h = (tt, λ bad. bad)
place-below text_half (some fts_source) (some fts_source) h = absurd (omega arith)

place-same :
    (first : Source) (a b : Option SearchSource) → place_of first a ≡ place_of first b → a ≡ b
place-same first none none h = refl
place-same vector_half none (some vector_source) h = absurd (omega arith)
place-same vector_half none (some fts_source) h = absurd (omega arith)
place-same text_half none (some vector_source) h = absurd (omega arith)
place-same text_half none (some fts_source) h = absurd (omega arith)
place-same vector_half (some vector_source) none h = absurd (omega arith)
place-same vector_half (some fts_source) none h = absurd (omega arith)
place-same text_half (some vector_source) none h = absurd (omega arith)
place-same text_half (some fts_source) none h = absurd (omega arith)
place-same first (some vector_source) (some vector_source) h = refl
place-same vector_half (some vector_source) (some fts_source) h = absurd (omega arith)
place-same text_half (some vector_source) (some fts_source) h = absurd (omega arith)
place-same vector_half (some fts_source) (some vector_source) h = absurd (omega arith)
place-same text_half (some fts_source) (some vector_source) h = absurd (omega arith)
place-same first (some fts_source) (some fts_source) h = refl

pub source-below :
    (policy : Policy) (a b : Option SearchSource)
    → source_order a policy < source_order b policy
    → SourceBefore policy.hybrid_order.0 a b
source-below policy a b h =
    place-below policy.hybrid_order.0 a b
      (rw (source_order-place_of policy a, source_order-place_of policy b) at h)

pub source-same :
    (policy : Policy) (a b : Option SearchSource)
    → source_order a policy ≡ source_order b policy
    → a ≡ b
source-same policy a b h =
    place-same policy.hybrid_order.0 a b
      (sym (source_order-place_of policy a) ∙ h ∙ source_order-place_of policy b)
