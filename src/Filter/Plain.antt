-- ===== src/Filter/Plain.antt =====
-- src/filter/mod.rs: what a condition that a flag was read as is like.
use mathlib.Core.Path.{subst}
use equill.Base.{
  String, ◌≡◌, refl, sym, ◌∙◌, inl, inr, Bool, true, false, ◌&&◌, ◌||◌, Option, none, some, List,
  [], ◌∷◌, ◌==◌, string_eq, eq_iff, map, any, All, arith, Bool-cases, is_blank, strip_prefix,
}
use equill.Kernel.Error.{
  ok, refuse, ok_or, >>=-eq-ok, >>-eq-ok, refuse-eq-ok, ok_or-eq-ok, ok-injective,
}
use equill.Filter.Terms.{is_null_term, Condition}
use equill.Filter.Text.{split_on, split_once, trim, is_nil}
use equill.Filter.Parse.{term_of, is_empty_literal, negation, is_many, read_values, condition}
use equill.Filter.Schema.{is_empty}
use equill.Filter.Print.{Lacks, term_text}
use equill.Filter.Trim.{
  trim_idem, is_blank-trim, Lacks-trim, split_once-Lacks, split_on-is_empty, All-split_on,
  All-split_on_self, FirstPlain, split_on-FirstPlain,
}
use equill.Filter.RoundTrip.{IsSegment, IsValue, Opens, IsPlain}

segments-of :
    (parts : List String)
    → All (Lacks "=") parts
    → All (Lacks ".") parts
    → any is_nil (map trim parts) ≡ false
    → All IsSegment (map trim parts)
unfolding any
segments-of [] e d n = tt
segments-of (s ∷ parts) e d n = (
  record {
    no_equals = Lacks-trim "=" s e.0;
    no_dot = Lacks-trim "." s d.0;
    trimmed = trim_idem s;
    some_text = is_blank-trim s (ground arith);
  },
  segments-of parts e.1 d.1 (ground arith),
)

term_of-IsValue :
    (s : String) → Lacks "," s → is_empty_literal (term_of s) ≡ false → IsValue (term_of s)
unfolding term_of
term_of-IsValue s h n = elim (Bool-cases (s == "null")) [
  | inl p ↦ rw p tt
  | inr p ↦ rw p (h, rw p at n, p)
]

values-of :
    (parts : List String)
    → All (Lacks ",") parts
    → any is_empty_literal (map term_of parts) ≡ false
    → All IsValue (map term_of parts)
unfolding any
values-of [] h n = tt
values-of (s ∷ parts) h n =
    (term_of-IsValue s h.0 (ground arith), values-of parts h.1 (ground arith))

pub term_text-term_of : (s : String) → term_text (term_of s) ≡ s
unfolding term_of
term_text-term_of s = elim (Bool-cases (s == "null")) [
  | inl p ↦ rw p (sym ((eq_iff s "null").0 p))
  | inr p ↦ rw p refl
]

Opens-of : (parts : List String) → FirstPlain parts → Opens (map term_of parts)
Opens-of [] h = tt
Opens-of (s ∷ parts) h = rw (term_text-term_of s) h

pub is_empty-map {ℓ κ} :
    {A : Type ℓ} {B : Type κ} (f : A → B) (xs : List A) → is_empty (map f xs) ≡ is_empty xs
is_empty-map f [] = refl
is_empty-map f (x ∷ xs) = refl

-- what `read_values` makes of a list of values
read_values-IsPlain :
    (path : List String) (negated : Bool) (raw : String) (c : Condition)
    → is_empty path ≡ false
    → All IsSegment path
    → (negated ≡ false → strip_prefix "!" raw ≡ none)
    → read_values path (negated, raw) ≡ ok c
    → IsPlain c.path c.negated c.values
unfolding read_values
read_values-IsPlain path negated raw c named segments opening h =
    let values = map term_of (split_on "," raw) in
    let (full, h1) = >>-eq-ok (refuse (any is_empty_literal values) _) _ h in
    let (unmixed, h2) =
      >>-eq-ok (refuse (negated && (is_many values && any is_null_term values)) _) _ h1 in
    let plain : IsPlain path negated values = record {
      named = named;
      segments = segments;
      asks = is_empty-map term_of (split_on "," raw) ∙ split_on-is_empty "," raw;
      terms = values-of (split_on "," raw) (All-split_on_self "," raw) (refuse-eq-ok _ _ full);
      opening = λ n. Opens-of (split_on "," raw) (split_on-FirstPlain "," raw (opening n));
      unmixed = refuse-eq-ok _ _ unmixed;
    } in
    subst (λ (c : Condition). IsPlain c.path c.negated c.values) (ok-injective h2) plain

negation-IsPlain :
    (path : List String) (raw : String) (stripped : Option String) (c : Condition)
    → strip_prefix "!" raw ≡ stripped
    → is_empty path ≡ false
    → All IsSegment path
    → read_values path (negation stripped raw) ≡ ok c
    → IsPlain c.path c.negated c.values
negation-IsPlain path raw none c e named segments h =
    read_values-IsPlain path false raw c named segments (λ n. e) h
negation-IsPlain path raw (some rest) c e named segments h =
    read_values-IsPlain path true rest c named segments (λ n. let bad = n in cc) h

-- A condition that a flag was read as has a path of trimmed names that are not blank and hold
-- neither `=` nor a dot, and at least one value; its literals are not empty, hold no comma and are
-- not the word for null; the first value of a flag that does not negate opens with no mark; and a
-- flag that negates holds no null beside other values.
pub condition-IsPlain :
    (flag : String) (c : Condition) → condition flag ≡ ok c → IsPlain c.path c.negated c.values
unfolding condition
condition-IsPlain flag c h =
    let (halves, split, h1) = >>=-eq-ok (ok_or (split_once "=" flag) _) _ h in
    let cut = ok_or-eq-ok _ _ split in
    let path = map trim (split_on "." halves.0) in
    let (named, h2) = >>-eq-ok (refuse (is_blank halves.0 || any is_nil path) _) _ h1 in
    let no_equals = split_once-Lacks "=" flag halves.0 halves.1 cut in
    let full = refuse-eq-ok _ _ named in
    negation-IsPlain path halves.1 (strip_prefix "!" halves.1) c refl
      (is_empty-map trim (split_on "." halves.0) ∙ split_on-is_empty "." halves.0)
      (segments-of (split_on "." halves.0) (All-split_on "=" "." halves.0 no_equals)
        (All-split_on_self "." halves.0) (ground arith))
      h2
