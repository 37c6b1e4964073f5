-- ===== src/Filter/Flags.antt =====
-- src/filter/mod.rs: which flags are read, and as what.
use Prim.Native.Char.{Char, code}
use text.Mathlib.TextEquality.{Char-path}
use equill.Base.{
  String, ◌≡◌, refl, sym, ap, ◌∙◌, ◌↔◌, inl, inr, Bool, true, false, ◌&&◌, ◌||◌, Option, none, some,
  List, [], ◌∷◌, ◌==◌, nat_eq, map, any, Bool-cases, is_blank, strip_prefix, glue,
}
use mathlib.Core.Option.{some-injective}
use equill.Kernel.Error.{ok, refuse, ok_or, >>=-eq-ok, >>-eq-ok, ok_or-eq-ok, ok-injective}
use equill.Filter.Terms.{is_null_term, Condition}
use equill.Filter.Text.{split_on, push_front, split_once, trim, is_nil}
use equill.Filter.Parse.{term_of, is_empty_literal, negation, is_many, read_values, condition}
use equill.Filter.Print.{join, mark, term_text, print}
use equill.Filter.Trim.{
  push_first-some, split_once-Lacks, split_on-is_empty, All-split_on, All-split_on_self,
}
use equill.Filter.Schema.{is_empty}
use equill.Filter.RoundTrip.{IsWritten, condition_of_written}
use equill.Filter.Plain.{term_text-term_of, condition-IsPlain}

same_char : (c d : Char) → (code c == code d) ≡ true → c ≡ d
same_char c d h = Char-path c d ((nat_eq.beq_iff (code c) (code d)).0 h)

split_once-glued :
    (sep : Char) (s a b : String) → split_once sep s ≡ some (a, b) → s ≡ glue a (String.◌∷◌ sep b)
unfolding split_once glue
split_once-glued sep String.[] a b h = cc
split_once-glued sep (String.◌∷◌ c s) a b h = elim (Bool-cases (code c == code sep)) [
  | inl p ↦
      let found : some (String.[], s) ≡ some (a, b) = rw p at h in
      let pairs = some-injective (String.[], s) (a, b) found in
      let front : String.[] ≡ a = ap (λ (p : String × String). p.0) pairs in
      let back : s ≡ b = ap (λ (p : String × String). p.1) pairs in
      let here = same_char c sep p in rw (← front, here, back) refl
  | inr p ↦
      let (d, found, front) = push_first-some c (split_once sep s) a b (rw p at h) in
      let ih = split_once-glued sep s d b found in rw front (ap (λ t. String.◌∷◌ c t) ih)
]

join-push_front :
    (sep c : Char) (parts : List String)
    → join sep (push_front c parts) ≡ String.◌∷◌ c (join sep parts)
unfolding join glue
join-push_front sep c [] = refl
join-push_front sep c (s ∷ []) = refl
join-push_front sep c (s ∷ t ∷ parts) = refl

-- the pieces of a text, joined, are the text
join-split_on : (sep : Char) (s : String) → join sep (split_on sep s) ≡ s
unfolding split_on
join-split_on sep String.[] = unfold join in refl
join-split_on sep (String.◌∷◌ c s) = elim (Bool-cases (code c == code sep)) [
  | inl p ↦ rw p (
      opens (split_on sep s) (split_on-is_empty sep s)
      ∙ rw (same_char c sep p) (ap (λ t. String.◌∷◌ sep t) (join-split_on sep s)))
  | inr p ↦
      rw p (join-push_front sep c (split_on sep s) ∙ ap (λ t. String.◌∷◌ c t) (join-split_on sep s))
]
  where
    opens :
        (parts : List String)
        → is_empty parts ≡ false
        → join sep (String.[] ∷ parts) ≡ String.◌∷◌ sep (join sep parts)
    opens [] h = cc
    opens (t ∷ parts) h = unfold join in unfold glue in refl

strip_prefix-some : (s rest : String) → strip_prefix "!" s ≡ some rest → s ≡ String.◌∷◌ "!" rest
unfolding strip_prefix
strip_prefix-some String.[] rest h = cc
strip_prefix-some (String.◌∷◌ c s) rest h = elim (Bool-cases (code "!" == code c)) [
  | inl p ↦
      let found : some s ≡ some rest = rw p at h in
      rw (← same_char "!" c p) (ap (λ t. String.◌∷◌ "!" t) (some-injective s rest found))
  | inr p ↦ let bad : none ≡ some rest = rw p at h in absurd (let worse = bad in cc)
]

term_texts : (parts : List String) → map term_text (map term_of parts) ≡ parts
term_texts [] = refl
term_texts (s ∷ parts) = rw (term_text-term_of s, term_texts parts) refl

-- what stands to the right of the equals sign
unfoldable spelt_right : Condition → String
spelt_right c = mark c.negated (join "," (map term_text c.values))

read_values-spelt :
    (path : List String) (negated : Bool) (raw : String) (c : Condition)
    → read_values path (negated, raw) ≡ ok c
    → (path ≡ c.path) × (spelt_right c ≡ mark negated raw)
unfolding read_values spelt_right
read_values-spelt path negated raw c h =
    let values = map term_of (split_on "," raw) in
    let (full, h1) = >>-eq-ok (refuse (any is_empty_literal values) _) _ h in
    let (unmixed, h2) =
      >>-eq-ok (refuse (negated && (is_many values && any is_null_term values)) _) _ h1 in
    let same = ok-injective h2 in
    let texts = ap (join ",") (term_texts (split_on "," raw)) ∙ join-split_on "," raw in
    (ap (λ (c : Condition). c.path) same, sym (ap spelt_right same) ∙ ap (mark negated) texts)

negation-spelt :
    (path : List String) (raw : String) (stripped : Option String) (c : Condition)
    → strip_prefix "!" raw ≡ stripped
    → read_values path (negation stripped raw) ≡ ok c
    → (path ≡ c.path) × (spelt_right c ≡ raw)
negation-spelt path raw none c e h = read_values-spelt path false raw c h
negation-spelt path raw (some rest) c e h =
    let (same, right) = read_values-spelt path true rest c h in
    (same, right ∙ sym (strip_prefix-some raw rest e))

condition-IsWritten : (flag : String) (c : Condition) → condition flag ≡ ok c → IsWritten flag c
unfolding condition print spelt_right
condition-IsWritten flag c h =
    let (halves, split, h1) = >>=-eq-ok (ok_or (split_once "=" flag) _) _ h in
    let cut = ok_or-eq-ok _ _ split in
    let names = split_on "." halves.0 in
    let (named, h2) = >>-eq-ok (refuse (is_blank halves.0 || any is_nil (map trim names)) _) _ h1 in
    let (path, right) =
      negation-spelt (map trim names) halves.1 (strip_prefix "!" halves.1) c refl h2 in
    record {
      names = names;
      spelt =
          split_once-glued "=" flag halves.0 halves.1 cut
          ∙ rw (join-split_on "." halves.0, right) refl;
      trims = path;
      no_equals = All-split_on "=" "." halves.0 (split_once-Lacks "=" flag halves.0 halves.1 cut);
      no_dot = All-split_on_self "." halves.0;
      plain = condition-IsPlain flag c h;
    }

-- A flag is read as a condition exactly when it is written as one: names that hold neither an equals
-- sign nor a dot, joined by dots, the condition's path being these names trimmed, none of them blank;
-- an equals sign; an exclamation mark exactly if the condition negates; and its values joined by
-- commas, at least one, where null is written `null` and a literal is any other text that is not
-- empty and holds no comma. Without the mark the first value does not open with one, and a condition
-- that negates holds no null beside other values.
pub condition_iff : (flag : String) (c : Condition) → (condition flag ≡ ok c) ↔ IsWritten flag c
condition_iff flag c = (condition-IsWritten flag c, condition_of_written flag c)
