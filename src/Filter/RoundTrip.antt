-- ===== src/Filter/RoundTrip.antt =====
-- src/filter/mod.rs: a condition is read back from the flag that it is written as.
use equill.Base.{
  Bool-cases, is_whitespace, inl, inr, String, ◌≡◌, refl, ap, ◌∙◌, Bool, true, false, ◌&&◌, none,
  List, [], ◌∷◌, ◌==◌, string_eq, map, any, All, arith, is_blank, any_char, strip_prefix,
}
use equill.Kernel.Error.{ok}
use equill.Filter.Terms.{Term, null_term, literal, is_null_term, Condition}
use equill.Filter.Text.{trim_start, trim_end, trim, is_nil}
use equill.Filter.Parse.{term_of, is_empty_literal, negation, is_many, read_values, condition}
use equill.Filter.Schema.{is_empty}
use equill.Filter.Print.{
  Lacks, join, print, mark, term_text, split_once-glue, split_on-join, Lacks-join, is_blank-join,
  strip_prefix-glue,
}

-- a name between the dots of a path
pub record IsSegment (s : String) : Type 0 where
  pub no_equals : Lacks "=" s
  pub no_dot : Lacks "." s
  pub trimmed : trim s ≡ s
  pub some_text : is_blank s ≡ false

-- a value between the commas of a list
abbrev pub IsValue : Term → Type 0
IsValue null_term = Unit
IsValue (literal s) = Lacks "," s × (is_nil s ≡ false) × ((s == "null") ≡ false)

-- the first of the values does not read as a negation
abbrev pub Opens : List Term → Type 0
Opens [] = Unit
Opens (v ∷ rest) = strip_prefix "!" (term_text v) ≡ none

-- what a condition that a flag stands for is like
pub record IsPlain (path : List String) (negated : Bool) (values : List Term) : Type 0 where
  pub named : is_empty path ≡ false
  pub segments : All IsSegment path
  pub asks : is_empty values ≡ false
  pub terms : All IsValue values
  pub opening : negated ≡ false → Opens values
  pub unmixed : (negated && (is_many values && any is_null_term values)) ≡ false

segments-lack_equals : (path : List String) → All IsSegment path → All (Lacks "=") path
segments-lack_equals [] h = tt
segments-lack_equals (s ∷ path) h = (h.0.no_equals, segments-lack_equals path h.1)

segments-lack_dot : (path : List String) → All IsSegment path → All (Lacks ".") path
segments-lack_dot [] h = tt
segments-lack_dot (s ∷ path) h = (h.0.no_dot, segments-lack_dot path h.1)

map-trim : (path : List String) → All IsSegment path → map trim path ≡ path
map-trim [] h = refl
map-trim (s ∷ path) h = rw (h.0.trimmed, map-trim path h.1) refl

is_nil_of_blank : (s : String) → is_blank s ≡ false → is_nil s ≡ false
unfolding is_blank
is_nil_of_blank String.[] h = absurd (ground arith)
is_nil_of_blank (String.◌∷◌ c s) h = refl

pub any-is_nil : (path : List String) → All IsSegment path → any is_nil path ≡ false
unfolding any
any-is_nil [] h = refl
any-is_nil (s ∷ path) h = ground (arith, is_nil_of_blank s h.0.some_text, any-is_nil path h.1)

values-lack_comma :
    (values : List Term) → All IsValue values → All (Lacks ",") (map term_text values)
unfolding any_char
values-lack_comma [] h = tt
values-lack_comma (null_term ∷ values) h = (refl, values-lack_comma values h.1)
values-lack_comma (literal s ∷ values) h = (h.0.0, values-lack_comma values h.1)

map-term_of :
    (values : List Term) → All IsValue values → map term_of (map term_text values) ≡ values
unfolding term_of
map-term_of [] h = refl
map-term_of (null_term ∷ values) h = ap (λ rest. null_term ∷ rest) (map-term_of values h.1)
map-term_of (literal s ∷ values) h =
    rw (h.0.2) (ap (λ rest. literal s ∷ rest) (map-term_of values h.1))

any-is_empty_literal :
    (values : List Term) → All IsValue values → any is_empty_literal values ≡ false
unfolding any
any-is_empty_literal [] h = refl
any-is_empty_literal (null_term ∷ values) h = any-is_empty_literal values h.1
any-is_empty_literal (literal s ∷ values) h = rw (h.0.1) (any-is_empty_literal values h.1)

pub read_values-join :
    (path : List String) (negated : Bool) (v : Term) (vs : List Term)
    → All IsValue (v ∷ vs)
    → (negated && (is_many (v ∷ vs) && any is_null_term (v ∷ vs))) ≡ false
    → read_values path (negated, join "," (map term_text (v ∷ vs)))
      ≡ ok (record { path = path; negated = negated; values = v ∷ vs })
unfolding read_values
read_values-join path negated v vs h unmixed =
    let split = split_on-join "," (term_text v) (map term_text vs) (values-lack_comma (v ∷ vs) h) in
    let back = ap (map term_of) split ∙ map-term_of (v ∷ vs) h in
    rw (back, any-is_empty_literal (v ∷ vs) h, unmixed) refl

strip_prefix-join :
    (v : Term) (vs : List Term)
    → IsValue v
    → Opens (v ∷ vs)
    → strip_prefix "!" (join "," (map term_text (v ∷ vs))) ≡ none
unfolding join
strip_prefix-join v [] h o = o
strip_prefix-join null_term (w ∷ vs) h o = strip_prefix-glue "null" _ refl o
strip_prefix-join (literal s) (w ∷ vs) h o = strip_prefix-glue s _ h.1 o

pub negation-mark :
    (negated : Bool) (v : Term) (vs : List Term)
    → IsValue v
    → (negated ≡ false → Opens (v ∷ vs))
    → let raw = mark negated (join "," (map term_text (v ∷ vs))) in
      negation (strip_prefix "!" raw) raw ≡ (negated, join "," (map term_text (v ∷ vs)))
unfolding strip_prefix
negation-mark true v vs h o = refl
negation-mark false v vs h o = rw (strip_prefix-join v vs h (o refl)) refl

trim_start-blank : (s : String) → is_blank s ≡ true → trim_start s ≡ String.[]
unfolding trim_start is_blank
trim_start-blank String.[] h = refl
trim_start-blank (String.◌∷◌ c s) h =
    let (white, later) = both (is_whitespace c) (is_blank s) h in
    rw white (trim_start-blank s later)
  where
    both : (a b : Bool) → (a && b) ≡ true → (a ≡ true) × (b ≡ true)
    both a b k = (ground arith, ground arith)

some_text-of_trim : (s : String) → is_blank (trim s) ≡ false → is_blank s ≡ false
unfolding trim
some_text-of_trim s h = elim (Bool-cases (is_blank s)) [
  | inl p ↦ absurd (blank_left (rw (trim_start-blank s p) at h))
  | inr p ↦ p
]
  where
    blank_left : is_blank (trim_end String.[]) ≡ false → ⊥
    blank_left = unfold trim_end in unfold is_blank in (λ bad. cc)

-- how a condition is written: names, which trimming makes the path, joined by dots; an equals sign;
-- a mark if it negates; and its values, joined by commas
pub record IsWritten (flag : String) (c : Condition) : Type 0 where
  pub names : List String
  pub spelt : flag ≡ print (record { path = names; negated = c.negated; values = c.values })
  pub trims : map trim names ≡ c.path
  pub no_equals : All (Lacks "=") names
  pub no_dot : All (Lacks ".") names
  pub plain : IsPlain c.path c.negated c.values

print-read :
    (names path : List String) (negated : Bool) (values : List Term)
    → map trim names ≡ path
    → All (Lacks "=") names
    → All (Lacks ".") names
    → IsPlain path negated values
    → condition (print (record { path = names; negated = negated; values = values }))
      ≡ ok (record { path = path; negated = negated; values = values })
unfolding condition print
print-read [] [] negated values e no_equals no_dot p = let bad = p.named in cc
print-read [] (s ∷ path) negated values e no_equals no_dot p = cc
print-read (n ∷ names) [] negated values e no_equals no_dot p = cc
print-read (n ∷ names) (s ∷ path) negated [] e no_equals no_dot p = let bad = p.asks in cc
print-read (n ∷ names) (s ∷ path) negated (v ∷ vs) e no_equals no_dot p =
    let raw = mark negated (join "," (map term_text (v ∷ vs))) in
    let halves =
      split_once-glue "=" (join "." (n ∷ names)) raw
        (Lacks-join "=" "." (n ∷ names) refl no_equals) in
    let dots = ap (map trim) (split_on-join "." n names no_dot) ∙ e in
    let first : trim n ≡ s = ap (first_of s) e in
    let some_text = some_text-of_trim n (rw first p.segments.0.some_text) in
    rw
      (
        halves,
        dots,
        is_blank-join "." n names some_text,
        any-is_nil (s ∷ path) p.segments,
        negation-mark negated v vs p.terms.0 p.opening,
      )
      (read_values-join (s ∷ path) negated v vs p.terms p.unmixed)
  where
    first_of : String → List String → String
    first_of d [] = d
    first_of d (x ∷ xs) = x

pub condition_of_written :
    (flag : String) (c : Condition) → IsWritten flag c → condition flag ≡ ok c
condition_of_written flag c w =
    ap condition w.spelt
    ∙ print-read w.names c.path c.negated c.values w.trims w.no_equals w.no_dot w.plain
