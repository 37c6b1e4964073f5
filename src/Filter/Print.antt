-- ===== src/Filter/Print.antt =====
-- src/filter/mod.rs: the flag that a condition is written as, and what splitting makes of it.
use Prim.Native.Char.{Char, code}
use Prim.Native.String.{String}
use mathlib.Core.Path.{◌≡◌, refl, ap, ◌∙◌}
use mathlib.Core.Logic.{inl, inr}
use mathlib.Core.Bool.{Bool, true, false}
use mathlib.Core.Option.{none, some}
use mathlib.Core.List.{List, [], ◌∷◌, map}
use equill.Base.{◌==◌, nat_eq, is_blank, any_char, strip_prefix, glue, All, arith, Bool-cases}
use equill.Filter.Terms.{Term, null_term, literal, Condition}
use equill.Filter.Text.{split_on, split_once, is_nil}

unfoldable pub join : Char → List String → String
unfolding glue
join sep [] = String.[]
join sep (s ∷ []) = s
join sep (s ∷ t ∷ rest) = glue s (String.◌∷◌ sep (join sep (t ∷ rest)))

abbrev pub term_text : Term → String
term_text null_term = "null"
term_text (literal s) = s

abbrev pub mark : Bool → String → String
mark true s = String.◌∷◌ "!" s
mark false s = s

-- the flag of a condition
unfoldable pub print : Condition → String
unfolding glue join
print c =
    glue (join "." c.path) (String.◌∷◌ "=" (mark c.negated (join "," (map term_text c.values))))

abbrev is_char : Char → Char → Bool
is_char sep c = code c == code sep

-- the separator stands nowhere in the text
abbrev pub Lacks : Char → String → Type 0
Lacks sep s = any_char (is_char sep) s ≡ false

pub split_once-glue :
    (sep : Char) (a b : String)
    → Lacks sep a
    → split_once sep (glue a (String.◌∷◌ sep b)) ≡ some (a, b)
unfolding split_once glue any_char
split_once-glue sep String.[] b h = ground arith
split_once-glue sep (String.◌∷◌ c a) b h = elim (Bool-cases (code c == code sep)) [
  | inl p ↦ absurd (ground arith)
  | inr p ↦ rw (p, split_once-glue sep a b (ground arith)) refl
]

pub split_on_none : (sep : Char) (a : String) → Lacks sep a → split_on sep a ≡ a ∷ []
unfolding split_on any_char
split_on_none sep String.[] h = refl
split_on_none sep (String.◌∷◌ c a) h = elim (Bool-cases (code c == code sep)) [
  | inl p ↦ absurd (ground arith)
  | inr p ↦ rw (p, split_on_none sep a (ground arith)) refl
]

split_on-glue :
    (sep : Char) (a b : String)
    → Lacks sep a
    → split_on sep (glue a (String.◌∷◌ sep b)) ≡ a ∷ split_on sep b
unfolding split_on glue any_char
split_on-glue sep String.[] b h = ground arith
split_on-glue sep (String.◌∷◌ c a) b h = elim (Bool-cases (code c == code sep)) [
  | inl p ↦ absurd (ground arith)
  | inr p ↦ rw (p, split_on-glue sep a b (ground arith)) refl
]

pub split_on-join :
    (sep : Char) (s : String) (rest : List String)
    → All (Lacks sep) (s ∷ rest)
    → split_on sep (join sep (s ∷ rest)) ≡ s ∷ rest
unfolding join
split_on-join sep s [] h = split_on_none sep s h.0
split_on-join sep s (t ∷ rest) h =
    split_on-glue sep s (join sep (t ∷ rest)) h.0
    ∙ ap (λ parts. s ∷ parts) (split_on-join sep t rest h.1)

Lacks-glue : (sep : Char) (a b : String) → Lacks sep a → Lacks sep b → Lacks sep (glue a b)
unfolding glue any_char
Lacks-glue sep String.[] b h k = k
Lacks-glue sep (String.◌∷◌ c a) b h k = ground (arith, Lacks-glue sep a b)

pub Lacks-join :
    (sep mark : Char) (parts : List String)
    → is_char sep mark ≡ false
    → All (Lacks sep) parts
    → Lacks sep (join mark parts)
unfolding join any_char
Lacks-join sep mark [] other h = refl
Lacks-join sep mark (s ∷ []) other h = h.0
Lacks-join sep mark (s ∷ t ∷ rest) other h =
    let ih = Lacks-join sep mark (t ∷ rest) other h.1 in
    Lacks-glue sep s (String.◌∷◌ mark (join mark (t ∷ rest))) h.0 (ground arith)

is_blank-glue : (a b : String) → is_blank a ≡ false → is_blank (glue a b) ≡ false
unfolding glue is_blank
is_blank-glue String.[] b h = absurd (ground arith)
is_blank-glue (String.◌∷◌ c a) b h = ground (arith, is_blank-glue a b)

pub is_blank-join :
    (sep : Char) (s : String) (rest : List String)
    → is_blank s ≡ false
    → is_blank (join sep (s ∷ rest)) ≡ false
unfolding join
is_blank-join sep s [] h = h
is_blank-join sep s (t ∷ rest) h = is_blank-glue s (String.◌∷◌ sep (join sep (t ∷ rest))) h

-- a text that does not open with the mark goes on to have none when more is added
pub strip_prefix-glue :
    (a b : String)
    → is_nil a ≡ false
    → strip_prefix "!" a ≡ none
    → strip_prefix "!" (glue a b) ≡ none
unfolding strip_prefix glue
strip_prefix-glue String.[] b h k = cc
strip_prefix-glue (String.◌∷◌ c a) b h k = elim (Bool-cases (code "!" == code c)) [
  | inl p ↦ let bad : some a ≡ none = rw p at k in cc
  | inr p ↦ rw p refl
]
