-- ===== src/Filter/Trim.antt =====
-- src/filter/mod.rs: what splitting and trimming leave of a text.
use Prim.Native.Char.{Char, code}
use Prim.Native.String.{String}
use mathlib.Core.Path.{◌≡◌, refl, sym, ap, ◌∙◌}
use mathlib.Core.Logic.{inl, inr}
use mathlib.Core.Bool.{false, ◌&&◌}
use mathlib.Core.Option.{Option, none, some, some-injective}
use mathlib.Core.List.{List, [], ◌∷◌}
use equill.Base.{
  ◌==◌, nat_eq, is_whitespace, is_blank, any_char, strip_prefix, All, arith, Bool-cases,
}
use equill.Filter.Text.{
  split_on, push_front, split_once, push_first, trim_start, trim_end, trim, is_nil,
}
use equill.Filter.Print.{Lacks}
use equill.Filter.Schema.{is_empty}

-- the text opens with no white space
abbrev Starts : String → Type 0
Starts String.[] = Unit
Starts (String.◌∷◌ c s) = is_whitespace c ≡ false

trim_start-Starts : (s : String) → Starts (trim_start s)
unfolding trim_start
trim_start-Starts String.[] = tt
trim_start-Starts (String.◌∷◌ c s) = elim (Bool-cases (is_whitespace c)) [
  | inl p ↦ rw p (trim_start-Starts s)
  | inr p ↦ rw p p
]

trim_end-Starts : (s : String) → Starts s → Starts (trim_end s)
unfolding trim_end
trim_end-Starts String.[] h = tt
trim_end-Starts (String.◌∷◌ c s) h = rw h h

trim_start_id : (s : String) → Starts s → trim_start s ≡ s
unfolding trim_start
trim_start_id String.[] h = refl
trim_start_id (String.◌∷◌ c s) h = rw h refl

trim_end_idem : (s : String) → trim_end (trim_end s) ≡ trim_end s
unfolding trim_end
trim_end_idem String.[] = refl
trim_end_idem (String.◌∷◌ c s) = elim (Bool-cases (is_whitespace c && is_nil (trim_end s))) [
  | inl p ↦ rw p refl
  | inr p ↦ rw p (unfold trim_end in rw (trim_end_idem s, p) refl)
]

pub trim_idem : (s : String) → trim (trim s) ≡ trim s
unfolding trim
trim_idem s =
    ap trim_end (
      trim_start_id (trim_end (trim_start s))
        (trim_end-Starts (trim_start s) (trim_start-Starts s)))
    ∙ trim_end_idem (trim_start s)

not-blank : (s : String) → Starts s → is_nil s ≡ false → is_blank s ≡ false
unfolding is_blank
not-blank String.[] h k = cc
not-blank (String.◌∷◌ c s) h k = ground arith

pub is_blank-trim : (s : String) → is_nil (trim s) ≡ false → is_blank (trim s) ≡ false
unfolding trim
is_blank-trim s h =
    not-blank (trim_end (trim_start s)) (trim_end-Starts (trim_start s) (trim_start-Starts s)) h

Lacks-trim_start : (sep : Char) (s : String) → Lacks sep s → Lacks sep (trim_start s)
unfolding trim_start any_char
Lacks-trim_start sep String.[] h = h
Lacks-trim_start sep (String.◌∷◌ c s) h = elim (Bool-cases (is_whitespace c)) [
  | inl p ↦ rw p (Lacks-trim_start sep s (ground arith))
  | inr p ↦ rw p h
]

Lacks-trim_end : (sep : Char) (s : String) → Lacks sep s → Lacks sep (trim_end s)
unfolding trim_end any_char
Lacks-trim_end sep String.[] h = h
Lacks-trim_end sep (String.◌∷◌ c s) h = elim (Bool-cases (is_whitespace c && is_nil (trim_end s))) [
  | inl p ↦ rw p refl
  | inr p ↦ rw p (ground (arith, Lacks-trim_end sep s))
]

pub Lacks-trim : (sep : Char) (s : String) → Lacks sep s → Lacks sep (trim s)
unfolding trim
Lacks-trim sep s h = Lacks-trim_end sep (trim_start s) (Lacks-trim_start sep s h)

pub push_first-some :
    (c : Char) (o : Option (String × String)) (a b : String)
    → push_first c o ≡ some (a, b)
    → (d : String) × (o ≡ some (d, b)) × (a ≡ String.◌∷◌ c d)
push_first-some c none a b h = cc
push_first-some c (some (d, e)) a b h =
    let pairs : (String.◌∷◌ c d, e) ≡ (a, b) = cc in
    (
      d,
      ap (λ (p : String × String). some (d, p.1)) pairs,
      sym (ap (λ (p : String × String). p.0) pairs),
    )

pub split_once-Lacks : (sep : Char) (s a b : String) → split_once sep s ≡ some (a, b) → Lacks sep a
unfolding split_once any_char
split_once-Lacks sep String.[] a b h = cc
split_once-Lacks sep (String.◌∷◌ c s) a b h = elim (Bool-cases (code c == code sep)) [
  | inl p ↦
      let found : some (String.[], s) ≡ some (a, b) = rw p at h in
      let pairs = some-injective (String.[], s) (a, b) found in
      let empty = ap (λ (p : String × String). p.0) pairs in rw (← empty) refl
  | inr p ↦
      let (d, found, front) = push_first-some c (split_once sep s) a b (rw p at h) in
      let ih = split_once-Lacks sep s d b found in rw front (ground (arith, ih))
]

-- the pieces are never none
pub split_on-is_empty : (sep : Char) (s : String) → is_empty (split_on sep s) ≡ false
unfolding split_on
split_on-is_empty sep String.[] = refl
split_on-is_empty sep (String.◌∷◌ c s) = elim (Bool-cases (code c == code sep)) [
  | inl p ↦ rw p refl
  | inr p ↦ rw p (push_front-is_empty c (split_on sep s))
]
  where
    push_front-is_empty : (d : Char) (parts : List String) → is_empty (push_front d parts) ≡ false
    push_front-is_empty d [] = refl
    push_front-is_empty d (s ∷ parts) = refl

Lacks-push_front :
    (x c : Char) (parts : List String)
    → (code c == code x) ≡ false
    → All (Lacks x) parts
    → All (Lacks x) (push_front c parts)
unfolding any_char
Lacks-push_front x c [] h k = (rw h refl, tt)
Lacks-push_front x c (s ∷ parts) h k = (rw h k.0, k.1)

-- what a text lacks, its pieces lack
pub All-split_on : (x sep : Char) (s : String) → Lacks x s → All (Lacks x) (split_on sep s)
unfolding split_on any_char
All-split_on x sep String.[] h = (refl, tt)
All-split_on x sep (String.◌∷◌ c s) h =
    let ih = All-split_on x sep s (ground arith) in
    elim (Bool-cases (code c == code sep)) [
      | inl p ↦ rw p (refl, ih)
      | inr p ↦ rw p (Lacks-push_front x c (split_on sep s) (ground arith) ih)
    ]

-- no piece holds the separator
pub All-split_on_self : (sep : Char) (s : String) → All (Lacks sep) (split_on sep s)
unfolding split_on any_char
All-split_on_self sep String.[] = (refl, tt)
All-split_on_self sep (String.◌∷◌ c s) =
    let ih = All-split_on_self sep s in
    elim (Bool-cases (code c == code sep)) [
      | inl p ↦ rw p (refl, ih)
      | inr p ↦ rw p (Lacks-push_front sep c (split_on sep s) p ih)
    ]

-- the first piece does not open with the mark
abbrev pub FirstPlain : List String → Type 0
FirstPlain [] = Unit
FirstPlain (s ∷ parts) = strip_prefix "!" s ≡ none

pub split_on-FirstPlain :
    (sep : Char) (s : String) → strip_prefix "!" s ≡ none → FirstPlain (split_on sep s)
unfolding split_on strip_prefix
split_on-FirstPlain sep String.[] h = refl
split_on-FirstPlain sep (String.◌∷◌ c s) h = elim (Bool-cases (code "!" == code c)) [
  | inl p ↦ let bad : some s ≡ none = rw p at h in absurd (let worse = bad in cc)
  | inr p ↦ elim (Bool-cases (code c == code sep)) [
    | inl q ↦ rw q refl
    | inr q ↦ rw q (push_front-FirstPlain c (split_on sep s) p)
  ]
]
  where
    push_front-FirstPlain :
        (d : Char) (parts : List String)
        → (code "!" == code d) ≡ false
        → FirstPlain (push_front d parts)
    push_front-FirstPlain d [] k = rw k refl
    push_front-FirstPlain d (t ∷ parts) k = rw k refl
