-- ===== src/Base/Chars.antt =====
-- What the source uses of `str` and `char`: blank strings and control characters.
use Prim.Native.Nat.{ℕ}
use Prim.Native.Char.{Char, code}
use Prim.Native.String.{String, [], ◌∷◌}
use mathlib.Core.Option.{Option, none, some}
use mathlib.Core.Bool.{Bool, true, false, ◌&&◌, ◌||◌}
use equill.Base.Tests.{leb, if◌then◌else◌, ◌==◌, nat_eq}

abbrev between : ℕ → ℕ → ℕ → Bool
between low high n = leb low n && leb n high

-- `char::is_control`: the category Cc
abbrev pub is_control : Char → Bool
is_control c = between 0 31 (code c) || between 127 159 (code c)

-- `char::is_whitespace`: the property White_Space
abbrev pub is_whitespace : Char → Bool
is_whitespace c =
    between 9 13 (code c)
    || code c == 32
    || code c == 133
    || code c == 160
    || code c == 5760
    || between 8192 8202 (code c)
    || code c == 8232
    || code c == 8233
    || code c == 8239
    || code c == 8287
    || code c == 12288

-- `chars().any(test)`
unfoldable pub any_char : (Char → Bool) → String → Bool
any_char test [] = false
any_char test (c ∷ s) = test c || any_char test s

-- `trim().is_empty()`
unfoldable pub is_blank : String → Bool
is_blank [] = true
is_blank (c ∷ s) = is_whitespace c && is_blank s

-- `strip_prefix(prefix)`
unfoldable pub strip_prefix : String → String → Option String
strip_prefix [] s = some s
strip_prefix (c ∷ p) [] = none
strip_prefix (c ∷ p) (d ∷ s) =
    let rest = strip_prefix p s in if code c == code d then rest else none

abbrev is_found : Option String → Bool
is_found none = false
is_found (some s) = true

-- `contains(needle)`
unfoldable pub includes : String → String → Bool
unfolding strip_prefix
includes needle [] = is_found (strip_prefix needle [])
includes needle (c ∷ s) = is_found (strip_prefix needle (c ∷ s)) || includes needle s

-- two texts, one behind the other
unfoldable pub glue : String → String → String
glue [] t = t
glue (c ∷ s) t = c ∷ glue s t
