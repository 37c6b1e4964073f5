-- ===== src/Filter/Text.antt =====
-- What src/filter/mod.rs uses of `str`: splitting and trimming.
use Prim.Native.Char.{Char, code}
use Prim.Native.String.{String}
use mathlib.Core.Bool.{Bool, true, false, ◌&&◌}
use mathlib.Core.Option.{Option, none, some}
use mathlib.Core.List.{List, [], ◌∷◌}
use equill.Base.{◌==◌, nat_eq, if◌then◌else◌, is_whitespace}

abbrev pub push_front : Char → List String → List String
push_front c [] = String.◌∷◌ c String.[] ∷ []
push_front c (s ∷ parts) = String.◌∷◌ c s ∷ parts

-- `split(sep)`
unfoldable pub split_on : Char → String → List String
split_on sep String.[] = String.[] ∷ []
split_on sep (String.◌∷◌ c s) =
    let parts = split_on sep s in
    if code c == code sep then String.[] ∷ parts else push_front c parts

abbrev pub push_first : Char → Option (String × String) → Option (String × String)
push_first c none = none
push_first c (some (a, b)) = some (String.◌∷◌ c a, b)

-- `split_once(sep)`
unfoldable pub split_once : Char → String → Option (String × String)
split_once sep String.[] = none
split_once sep (String.◌∷◌ c s) =
    let later = split_once sep s in
    if code c == code sep then some (String.[], s) else push_first c later

unfoldable pub trim_start : String → String
trim_start String.[] = String.[]
trim_start (String.◌∷◌ c s) =
    let later = trim_start s in if is_whitespace c then later else String.◌∷◌ c s

abbrev pub is_nil : String → Bool
is_nil String.[] = true
is_nil (String.◌∷◌ c s) = false

unfoldable pub trim_end : String → String
trim_end String.[] = String.[]
trim_end (String.◌∷◌ c s) =
    let later = trim_end s in
    if is_whitespace c && is_nil later then String.[] else String.◌∷◌ c later

-- `trim()`
unfoldable pub trim : String → String
unfolding trim_start trim_end
trim s = trim_end (trim_start s)
