-- ===== src/Record/Words.antt =====
-- src/record/word_limit.rs: how many words a field of a payload may hold. The maps are association
-- lists in the order of their names.
use Prim.Native.String.{String}
use equill.Base.{
  ℕ, suc, ◌≤◌, ◌≡◌, refl, sym, ◌↔◌, Bool, true, false, Option, none, some, List, [], ◌∷◌, ◌==◌,
  string_eq, nat_eq, is_whitespace, any, lookup, ltb, All, arith, if◌then◌else◌,
}
use mathlib.Core.Path.{subst}
use mathlib.Core.Option.{some-injective}
use equill.Kernel.Error.{invalid_record, Result, ok, err, ◌>>◌, refuse, >>-eq-ok, refuse-eq-ok}
use equill.Json.Tree.{Tree, as_str, get}

-- `FieldLimit`, of the fields of one type, and of the types
abbrev pub FieldLimits : Type 0
FieldLimits = List (String × ℕ)

abbrev pub Limits : Type 0
Limits = List (String × FieldLimits)

-- the words that begin in a text, by whether it goes on inside a word
unfoldable pub count_from : Bool → String → ℕ
count_from inside String.[] = 0
count_from inside (String.◌∷◌ c s) =
    let outside = count_from false s in
    let within = count_from true s in
    if is_whitespace c then outside else if inside then within else suc within

abbrev pub count : String → ℕ
count s = count_from false s

-- the rounds of the loop of `check` on one field
abbrev pub check_text : ℕ → Option String → Result (Unit {0})
check_text limit none =
    err (invalid_record "{type_name}.{name} is limited to {} words but is not text")
check_text limit (some s) =
    refuse (ltb limit (count s))
      (invalid_record "{type_name}.{name} has {actual} words, limit is {}")

abbrev pub check_field : ℕ → Option Tree → Result (Unit {0})
check_field limit none = ok tt
check_field limit (some value) = check_text limit (as_str value)

unfoldable pub check_fields : FieldLimits → Tree → Result (Unit {0})
unfolding get count_from
check_fields [] payload = ok tt
check_fields ((name, limit) ∷ fields) payload =
    check_field limit (get payload name) >> check_fields fields payload

abbrev check_type : Option FieldLimits → Tree → Result (Unit {0})
check_type none payload = ok tt
check_type (some fields) payload = check_fields fields payload

unfoldable pub check : Limits → String → Tree → Result (Unit {0})
unfolding check_fields
check limits type_name payload = check_type (lookup type_name limits) payload

unfoldable pub validate : Limits → Result (Unit {0})
validate [] = ok tt
validate ((type_name, fields) ∷ limits) =
    refuse (any (λ field. field.1 == 0) fields)
      (invalid_record "{type_name}.{name} max_words must be at least 1")
    >> validate limits

-- a field that is absent, or a text of at most so many words
abbrev pub Within : ℕ → Option Tree → Type 0
Within limit none = Unit
Within limit (some value) = (s : String) × (as_str value ≡ some s) × (count s ≤ limit)

abbrev pub AllWithin : Tree → Option FieldLimits → Type 0
AllWithin payload none = Unit
AllWithin payload (some fields) =
    All (λ (field : String × ℕ). Within field.1 (get payload field.0)) fields

check_text-within :
    (limit : ℕ) (o : Option String)
    → (check_text limit o ≡ ok tt) ↔ ((s : String) × (o ≡ some s) × (count s ≤ limit))
check_text-within limit none = (
  λ h. let bad = h in absurd (let worse = bad in cc),
  λ found. let bad = found.1 in absurd (let worse = bad in cc),
)
check_text-within limit (some s) = (
  λ h. let fits = refuse-eq-ok (ltb limit (count s)) _ h in (s, refl, ground arith),
  λ found.
      let same = some-injective s found.0 found.1 in
      let fits : count s ≤ limit = subst (λ x. count x ≤ limit) (sym same) found.2 in
      let small : ltb limit (count s) ≡ false = ground arith in rw small refl,
)

check_field-Within : (limit : ℕ) (o : Option Tree) → (check_field limit o ≡ ok tt) ↔ Within limit o
check_field-Within limit none = (λ h. tt, λ w. refl)
check_field-Within limit (some value) = check_text-within limit (as_str value)

check_fields-AllWithin :
    (fields : FieldLimits) (payload : Tree)
    → (check_fields fields payload ≡ ok tt) ↔ AllWithin payload (some fields)
unfolding check_fields
check_fields-AllWithin [] payload = (λ h. tt, λ w. refl)
check_fields-AllWithin ((name, limit) ∷ fields) payload = (
  λ h.
      let (one, rest) = >>-eq-ok (check_field limit (get payload name)) _ h in
      (
        (check_field-Within limit (get payload name)).0 one,
        (check_fields-AllWithin fields payload).0 rest,
      ),
  λ w.
      rw ((check_field-Within limit (get payload name)).1 w.0)
        ((check_fields-AllWithin fields payload).1 w.1),
)

check_type-AllWithin :
    (o : Option FieldLimits) (payload : Tree) → (check_type o payload ≡ ok tt) ↔ AllWithin payload o
check_type-AllWithin none payload = (λ h. tt, λ w. refl)
check_type-AllWithin (some fields) payload = check_fields-AllWithin fields payload

-- A payload passes the store's limits exactly when its type has none, or every limited field that it
-- has is a text of at most so many words.
pub check-AllWithin :
    (limits : Limits) (type_name : String) (payload : Tree)
    → (check limits type_name payload ≡ ok tt) ↔ AllWithin payload (lookup type_name limits)
unfolding check
check-AllWithin limits type_name payload = check_type-AllWithin (lookup type_name limits) payload
