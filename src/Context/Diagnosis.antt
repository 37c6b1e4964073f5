-- ===== src/Context/Diagnosis.antt =====
-- src/context/matching.rs: `coordinate_diagnosis`, why a requested coordinate matched nothing.
use equill.Base.{
  String, ◌≡◌, refl, Bool, true, false, ◌&&◌, ◌||◌, not, Option, none, some, List, [], ◌∷◌, ◌++◌, ℕ,
  string_eq, any, lookup, arith, if◌then◌else◌,
}
use equill.Json.{Json}
use equill.Context.Model.{Selector, ContextRequest, UnmatchedCoordinate}
use equill.Context.Matching.{Row, is_set_mode, coordinate_test}

-- the variables of the loop over the selectors
pub record Diagnosis : Type 0 where
  pub declared : Bool
  pub matched : Bool
  pub exact_only : Bool

module _ (j : Json) (lower : String → String) (parse : String → Option ℕ) where
  open j use {Value, pointer}

  abbrev Records : Type 0
  Records = List (Row j lower parse)

  -- `wildcard`
  abbrev pub is_wildcard : String → Selector → Bool
  is_wildcard key selector = is_set_mode (lookup key selector.coordinate_modes)

  abbrev pub some_match : Records → String → Value → Selector → Option String → Bool
  some_match records key expected selector none = false
  some_match records key expected selector (some place) =
      any
        (λ r.
          coordinate_test j lower parse (is_wildcard key selector) (pointer r.payload place)
            expected)
        records

  abbrev pub diagnose : Records → String → Value → Selector → Option String → Diagnosis → Diagnosis
  diagnose records key expected selector none d = d
  diagnose records key expected selector (some place) d = record {
    declared = true;
    matched = d.matched || some_match records key expected selector (some place);
    exact_only = if is_wildcard key selector then false else d.exact_only;
  }

  unfoldable pub diagnose_all : Records → String → Value → List Selector → Diagnosis → Diagnosis
  diagnose_all records key expected [] d = d
  diagnose_all records key expected (s ∷ selectors) d =
      diagnose_all records key expected selectors
        (diagnose records key expected s (lookup key s.coordinate_pointers) d)

  abbrev pub report : String → Diagnosis → List UnmatchedCoordinate → List UnmatchedCoordinate
  report key d unmatched =
      if d.matched
      then unmatched
      else unmatched
        ++ record { key = key; declared = d.declared; exact_only = d.declared && d.exact_only } ∷ []

  unfoldable pub diagnose_keys :
      Records
      → List Selector
      → List (String × Value)
      → List UnmatchedCoordinate
      → List UnmatchedCoordinate
  unfolding diagnose_all
  diagnose_keys records selectors [] unmatched = unmatched
  diagnose_keys records selectors ((key, expected) ∷ rest) unmatched =
      diagnose_keys records selectors rest (
        report key
          (diagnose_all records key expected selectors
            (record { declared = false; matched = false; exact_only = true }))
          unmatched)

  unfoldable pub coordinate_diagnosis :
      Records → List Selector → ContextRequest Value → List UnmatchedCoordinate
  unfolding diagnose_keys
  coordinate_diagnosis records selectors request =
      diagnose_keys records selectors request.coordinates []

  -- some selector declares the key, some record matches it under one, some compares it as a set
  abbrev pub is_declared : Option String → Bool
  is_declared none = false
  is_declared (some place) = true

  abbrev pub IsSummary : Records → String → Value → List Selector → Diagnosis → Diagnosis → Type 0
  IsSummary records key expected selectors d e =
      (e.declared
        ≡ (d.declared || any (λ s. is_declared (lookup key s.coordinate_pointers)) selectors))
      × (e.matched ≡ (
          d.matched
          || any (λ s. some_match records key expected s (lookup key s.coordinate_pointers))
              selectors))
      × (e.exact_only ≡ (
          d.exact_only
          && not (
              any (λ s. is_declared (lookup key s.coordinate_pointers) && is_wildcard key s)
                selectors)))

  diagnose-cons :
      (records : Records) (key : String) (expected : Value) (s : Selector)
      (selectors : List Selector) (o : Option String) (d e : Diagnosis)
      → lookup key s.coordinate_pointers ≡ o
      → IsSummary records key expected selectors (diagnose records key expected s o d) e
      → IsSummary records key expected (s ∷ selectors) d e
  unfolding any
  diagnose-cons records key expected s selectors none d e h p =
      (ground arith, ground arith, ground arith)
  diagnose-cons records key expected s selectors (some place) d e h p =
      (ground arith, ground arith, ground arith)

  -- For one requested coordinate, the loop over the selectors finds whether one of them declares it,
  -- whether a record matches it under one that does, and whether none of those compares it as a set.
  pub diagnose_all-IsSummary :
      (records : Records) (key : String) (expected : Value) (selectors : List Selector)
      (d : Diagnosis)
      → IsSummary records key expected selectors d (diagnose_all records key expected selectors d)
  unfolding diagnose_all any
  diagnose_all-IsSummary records key expected [] d = (ground arith, ground arith, ground arith)
  diagnose_all-IsSummary records key expected (s ∷ selectors) d =
      diagnose-cons records key expected s selectors _ d _ refl (
        diagnose_all-IsSummary records key expected selectors
          (diagnose records key expected s (lookup key s.coordinate_pointers) d))
