-- ===== src/Context/Registry.antt =====
-- src/context/registry.rs: the profiles and selectors of a store: their validation, and their
-- registration as files that are never replaced. The files are an association list, `bytes` counts
-- the bytes of a text, and serde_json, SHA-256 and the faults of a write are parameters.
use Prim.Native.Char.{Char, code}
use Prim.Native.String.{String}
use equill.Base.{
  ℕ, ◌-◌, Bool, true, false, ◌&&◌, ◌||◌, not, Option, none, some, ◌==◌, nat_eq, string_eq, any, map,
  contains, lookup, insert, glue, is_blank, any_char, ltb, leb, if◌then◌else◌,
}
use equill.Kernel.Error.{Error, context, Result, ok, err, ◌>>=◌, ◌>>◌, refuse}
use equill.Context.Model.{ContextBudget, Selector, ContextProfile}
use equill.Context.Budget.{unwrap_or, validate}
use equill.Context.Matching.{is_empty}
use equill.Context.Receipt.{VersionCoordinate, Files, Faults}

abbrev pub exceeds : Option ℕ → ℕ → Bool
exceeds none content = false
exceeds (some value) content = ltb content value

-- `pointer.starts_with('/')`
abbrev pub starts_with_slash : String → Bool
starts_with_slash String.[] = false
starts_with_slash (String.◌∷◌ c s) = code c == code "/"

-- `strip_suffix(b"\n").unwrap_or(..)`
unfoldable pub strip_newline : String → String
strip_newline String.[] = String.[]
strip_newline (String.◌∷◌ c String.[]) = if code c == 10 then String.[] else String.◌∷◌ c String.[]
strip_newline (String.◌∷◌ c (String.◌∷◌ d s)) = String.◌∷◌ c (strip_newline (String.◌∷◌ d s))

abbrev between : ℕ → ℕ → ℕ → Bool
between low high n = leb low n && leb n high

-- a byte of an identifier, by its code
abbrev pub is_id_char : Char → Bool
is_id_char c =
    between 97 122 (code c)
    || between 48 57 (code c)
    || code c == 46
    || code c == 95
    || code c == 45

-- the bounds that are present agree with the total
abbrev pub validate_total : ContextBudget → Option ℕ → Result (Unit {0})
validate_total budget none = ok tt
validate_total budget (some total) =
    let reserve = unwrap_or budget.receipt_reserve 0 in
    let content = total - reserve in
    refuse (total == 0) (context "context budget total_tokens must be positive")
    >> (refuse (leb total reserve) (
          context
            "receipt_reserve_tokens {reserve} leaves no content space in total_tokens {total}")
        >> refuse
            (exceeds budget.required_cap content
              || exceeds budget.core_cap content
              || exceeds budget.relevant_floor content)
            (context "{name} exceeds the {content} token content limit of this budget"))

abbrev pub registry_path : String → String → String
registry_path area id = glue "registry/" (glue area (glue "/" (glue id ".json")))

pub record RegistryReport : Type 0 where
  pub created : Bool
  pub id : String
  pub version : String
  pub digest : String

module _ (bytes : String → ℕ) where
  unfoldable pub validate_id : String → Result (Unit {0})
  validate_id id =
      refuse (is_nil id || ltb 160 (bytes id) || any_char (λ c. not (is_id_char c)) id)
        (context "registry id must be a stable lowercase identifier")
    where
      is_nil : String → Bool
      is_nil String.[] = true
      is_nil (String.◌∷◌ c s) = false

  unfoldable pub validate_profile : ContextProfile → Result (Unit {0})
  unfolding validate_id validate
  validate_profile profile =
      validate_id profile.id
      >> (refuse (is_blank profile.version || is_empty profile.grants || is_empty profile.selectors)
            (context "profile requires version, grants, and selectors")
          >> (validate profile.budget.tokenizer
              >> validate_total profile.budget profile.budget.total))

  abbrev pub bad_pointer : String → Bool
  bad_pointer pointer = not (starts_with_slash pointer) || ltb 500 (bytes pointer)

  abbrev pub bad_rank : Option String → Bool
  bad_rank none = false
  bad_rank (some pointer) = bad_pointer pointer

  unfoldable pub validate_selector : Selector → Result (Unit {0})
  unfolding validate_id
  validate_selector selector =
      validate_id selector.id
      >> (refuse
            (is_blank selector.version
              || is_blank selector.type_name
              || is_empty selector.strategies)
            (context "selector requires version, type, and strategies")
          >> (refuse (any (λ place. bad_pointer place.1) selector.coordinate_pointers)
                (context "selector coordinate pointers must be JSON pointers")
              >> (refuse (bad_rank selector.rank_pointer)
                    (context "selector rank pointer must be a JSON pointer")
                  >> refuse
                      (any
                        (λ mode.
                          not
                            (contains (map (λ place. place.0) selector.coordinate_pointers) mode.0))
                        selector.coordinate_modes)
                      (context "selector coordinate modes require matching pointers"))))

  module _ {T : Type 0} (serialize : T → Result String) (sha256_hex : String → String) where
    abbrev pub report : String → String → String → Bool → RegistryReport
    report id version text created = record {
      created = created;
      id = id;
      version = version;
      digest = sha256_hex text;
    }

    abbrev pub compare_registered :
        Option Error → Files → String → String → String → String → Result RegistryReport × Files
    compare_registered (some fault) files id version text old = (err fault, files)
    compare_registered none files id version text old =
        if strip_newline old == text
        then (ok (report id version text false), files)
        else (err (context "{area} entry already registered differently: {id}"), files)

    abbrev pub write_registered :
        Option Error → Files → String → String → String → String → Result RegistryReport × Files
    write_registered (some fault) files path id version text = (err fault, files)
    write_registered none files path id version text =
        (ok (report id version text true), insert path (glue text "\n") files)

    abbrev pub register_at :
        Faults
        → Files
        → String
        → String
        → String
        → String
        → Option String
        → Result RegistryReport × Files
    register_at faults files path id version text (some old) =
        compare_registered faults.reading files id version text old
    register_at faults files path id version text none =
        write_registered faults.writing files path id version text

    abbrev pub register_text :
        Faults → Files → String → String → String → Result String → Result RegistryReport × Files
    register_text faults files area id version (err e) = (err e, files)
    register_text faults files area id version (ok text) =
        let path = registry_path area id in
        register_at faults files path id version text (lookup path files)

    abbrev pub register_valid :
        Faults
        → Files
        → String
        → String
        → String
        → T
        → Result (Unit {0})
        → Result RegistryReport × Files
    register_valid faults files area id version value (err e) = (err e, files)
    register_valid faults files area id version value (ok u) =
        register_text faults files area id version (serialize value)

    -- `register`; `guard` is the answer of the root guard to the actor
    unfoldable pub register :
        Result (Unit {0})
        → Faults
        → Files
        → String
        → String
        → String
        → T
        → Result RegistryReport × Files
    unfolding validate_id glue strip_newline
    register guard faults files area id version value =
        register_valid faults files area id version value (guard >> validate_id id)

  abbrev pub coordinate : (String → String) → String → String → String → VersionCoordinate
  coordinate sha256_hex id version text = record {
    id = id;
    version = version;
    digest = sha256_hex text;
  }

  -- `load_profile`; `read` is what the file of the entry holds
  unfoldable pub load_profile :
      (ContextProfile → Result String)
      → (String → String)
      → (String → Result ContextProfile)
      → String
      → Result (ContextProfile × VersionCoordinate)
  unfolding validate_id validate_profile
  load_profile serialize sha256_hex read id = do
    validate_id id
    profile ← read id
    validate_profile profile
    text ← serialize profile
    ok (profile, coordinate sha256_hex profile.id profile.version text)

  unfoldable pub load_selector :
      (Selector → Result String)
      → (String → String)
      → (String → Result Selector)
      → String
      → Result (Selector × VersionCoordinate)
  unfolding validate_id validate_selector
  load_selector serialize sha256_hex read id = do
    validate_id id
    selector ← read id
    validate_selector selector
    text ← serialize selector
    ok (selector, coordinate sha256_hex selector.id selector.version text)
