-- ===== src/Context/RegistryTests.antt =====
-- Runs of the registry: entries that are kept, and a bundle of a registered profile.
use equill.Base.{
  ℕ, ◌≤◌, String, ◌≡◌, ◌≢◌, refl, sym, ap, ◌∙◌, Bool, true, false, Option, none, some, List, [],
  ◌∷◌, map, lookup, string_eq,
}
use equill.Kernel.Error.{Result, ok, err, context}
use equill.Samples.{text}
use equill.Context.Model.{RuntimeBudget, ContextProfile, SelectedCoordinate}
use equill.Context.Receipt.{ContextBundle, Files}
use equill.Context.Registry.{registry_path, validate_id, validate_profile, register, load_profile}
use equill.Context.Registered.{register-lookup, register-again}
use equill.Context.Assembly.{Store, assemble}
use equill.Context.Settled.{assemble-profile_total}
use equill.Context.GateTests.{lower, parse, request}
use equill.Context.BundleData.{
  reader_profile, store, searches, numbers, arms, uuid, render, tokens, serialize, sha256_hex,
  no_filter, files, no_faults, placeholder,
}

abbrev bytes : String → ℕ
bytes s = 7

abbrev write_profile : ContextProfile → Result String
write_profile profile = ok profile.id

abbrev read : String → Result ContextProfile
read id = ok reader_profile

profile_valid : validate_profile bytes reader_profile ≡ ok tt
unfolding validate_profile equill.Base.any_char equill.Base.is_blank
profile_valid = refl

abbrev greedy : ContextProfile
greedy = record reader_profile {
  budget = record reader_profile.budget { receipt_reserve = some 40 };
}

reserve_refused :
    validate_profile bytes greedy
    ≡ err
        (context "receipt_reserve_tokens {reserve} leaves no content space in total_tokens {total}")
unfolding validate_profile equill.Base.any_char equill.Base.is_blank
reserve_refused = refl

abbrev registered : Files
registered = ("registry/profiles/other.json", "other\n") ∷ []

other_held : lookup "registry/profiles/other.json" registered ≡ some "other\n"
unfolding lookup
other_held = refl

register-lookup_example :
    lookup "registry/profiles/other.json"
      (register bytes write_profile sha256_hex
        (ok tt)
        no_faults
        registered
        "profiles"
        "profile"
        "1"
        reader_profile).1
    ≡ some "other\n"
register-lookup_example =
    register-lookup bytes write_profile sha256_hex (ok tt) no_faults registered "profiles" "profile"
      "1" reader_profile "registry/profiles/other.json" "other\n" other_held

id_valid : validate_id bytes "profile" ≡ ok tt
unfolding validate_id equill.Base.any_char
id_valid = refl

unregistered : lookup (registry_path "profiles" "profile") registered ≡ none
unfolding lookup equill.Base.glue
unregistered = refl

register-again_example :
    let first =
      register bytes write_profile sha256_hex
        (ok tt)
        (record { reading = none; writing = none })
        registered
        "profiles"
        "profile"
        "1"
        reader_profile in
    (first.0
      ≡ ok
          (record { created = true; id = "profile"; version = "1"; digest = sha256_hex "profile" }))
    × (register bytes write_profile sha256_hex
          (ok tt)
          (record { reading = none; writing = none })
          first.1
          "profiles"
          "profile"
          "1"
          reader_profile
        ≡ (
          ok (record {
            created = false;
            id = "profile";
            version = "1";
            digest = sha256_hex "profile";
          }),
          first.1,
        ))
register-again_example =
    register-again bytes write_profile sha256_hex registered "profiles" "profile" "1" "profile"
      reader_profile id_valid refl unregistered

abbrev registry_store : Store text
registry_store = record store {
  load_profile = λ id. load_profile bytes write_profile sha256_hex read id;
}

abbrev unbounded : RuntimeBudget
unbounded = record { tokens = none; records = none }

abbrev bundle_of : Result ContextBundle → ContextBundle
bundle_of (ok b) = b
bundle_of (err e) = placeholder

abbrev ran : Result ContextBundle × Files
ran =
    assemble text lower parse arms uuid numbers searches render tokens 1000 serialize sha256_hex
      no_faults files registry_store "profile" request "reader" no_filter unbounded

abbrev answer : ContextBundle
answer = bundle_of ran.0

answered : ran.0 ≡ ok answer
unfolding assemble equill.Base.any load_profile equill.Base.any_char equill.Base.is_blank
    equill.Kernel.Identity.valid equill.Base.all equill.Base.contains equill.Base.filter lookup
    equill.Base.insert
answered = refl

abbrev included_ids : List ℕ
included_ids = map (λ (x : SelectedCoordinate). x.id) answer.receipt.included

includes_one : included_ids ≡ 1 ∷ []
unfolding assemble equill.Base.any load_profile equill.Base.any_char equill.Base.is_blank
    equill.Kernel.Identity.valid equill.Base.all equill.Base.contains equill.Base.filter lookup
    equill.Base.insert
includes_one = refl

not_empty : (xs : List ℕ) (x : ℕ) → xs ≡ x ∷ [] → xs ≡ [] → ⊥
not_empty xs x p q = cc

one_included : answer.receipt.included ≢ []
one_included e =
    not_empty included_ids 1 includes_one (ap (map (λ (x : SelectedCoordinate). x.id)) e)

total_40 : answer.receipt.budget.total ≡ some 40
unfolding assemble equill.Base.any load_profile equill.Base.any_char equill.Base.is_blank
    equill.Kernel.Identity.valid equill.Base.all equill.Base.contains equill.Base.filter lookup
    equill.Base.insert
total_40 = refl

assemble-profile_total_example : answer.receipt.usage.total ≤ 40
assemble-profile_total_example =
    assemble-profile_total text lower parse arms uuid numbers searches render tokens 1000 serialize
      sha256_hex no_faults files registry_store "profile" request "reader" no_filter unbounded
      answer bytes write_profile read 40 refl answered refl total_40 one_included
