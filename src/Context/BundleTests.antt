-- ===== src/Context/BundleTests.antt =====
-- Runs of an assembly on a store of three records: one is shown, one stands in another namespace, and
-- one is withdrawn.
use equill.Base.{
  ℕ, ◌+◌, ◌≤◌, String, ◌≡◌, ◌≢◌, refl, sym, ap, ◌∙◌, ◌⊎◌, ◌==◌, Bool, true, false, Option, none,
  some, List, [], ◌∷◌, ◌++◌, map, All, arith, lookup, string_eq, if◌then◌else◌, Antisymmetric,
  IsSorted, reverse,
}
use equill.Kernel.Error.{Result, ok, err}
use equill.Kernel.Identity.{StoreConfig, permits}
use equill.Samples.{text}
use equill.Record.{StoredRecord}
use equill.Context.Model.{SelectedCoordinate, ContextProfile}
use equill.Context.Budget.{effective_total, reserve_of, Candidates}
use equill.Context.Shares.{times, excluded_ids}
use equill.Context.Receipt.{
  VersionCoordinate, ContextReceipt, ContextBundle, Files, Faults, persist,
}
use equill.Context.Retrieval.{Question}
use equill.Context.Assembly.{assemble}
use equill.Context.Composed.{
  Asks, IsShown, assemble-IsShown, assemble-times, assemble-total, assemble-reader,
}
use equill.Context.Filing.{persist-lookup, persist-again}
use equill.Context.GateTests.{lower, parse, request}
use equill.Context.BundleData.{
  store, searches, numbers, arms, uuid, render, tokens, serialize, sha256_hex, no_filter, runtime,
  files, full_disk, no_faults, placeholder,
}

abbrev ran : Faults → Result ContextBundle × Files
ran faults =
    assemble text lower parse arms uuid numbers searches render tokens 1000 serialize sha256_hex
      faults files store "profile" request "reader" no_filter runtime

abbrev empty_bundle : ContextReceipt → ContextBundle
empty_bundle r = record {
  content = "";
  bundle_digest = "";
  selected_record_ids = [];
  receipt = r;
  receipt_persisted = false;
  receipt_path = none;
}

abbrev shown_ids : Result ContextBundle → List ℕ
shown_ids (ok b) = b.selected_record_ids
shown_ids (err e) = []

abbrev hidden_ids : Result ContextBundle → List ℕ
hidden_ids (ok b) = excluded_ids b.receipt.excluded
hidden_ids (err e) = []

abbrev path_of : Result ContextBundle → Option String
path_of (ok b) = b.receipt_path
path_of (err e) = none

shows_one : shown_ids (ran no_faults).0 ≡ 1 ∷ []
unfolding assemble equill.Base.any equill.Kernel.Identity.valid equill.Base.is_blank
    equill.Base.any_char equill.Base.all equill.Base.contains equill.Base.filter lookup
    equill.Base.insert
shows_one = refl

hides_two : hidden_ids (ran no_faults).0 ≡ 2 ∷ 3 ∷ []
unfolding assemble equill.Base.any equill.Kernel.Identity.valid equill.Base.is_blank
    equill.Base.any_char equill.Base.all equill.Base.contains equill.Base.filter lookup
    equill.Base.insert equill.Context.Budget.insert_by_id
hides_two = refl

files_receipt : path_of (ran no_faults).0 ≡ some "receipts/context/one\n.json"
unfolding assemble equill.Base.any equill.Kernel.Identity.valid equill.Base.is_blank
    equill.Base.any_char equill.Base.all equill.Base.contains equill.Base.filter lookup
    equill.Base.insert
files_receipt = refl

answers_without_room : shown_ids (ran full_disk).0 ≡ 1 ∷ []
unfolding assemble equill.Base.any equill.Kernel.Identity.valid equill.Base.is_blank
    equill.Base.any_char equill.Base.all equill.Base.contains equill.Base.filter lookup
    equill.Base.insert
answers_without_room = refl

abbrev bundle_of : Result ContextBundle → ContextBundle
bundle_of (ok b) = b
bundle_of (err e) = placeholder

abbrev answer : ContextBundle
answer = bundle_of (ran no_faults).0

answered : (ran no_faults).0 ≡ ok answer
unfolding assemble equill.Base.any equill.Kernel.Identity.valid equill.Base.is_blank
    equill.Base.any_char equill.Base.all equill.Base.contains equill.Base.filter lookup
    equill.Base.insert
answered = refl

abbrev included_ids : List ℕ
included_ids = map (λ (x : SelectedCoordinate). x.id) answer.receipt.included

includes_one : included_ids ≡ 1 ∷ []
unfolding assemble equill.Base.any equill.Kernel.Identity.valid equill.Base.is_blank
    equill.Base.any_char equill.Base.all equill.Base.contains equill.Base.filter lookup
    equill.Base.insert
includes_one = refl

not_empty : (xs : List ℕ) (x : ℕ) → xs ≡ x ∷ [] → xs ≡ [] → ⊥
not_empty xs x p q = cc

one_included : answer.receipt.included ≢ []
one_included e =
    not_empty included_ids 1 includes_one (ap (map (λ (x : SelectedCoordinate). x.id)) e)

assemble-times_example :
    (records : List (StoredRecord String)) × (store.read_all ≡ ok records)
    × ((id : ℕ)
        → times id (map (λ (x : SelectedCoordinate). x.id) answer.receipt.included)
            + times id (excluded_ids answer.receipt.excluded)
          ≡ times id (map (λ (r : StoredRecord String). r.id) records))
assemble-times_example =
    assemble-times text lower parse arms uuid numbers searches render tokens 1000 serialize
      sha256_hex no_faults files store "profile" request "reader" no_filter runtime answer answered

assemble-IsShown_example :
    (shown : List (StoredRecord String)) × (q : Question text lower parse arms uuid numbers) × Asks
      text lower parse arms uuid numbers searches render tokens 1000 serialize sha256_hex store
      "profile" request no_filter q
    × (render shown ≡ ok answer.content)
    × (answer.selected_record_ids ≡ map (λ (r : StoredRecord String). r.id) shown)
    × All
        (IsShown text lower parse arms uuid numbers searches render tokens 1000 serialize sha256_hex
          q)
        shown
assemble-IsShown_example =
    assemble-IsShown text lower parse arms uuid numbers searches render tokens 1000 serialize
      sha256_hex no_faults files store "profile" request "reader" no_filter runtime answer answered

assemble-reader_example :
    (c : StoreConfig String) × (store.load_config ≡ ok c)
    × (("reader" ≡ c.root_owner)
        ⊎ ((p : ContextProfile) × (v : VersionCoordinate) × (store.load_profile "profile"
              ≡ ok (p, v))
            × (permits p.actors "reader" ≡ true)))
assemble-reader_example =
    assemble-reader text lower parse arms uuid numbers searches render tokens 1000 serialize
      sha256_hex no_faults files store "profile" request "reader" no_filter runtime answer answered

effective_30 : effective_total answer.receipt.budget runtime.tokens ≡ some 30
unfolding effective_total assemble equill.Base.any equill.Kernel.Identity.valid equill.Base.is_blank
    equill.Base.any_char equill.Base.all equill.Base.contains equill.Base.filter lookup
    equill.Base.insert
effective_30 = refl

reserve_small : reserve_of answer.receipt.budget (some 30) ≤ 30
unfolding assemble equill.Base.any equill.Kernel.Identity.valid equill.Base.is_blank
    equill.Base.any_char equill.Base.all equill.Base.contains equill.Base.filter lookup
    equill.Base.insert
reserve_small = omega arith

assemble-total_example : answer.receipt.usage.total ≤ 30
assemble-total_example =
    assemble-total text lower parse arms uuid numbers searches render tokens 1000 serialize
      sha256_hex no_faults files store "profile" request "reader" no_filter runtime answer 30
      answered effective_30 reserve_small one_included

other_held : lookup "receipts/context/other.json" files ≡ some "other"
unfolding lookup
other_held = refl

persist-lookup_example :
    lookup "receipts/context/other.json"
      (persist serialize sha256_hex no_faults files answer.receipt).1
    ≡ some "other"
persist-lookup_example =
    persist-lookup serialize sha256_hex no_faults files answer.receipt "receipts/context/other.json"
      "other" other_held

persisted :
    (persist serialize sha256_hex no_faults files answer.receipt).0
    ≡ ok "receipts/context/one\n.json"
unfolding persist lookup assemble equill.Base.any equill.Kernel.Identity.valid equill.Base.is_blank
    equill.Base.any_char equill.Base.all equill.Base.contains equill.Base.filter equill.Base.insert
persisted = refl

persist-again_example :
    let after = (persist serialize sha256_hex no_faults files answer.receipt).1 in
    persist serialize sha256_hex (record { reading = none; writing = none }) after answer.receipt
    ≡ (ok "receipts/context/one\n.json", after)
persist-again_example =
    persist-again serialize sha256_hex no_faults files answer.receipt "receipts/context/one\n.json"
      persisted
