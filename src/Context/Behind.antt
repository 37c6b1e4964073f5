-- ===== src/Context/Behind.antt =====
-- src/context/assembly.rs: the steps behind a bundle.
use mathlib.Core.Path.{subst}
use equill.Base.{
  ℕ, String, ◌≡◌, refl, ◌⊎◌, inl, inr, Bool, true, false, Option, List, ◌==◌, string_eq, eq_iff,
  map, Bool-cases,
}
use equill.Kernel.Error.{Result, ok, err, io, >>=-eq-ok, >>-eq-ok, ok-injective, Result-cases}
use equill.Kernel.Identity.{StoreConfig, permits, require_root, read_only, allow}
use equill.Json.{Json}
use equill.Json.Tree.{Tree}
use equill.Record.{StoredRecord}
use equill.Filter.Terms.{Filter}
use equill.Context.Model.{RuntimeBudget, SelectedCoordinate, ContextProfile, ContextRequest}
use equill.Context.Collect.{Searches}
use equill.Context.Receipt.{
  VersionCoordinate, ContextReceipt, ContextBundle, Files, Faults, receipt_of, persist,
  bundle_persisted, bundle,
}
use equill.Context.Retrieval.{Numbers}
use equill.Context.Assembly.{Store, Assembled, require_reader, gather, bundle_assembled, assemble}
use equill.Context.Gathered.{Ready, Gathered, gather-Gathered}

-- the bundle holds its receipt, its content and the ids that the receipt includes
pub record Holds (receipt : ContextReceipt) (content : String) (b : ContextBundle) : Type 0 where
  pub filed : b.receipt ≡ receipt
  pub shows : b.content ≡ content
  pub ids : b.selected_record_ids ≡ map (λ (item : SelectedCoordinate). item.id) receipt.included

bundle_persisted-Holds :
    (receipt : ContextReceipt) (content : String) (stored : Result String) (b : ContextBundle)
    → bundle_persisted receipt content stored ≡ ok b
    → Holds receipt content b
bundle_persisted-Holds receipt content (ok path) b h =
    subst (Holds receipt content) (ok-injective h)
      (record { filed = refl; shows = refl; ids = refl })
bundle_persisted-Holds receipt content (err io) b h =
    subst (Holds receipt content) (ok-injective h)
      (record { filed = refl; shows = refl; ids = refl })
bundle_persisted-Holds receipt content (err e) b h = cc

allow-eq-ok : (b : Bool) {u : Unit {0}} → allow b ≡ ok u → b ≡ true
allow-eq-ok true h = refl
allow-eq-ok false h = cc

require_root-owner :
    (j : Json) (config : StoreConfig j.Value) (actor : String) {u : Unit {0}}
    → require_root j config actor ≡ ok u
    → (actor == config.root_owner) ≡ true
unfolding require_root
require_root-owner j config actor h = allow-eq-ok _ (>>-eq-ok (read_only j config actor) _ h).1

pub require_reader-cases :
    (j : Json) (store : Store j) (profile_id : String) (config : StoreConfig j.Value)
    (actor : String)
    → require_reader j store profile_id config actor ≡ ok tt
    → (actor ≡ config.root_owner)
      ⊎ ((profile : ContextProfile) × (coordinate : VersionCoordinate) × (store.load_profile
              profile_id
            ≡ ok (profile, coordinate))
          × (permits profile.actors actor ≡ true))
require_reader-cases j store profile_id config actor h =
    elim (Bool-cases (actor == config.root_owner)) [
      | inl p ↦ inl ((eq_iff actor config.root_owner).0 p)
      | inr p ↦ elim (Result-cases (require_root j config actor)) [
        | inl (u, r) ↦
            inl ((eq_iff actor config.root_owner).0 (require_root-owner j config actor r))
        | inr (e, r) ↦
            let asked = rw (p, r) at h in
            let (loaded, profiled, allowed) = >>=-eq-ok (store.load_profile profile_id) _ asked in
            elim (Bool-cases (permits loaded.0.actors actor)) [
              | inl q ↦ inr (loaded.0, loaded.1, profiled, q)
              | inr q ↦ let bad = rw q at allowed in absurd (let worse = bad in cc)
            ]
      ]
    ]

module _ (j : Json) (lower : String → String) (parse : String → Option ℕ) where
  open j use {Value}

  module _ (arms : Value → Tree) (uuid : ℕ → String) (numbers : Numbers Value)
      (searches : Searches) where
    open numbers use {F}

    module _ (render : List (StoredRecord Value) → Result String) (tokens : String → ℕ) (max : ℕ)
        (serialize : ContextReceipt → Result String) (sha256_hex : String → String) where
      abbrev pub Parts : Type 0
      Parts =
          Assembled j lower parse arms uuid numbers searches render tokens max serialize sha256_hex

      abbrev receipt : Parts → ContextReceipt
      receipt a =
          receipt_of serialize sha256_hex a.prepared.profile a.prepared.selectors a.prepared.digest
            a.prepared.asking.profile.budget a.prepared.runtime a.findings a.budgeted

      -- what stands behind a bundle
      pub record Behind (store : Store j) (profile_id : String) (request : ContextRequest Value)
          (actor : String) (f : Filter) (runtime : RuntimeBudget) (b : ContextBundle) : Type 0 where
        pub parts : Parts
        pub ready : Ready j store profile_id request actor f runtime parts.prepared
        pub gathered :
            Gathered j lower parse arms uuid numbers searches render tokens max serialize sha256_hex
              store parts
        pub holds : Holds (receipt parts) parts.budgeted.content b

      bundled-Behind :
          (faults : Faults) (files : Files) (store : Store j) (profile_id : String)
          (request : ContextRequest Value) (actor : String) (f : Filter) (runtime : RuntimeBudget)
          (b : ContextBundle) (result : Result Parts)
          → gather j lower parse arms uuid numbers searches render tokens max serialize sha256_hex
              store profile_id request actor f runtime
            ≡ result
          → (bundle_assembled j lower parse arms uuid numbers searches render tokens max serialize
              sha256_hex faults files result).0
            ≡ ok b
          → Behind store profile_id request actor f runtime b
      unfolding bundle
      bundled-Behind faults files store profile_id request actor f runtime b (err e) g h = cc
      bundled-Behind faults files store profile_id request actor f runtime b (ok a) g h =
          let (ready, gathered) =
            gather-Gathered j lower parse arms uuid numbers searches render tokens max serialize
              sha256_hex store profile_id request actor f runtime a g in
          record {
            parts = a;
            ready = ready;
            gathered = gathered;
            holds =
                bundle_persisted-Holds (receipt a) a.budgeted.content
                  (persist serialize sha256_hex faults files (receipt a)).0 b h;
          }

      pub assemble-Behind :
          (faults : Faults) (files : Files) (store : Store j) (profile_id : String)
          (request : ContextRequest Value) (actor : String) (f : Filter) (runtime : RuntimeBudget)
          (b : ContextBundle)
          → (assemble j lower parse arms uuid numbers searches render tokens max serialize
              sha256_hex faults files store profile_id request actor f runtime).0
            ≡ ok b
          → Behind store profile_id request actor f runtime b
      unfolding assemble
      assemble-Behind faults files store profile_id request actor f runtime b h =
          bundled-Behind faults files store profile_id request actor f runtime b _ refl h
