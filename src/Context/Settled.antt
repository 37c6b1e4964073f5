-- ===== src/Context/Settled.antt =====
-- src/context/assembly.rs and registry.rs: a bundle of a registered profile.
use mathlib.Core.Path.{subst}
use equill.Base.{
  ℕ, ◌≤◌, ◌<◌, String, ◌≡◌, ◌≢◌, refl, sym, ap, ◌∙◌, Option, none, some, List, [], arith,
}
use equill.Kernel.Error.{Result, ok}
use equill.Json.{Json}
use equill.Json.Tree.{Tree}
use equill.Record.{StoredRecord}
use equill.Filter.Terms.{Filter}
use equill.Context.Model.{ContextBudget, RuntimeBudget, ContextProfile, ContextRequest}
use equill.Context.Collect.{Searches}
use equill.Context.Budget.{effective_total, reserve_of, unwrap_or}
use equill.Context.Receipt.{
  VersionCoordinate, ContextReceipt, ContextBundle, Files, Faults, receipt_of,
}
use equill.Context.Retrieval.{Numbers}
use equill.Context.Assembly.{Store, assemble}
use equill.Context.Registry.{load_profile}
use equill.Context.Registered.{IsSound, validate_profile-IsSound, load_profile-valid}
use equill.Context.Behind.{Behind, assemble-Behind}
use equill.Context.Composed.{assemble-total}

module _ (j : Json) (lower : String → String) (parse : String → Option ℕ) where
  open j use {Value}

  module _ (arms : Value → Tree) (uuid : ℕ → String) (numbers : Numbers Value) (searches : Searches)
      (render : List (StoredRecord Value) → Result String) (tokens : String → ℕ) (max : ℕ)
      (serialize : ContextReceipt → Result String) (sha256_hex : String → String) where
    -- the bundle's receipt holds the budget of the profile that was loaded
    loaded_budget :
        (store : Store j) (profile_id : String) (request : ContextRequest Value) (actor : String)
        (f : Filter) (runtime : RuntimeBudget) (b : ContextBundle)
        → Behind j lower parse arms uuid numbers searches render tokens max serialize sha256_hex
            store profile_id request actor f runtime b
        → (profile : ContextProfile) × (c : VersionCoordinate) × (store.load_profile profile_id
            ≡ ok (profile, c))
          × (b.receipt.budget ≡ profile.budget)
    unfolding receipt_of
    loaded_budget store profile_id request actor f runtime b behind = (
      behind.parts.prepared.asking.profile,
      behind.parts.prepared.profile,
      behind.ready.loaded.loaded,
      ap (λ (r : ContextReceipt). r.budget) behind.holds.filed,
    )

    whole :
        (budget : ContextBudget) (t : ℕ)
        → budget.total ≡ some t
        → effective_total budget none ≡ some t
    unfolding effective_total
    whole budget t e = rw e refl

    small : (budget : ContextBudget) (t : ℕ) → IsSound budget t → reserve_of budget (some t) ≤ t
    small budget t is = below (unwrap_or budget.receipt_reserve 0) t is.room
      where
        below : (r n : ℕ) → r < n → r ≤ n
        below r n h = omega arith

    -- A bundle of a profile that the registry loads, asked for without a token budget of its own and
    -- with something included, uses at most the total of the profile's budget, the receipt's reserve
    -- included: the registry's validation has made sure that the reserve fits.
    pub assemble-profile_total :
        (faults : Faults) (files : Files) (store : Store j) (profile_id : String)
        (request : ContextRequest Value) (actor : String) (f : Filter) (runtime : RuntimeBudget)
        (b : ContextBundle) (bytes : String → ℕ)
        (serialize_profile : ContextProfile → Result String) (read : String → Result ContextProfile)
        (t : ℕ)
        → store.load_profile profile_id
          ≡ load_profile bytes serialize_profile sha256_hex read profile_id
        → (assemble j lower parse arms uuid numbers searches render tokens max serialize sha256_hex
            faults files store profile_id request actor f runtime).0
          ≡ ok b
        → runtime.tokens ≡ none
        → b.receipt.budget.total ≡ some t
        → b.receipt.included ≢ []
        → b.receipt.usage.total ≤ t
    assemble-profile_total faults files store profile_id request actor f runtime b bytes
          serialize_profile read t loads h own bounded some_included =
        let behind =
          assemble-Behind j lower parse arms uuid numbers searches render tokens max serialize
            sha256_hex faults files store profile_id request actor f runtime b h in
        let (profile, c, loaded, same) =
          loaded_budget store profile_id request actor f runtime b behind in
        let valid =
          load_profile-valid bytes serialize_profile sha256_hex read profile_id profile c
            (sym loads ∙ loaded) in
        let sound =
          validate_profile-IsSound bytes profile t valid
            (ap (λ (x : ContextBudget). x.total) (sym same) ∙ bounded) in
        assemble-total j lower parse arms uuid numbers searches render tokens max serialize
          sha256_hex faults files store profile_id request actor f runtime b t h
          (ap (effective_total b.receipt.budget) own ∙ whole b.receipt.budget t bounded)
          (small b.receipt.budget t (subst (λ (x : ContextBudget). IsSound x t) (sym same) sound))
          some_included
