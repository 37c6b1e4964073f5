-- ===== src/Context/Composed.antt =====
-- src/context/assembly.rs: what a bundle holds, from the records of the store to its receipt.
use Prim.Native.Nat.{compare}
use mathlib.Core.Path.{subst}
use equill.Base.{
  ℕ, ◌+◌, ◌≤◌, String, ◌≡◌, ◌≢◌, refl, sym, ap, ◌∙◌, ◌⊎◌, true, Option, some, List, [], ◌∷◌,
  string_eq, map, All,
}
use equill.Kernel.Error.{Result, ok, >>=-eq-ok}
use equill.Kernel.Identity.{StoreConfig, permits}
use equill.Json.{Json}
use equill.Json.Tree.{Tree}
use equill.Record.{StoredRecord}
use equill.Filter.Terms.{Filter}
use equill.Context.Model.{
  Selector, Picked, RuntimeBudget, SelectedCoordinate, ContextProfile, ContextRequest,
}
use equill.Context.Matching.{Row}
use equill.Context.Gate.{IsAdmitted}
use equill.Context.Collect.{Searches}
use equill.Context.Budget.{selected_item, rows, effective_total, reserve_of}
use equill.Context.Shares.{times, excluded_ids}
use equill.Context.Accounts.{apply-times}
use equill.Context.Fits.{apply-Run, apply-total}
use equill.Context.Chosen.{Run-Own}
use equill.Context.Receipt.{
  VersionCoordinate, ContextReceipt, ContextBundle, Files, Faults, receipt_of,
}
use equill.Context.Retrieval.{selector_map, superseded_ids, Numbers, Question, passes}
use equill.Context.Sifting.{IsCandidate}
use equill.Context.Answers.{times-sort_by}
use equill.Context.Selected.{select-share, select-IsCandidate}
use equill.Context.Assembly.{load_selectors, Store, by_id, question, assemble}
use equill.Context.Behind.{assemble-Behind, require_reader-cases}

module _ (j : Json) (lower : String → String) (parse : String → Option ℕ) where
  open j use {Value}

  module _ (arms : Value → Tree) (uuid : ℕ → String) (numbers : Numbers Value)
      (searches : Searches) where
    open numbers use {F}

    module _ (render : List (StoredRecord Value) → Result String) (tokens : String → ℕ) (max : ℕ)
        (serialize : ContextReceipt → Result String) (sha256_hex : String → String) where
      -- A bundle's receipt accounts for every record of the store: an id stands among the included
      -- and the excluded together as often as among the records.
      pub assemble-times :
          (faults : Faults) (files : Files) (store : Store j) (profile_id : String)
          (request : ContextRequest Value) (actor : String) (f : Filter) (runtime : RuntimeBudget)
          (b : ContextBundle)
          → (assemble j lower parse arms uuid numbers searches render tokens max serialize
              sha256_hex faults files store profile_id request actor f runtime).0
            ≡ ok b
          → (records : List (StoredRecord Value)) × (store.read_all ≡ ok records)
            × ((id : ℕ)
                → times id (map (λ (x : SelectedCoordinate). x.id) b.receipt.included)
                    + times id (excluded_ids b.receipt.excluded)
                  ≡ times id (map (λ (r : StoredRecord Value). r.id) records))
      unfolding receipt_of
      assemble-times faults files store profile_id request actor f runtime b h =
          let behind =
            assemble-Behind j lower parse arms uuid numbers searches render tokens max serialize
              sha256_hex faults files store profile_id request actor f runtime b h in
          let a = behind.parts in
          let g = behind.gathered in
          let filed = sym behind.holds.filed in
          (
            g.records,
            g.read,
            λ id.
                let spent =
                  apply-times render tokens max a.retrieved.0 a.prepared.asking.profile.budget
                    a.prepared.runtime a.retrieved.1 a.budgeted id g.budgeted g.fits in
                let counted =
                  select-share j lower parse arms uuid numbers _ a.prepared.asking.selectors
                    a.prepared.asking.cardinality a.prepared.asking.settings.policy
                    (by_id j lower parse arms uuid numbers searches g.records) a.retrieved id
                    g.searched.selects in
                let sorted =
                  times-sort_by (λ (x y : StoredRecord Value). compare x.id y.id)
                    (λ (r : StoredRecord Value). r.id) id g.records in
                subst
                  (λ (r : ContextReceipt).
                    times id (map (λ (x : SelectedCoordinate). x.id) r.included)
                      + times id (excluded_ids r.excluded)
                    ≡ times id (map (λ (r : StoredRecord Value). r.id) g.records))
                  filed (spent ∙ counted ∙ sorted),
          )

      -- what lets a record into the content: the filter and the gate
      pub record IsShown (q : Question j lower parse arms uuid numbers) (r : Row j lower parse)
          : Type 0 where
        pub filtered : passes j lower parse arms uuid numbers q.filter r ≡ true
        pub admitted : IsAdmitted j lower parse r q.profile q.selectors q.request q.at q.hidden

      shown :
          (q : Question j lower parse arms uuid numbers) (items : List (Picked Value F))
          → All
              (λ (item : Picked Value F).
                IsCandidate j lower parse arms uuid numbers q item.candidate)
              items
          → All (IsShown q) (rows Value F items)
      shown q [] h = tt
      shown q (item ∷ items) h =
          (record { filtered = h.0.filtered; admitted = h.0.admitted }, shown q items h.1)

      selected_ids :
          (items : List (Picked Value F))
          → map (λ (x : SelectedCoordinate). x.id) (map (selected_item Value F) items)
            ≡ map (λ (r : StoredRecord Value). r.id) (rows Value F items)
      selected_ids [] = refl
      selected_ids (item ∷ items) = ap (λ ids. item.candidate.stored.id ∷ ids) (selected_ids items)

      -- what the bundle's records were asked for: the named profile with its selectors, the request at
      -- its instant, the filter, and the ids that the store's records hide
      pub record Asks (store : Store j) (profile_id : String) (request : ContextRequest Value)
          (f : Filter) (q : Question j lower parse arms uuid numbers) : Type 0 where
        pub coordinate : VersionCoordinate
        pub loaded : store.load_profile profile_id ≡ ok (q.profile, coordinate)
        pub chosen : List Selector × List VersionCoordinate
        pub selected : load_selectors j store q.profile.selectors ≡ ok chosen
        pub mapped : q.selectors ≡ selector_map [] chosen.0
        pub asked : q.request ≡ request
        pub filtered : q.filter ≡ f
        pub instant : parse q.request.at ≡ some q.at
        pub records : List (StoredRecord Value)
        pub read : store.read_all ≡ ok records
        pub hides :
            q.hidden
            ≡ superseded_ids j lower parse q.profile q.selectors q.request
                (by_id j lower parse arms uuid numbers searches records)

      -- The content of a bundle is what the renderer makes of the records whose ids the bundle names,
      -- and each of these passes the request's filter and the gate: of the named profile and its
      -- selectors, at the request's instant, against the ids that the store's records hide.
      pub assemble-IsShown :
          (faults : Faults) (files : Files) (store : Store j) (profile_id : String)
          (request : ContextRequest Value) (actor : String) (f : Filter) (runtime : RuntimeBudget)
          (b : ContextBundle)
          → (assemble j lower parse arms uuid numbers searches render tokens max serialize
              sha256_hex faults files store profile_id request actor f runtime).0
            ≡ ok b
          → (shown : List (StoredRecord Value)) × (q : Question j lower parse arms uuid numbers)
            × Asks store profile_id request f q
            × (render shown ≡ ok b.content)
            × (b.selected_record_ids ≡ map (λ (r : StoredRecord Value). r.id) shown)
            × All (IsShown q) shown
      unfolding receipt_of
      assemble-IsShown faults files store profile_id request actor f runtime b h =
          let behind =
            assemble-Behind j lower parse arms uuid numbers searches render tokens max serialize
              sha256_hex faults files store profile_id request actor f runtime b h in
          let a = behind.parts in
          let g = behind.gathered in
          let q =
            question j lower parse arms uuid numbers searches a.prepared.asking g.searched.at
              (by_id j lower parse arms uuid numbers searches g.records) g.searched.hits in
          let run =
            apply-Run render tokens max a.retrieved.0 a.prepared.asking.profile.budget
              a.prepared.runtime a.retrieved.1 a.budgeted g.budgeted g.fits in
          let candidates =
            select-IsCandidate j lower parse arms uuid numbers q a.prepared.asking.selectors
              a.prepared.asking.cardinality a.prepared.asking.settings.policy
              (by_id j lower parse arms uuid numbers searches g.records) a.retrieved
              g.searched.selects in
          let own =
            Run-Own render tokens max (IsCandidate j lower parse arms uuid numbers q) a.retrieved.0
              a.prepared.asking.profile.budget a.prepared.runtime a.retrieved.1 a.budgeted run
              candidates in
          (
            rows Value F run.taken.0,
            q,
            record {
              coordinate = a.prepared.profile;
              loaded = behind.ready.loaded.loaded;
              chosen = behind.ready.loaded.chosen;
              selected = behind.ready.loaded.selected;
              mapped = ap (selector_map []) behind.ready.loaded.held;
              asked = behind.ready.loaded.asked;
              filtered = behind.ready.loaded.filtered;
              instant = g.searched.parsed;
              records = g.records;
              read = g.read;
              hides = refl;
            },
            run.reports.content ∙ ap ok (sym behind.holds.shows),
            behind.holds.ids
                ∙ ap (map (λ (x : SelectedCoordinate). x.id)) run.reports.selected
                ∙ selected_ids run.taken.0,
            shown q run.taken.0 own,
          )

      -- Only a reader gets a bundle: the actor is the store's root owner, or it is a valid name and the
      -- profile's actors hold it or an asterisk.
      pub assemble-reader :
          (faults : Faults) (files : Files) (store : Store j) (profile_id : String)
          (request : ContextRequest Value) (actor : String) (f : Filter) (runtime : RuntimeBudget)
          (b : ContextBundle)
          → (assemble j lower parse arms uuid numbers searches render tokens max serialize
              sha256_hex faults files store profile_id request actor f runtime).0
            ≡ ok b
          → (config : StoreConfig Value) × (store.load_config ≡ ok config)
            × ((actor ≡ config.root_owner)
                ⊎ ((profile : ContextProfile) × (coordinate : VersionCoordinate)
                    × (store.load_profile profile_id ≡ ok (profile, coordinate))
                    × (permits profile.actors actor ≡ true)))
      assemble-reader faults files store profile_id request actor f runtime b h =
          let behind =
            assemble-Behind j lower parse arms uuid numbers searches render tokens max serialize
              sha256_hex faults files store profile_id request actor f runtime b h in
          let (config, configured, reader) = >>=-eq-ok store.load_config _ behind.ready.admitted in
          (config, configured, require_reader-cases j store profile_id config actor reader)

      -- Under an effective total of at least the receipt's reserve, a bundle that includes a record
      -- uses at most that total, the reserve included.
      pub assemble-total :
          (faults : Faults) (files : Files) (store : Store j) (profile_id : String)
          (request : ContextRequest Value) (actor : String) (f : Filter) (runtime : RuntimeBudget)
          (b : ContextBundle) (t : ℕ)
          → (assemble j lower parse arms uuid numbers searches render tokens max serialize
              sha256_hex faults files store profile_id request actor f runtime).0
            ≡ ok b
          → effective_total b.receipt.budget runtime.tokens ≡ some t
          → reserve_of b.receipt.budget (some t) ≤ t
          → b.receipt.included ≢ []
          → b.receipt.usage.total ≤ t
      unfolding receipt_of
      assemble-total faults files store profile_id request actor f runtime b t h =
          let behind =
            assemble-Behind j lower parse arms uuid numbers searches render tokens max serialize
              sha256_hex faults files store profile_id request actor f runtime b h in
          let a = behind.parts in
          let g = behind.gathered in
          let tokens_kept = ap (λ (r : RuntimeBudget). r.tokens) behind.ready.loaded.capped in
          subst
            (λ (r : ContextReceipt).
              effective_total r.budget runtime.tokens ≡ some t
              → reserve_of r.budget (some t) ≤ t
              → r.included ≢ []
              → r.usage.total ≤ t)
            (sym behind.holds.filed)
            (λ e small some_selected.
              apply-total render tokens max a.retrieved.0 a.prepared.asking.profile.budget
                a.prepared.runtime a.retrieved.1 a.budgeted t
                (ap (effective_total a.prepared.asking.profile.budget) tokens_kept ∙ e) small
                g.budgeted g.fits some_selected)
