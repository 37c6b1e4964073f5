-- ===== src/Context/Gathered.antt =====
-- src/context/assembly.rs: the steps of an assembly that succeeds.
use mathlib.Core.Path.{subst}
use equill.Base.{ℕ, ltb, String, ◌≡◌, refl, sym, Option, some, List, arith}
use equill.Kernel.Error.{
  Result, ok, refuse, ok_or, >>=-eq-ok, >>-eq-ok, refuse-eq-ok, ok-injective, ok_or-eq-ok,
}
use equill.Json.{Json}
use equill.Json.Tree.{Tree}
use equill.Record.{StoredRecord}
use equill.Filter.Terms.{Filter}
use equill.Filter.Schema.{Definition, validate as validate_filter}
use equill.Context.Model.{RuntimeBudget, Selector, ContextRequest}
use equill.Context.Search.{Hits}
use equill.Context.Collect.{Searches, collect}
use equill.Context.Budget.{apply}
use equill.Context.Receipt.{VersionCoordinate, ProjectionState, ContextReceipt, Findings}
use equill.Context.Retrieval.{Numbers, answering, select}
use equill.Context.Assembly.{
  Settings, Asking, Store, Assembled, Lists, by_id, question, is_ready, is_zero, load_selectors,
  load_scope, retrieve, refuse_overflow, Prepared, admit, with_default, load_asking, prepare,
  complete, gather,
}

module _ (j : Json) where
  open j use {Value}

  -- what an assembly went through before its retrieval
  pub record Loaded (store : Store j) (profile_id : String) (request : ContextRequest Value)
      (f : Filter) (runtime : RuntimeBudget) (p : Prepared j) : Type 0 where
    pub loaded : store.load_profile profile_id ≡ ok (p.asking.profile, p.profile)
    pub asked : p.asking.request ≡ request
    pub filtered : p.asking.filter ≡ f
    pub answers : p.asking.cardinality ≡ answering
    pub chosen : List Selector × List VersionCoordinate
    pub selected : load_selectors j store p.asking.profile.selectors ≡ ok chosen
    pub held : p.asking.selectors ≡ chosen.0
    pub scope : List Definition
    pub scoped : load_scope j store p.asking.selectors ≡ ok scope
    pub valid : validate_filter f scope ≡ ok tt
    pub capped : p.runtime ≡ runtime

  load_asking-Loaded :
      (store : Store j) (profile_id : String) (request : ContextRequest Value) (f : Filter)
      (runtime : RuntimeBudget) (settings : Settings) (p : Prepared j)
      → load_asking j store profile_id request f runtime settings ≡ ok p
      → Loaded store profile_id request f runtime p
  unfolding load_asking
  load_asking-Loaded store profile_id request f runtime settings p h =
      let (loaded, profiled, h6) = >>=-eq-ok (store.load_profile profile_id) _ h in
      let (chosen, selects, h7) = >>=-eq-ok (load_selectors j store loaded.0.selectors) _ h6 in
      let (digest, _, h8) = >>=-eq-ok (store.request_digest request) _ h7 in
      let (scope, scoped, h9) = >>=-eq-ok (load_scope j store chosen.0) _ h8 in
      let (valid, h10) = >>-eq-ok (validate_filter f scope) _ h9 in
      subst (Loaded store profile_id request f runtime) (ok-injective h10) (record {
        loaded = profiled;
        asked = refl;
        filtered = refl;
        answers = refl;
        chosen = chosen;
        selected = selects;
        held = refl;
        scope = scope;
        scoped = scoped;
        valid = valid;
        capped = refl;
      })

  -- the actor may read, and the request was loaded under a budget with the same tokens
  pub record Ready (store : Store j) (profile_id : String) (request : ContextRequest Value)
      (actor : String) (f : Filter) (runtime : RuntimeBudget) (p : Prepared j) : Type 0 where
    pub admitted : admit j store profile_id actor ≡ ok tt
    pub settings : Settings
    pub loaded : Loaded store profile_id request f (with_default j runtime settings) p

  pub prepare-Ready :
      (store : Store j) (profile_id : String) (request : ContextRequest Value) (actor : String)
      (f : Filter) (runtime : RuntimeBudget) (p : Prepared j)
      → prepare j store profile_id request actor f runtime ≡ ok p
      → Ready store profile_id request actor f runtime p
  unfolding prepare
  prepare-Ready store profile_id request actor f runtime p h =
      let (_, h1) = >>-eq-ok (refuse (is_zero runtime.tokens) _) _ h in
      let (_, h2) = >>-eq-ok (refuse (is_zero runtime.records) _) _ h1 in
      let (settings, _, h3) = >>=-eq-ok store.resolve _ h2 in
      let (admitted, h4) = >>-eq-ok (admit j store profile_id actor) _ h3 in
      record {
        admitted = admitted;
        settings = settings;
        loaded =
            load_asking-Loaded store profile_id request f (with_default j runtime settings) settings
              p h4;
      }

module _ (j : Json) (lower : String → String) (parse : String → Option ℕ) where
  open j use {Value}

  module _ (arms : Value → Tree) (uuid : ℕ → String) (numbers : Numbers Value)
      (searches : Searches) where
    open numbers use {F}

    abbrev Rows : Type 0
    Rows = List (StoredRecord Value)

    abbrev Found : Type 0
    Found = Lists j lower parse arms uuid numbers searches

    -- the steps of a retrieval that succeeds
    pub record Searched (asking : Asking j) (records : Rows) (found : Found) : Type 0 where
      pub at : ℕ
      pub parsed : parse asking.request.at ≡ some at
      pub hits : Hits
      pub selects :
          select j lower parse arms uuid numbers
            (question j lower parse arms uuid numbers searches asking at
              (by_id j lower parse arms uuid numbers searches records)
              hits)
            asking.selectors
            asking.cardinality
            asking.settings.policy
            (by_id j lower parse arms uuid numbers searches records)
          ≡ ok found

    retrieve-Searched :
        (projection : Result ProjectionState) (asking : Asking j) (records : Rows)
        (found : Found × Findings)
        → retrieve j lower parse arms uuid numbers searches projection asking records ≡ ok found
        → Searched asking records found.0
    unfolding retrieve
    retrieve-Searched projection asking records found h =
        let (at, read_at, h1) = >>=-eq-ok (ok_or (parse asking.request.at) _) _ h in
        let (state, _, h2) = >>=-eq-ok projection _ h1 in
        let (hits, _, h3) =
          >>=-eq-ok
            (collect searches asking.settings.skip_query (is_ready state) asking.selectors
              asking.request.query asking.record_limit asking.settings.policy)
            _ h2 in
        let rows = by_id j lower parse arms uuid numbers searches records in
        let (lists, selects, h4) =
          >>=-eq-ok
            (select j lower parse arms uuid numbers
              (question j lower parse arms uuid numbers searches asking at rows hits)
              asking.selectors asking.cardinality asking.settings.policy rows)
            _ h3 in
        subst (λ (f : Found × Findings). Searched asking records f.0) (ok-injective h4)
          (record { at = at; parsed = ok_or-eq-ok _ _ read_at; hits = hits; selects = selects })

    module _ (render : Rows → Result String) (tokens : String → ℕ) (max : ℕ)
        (serialize : ContextReceipt → Result String) (sha256_hex : String → String) where
      abbrev Parts : Type 0
      Parts =
          Assembled j lower parse arms uuid numbers searches render tokens max serialize sha256_hex

      -- what an assembly went through before its receipt
      pub record Gathered (store : Store j) (a : Parts) : Type 0 where
        pub records : Rows
        pub read : store.read_all ≡ ok records
        pub searched : Searched a.prepared.asking records a.retrieved
        pub budgeted :
            apply Value F render tokens max a.retrieved.0 a.prepared.asking.profile.budget
              a.prepared.runtime a.retrieved.1
            ≡ ok a.budgeted
        pub fits : a.budgeted.required_overflow ≡ 0

      complete-Gathered :
          (store : Store j) (p : Prepared j) (a : Parts)
          → complete j lower parse arms uuid numbers searches render tokens max serialize sha256_hex
              store p
            ≡ ok a
          → (a.prepared ≡ p) × Gathered store a
      unfolding complete
      complete-Gathered store p a h =
          let (records, read, h1) = >>=-eq-ok store.read_all _ h in
          let (retrieved, retrieves, h2) =
            >>=-eq-ok
              (retrieve j lower parse arms uuid numbers searches store.projection_state p.asking
                records)
              _ h1 in
          let (budgeted, applies, h3) =
            >>=-eq-ok
              (apply Value F render tokens max retrieved.0.0 p.asking.profile.budget p.runtime
                retrieved.0.1)
              _ h2 in
          let (fits, h4) =
            >>-eq-ok
              (refuse_overflow j lower parse arms uuid numbers searches render tokens max serialize
                sha256_hex budgeted)
              _ h3 in
          let no_overflow = refuse-eq-ok (ltb 0 budgeted.required_overflow) _ fits in
          subst (λ (a : Parts). (a.prepared ≡ p) × Gathered store a) (ok-injective h4)
            (
              refl,
              record {
                records = records;
                read = read;
                searched =
                    retrieve-Searched store.projection_state p.asking records retrieved retrieves;
                budgeted = applies;
                fits = ground arith;
              },
            )

      pub gather-Gathered :
          (store : Store j) (profile_id : String) (request : ContextRequest Value) (actor : String)
          (f : Filter) (runtime : RuntimeBudget) (a : Parts)
          → gather j lower parse arms uuid numbers searches render tokens max serialize sha256_hex
              store profile_id request actor f runtime
            ≡ ok a
          → Ready j store profile_id request actor f runtime a.prepared × Gathered store a
      unfolding gather
      gather-Gathered store profile_id request actor f runtime a h =
          let (p, prepared, completed) =
            >>=-eq-ok (prepare j store profile_id request actor f runtime) _ h in
          let (same, gathered) = complete-Gathered store p a completed in
          (
            subst (Ready j store profile_id request actor f runtime) (sym same)
                (prepare-Ready j store profile_id request actor f runtime p prepared),
            gathered,
          )
