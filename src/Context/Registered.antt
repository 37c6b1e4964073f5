-- ===== src/Context/Registered.antt =====
-- src/context/registry.rs: what registration keeps, and what a loaded profile's budget is like.
use Prim.Native.String.{String}
use mathlib.Core.Path.{subst}
use mathlib.Core.Option.{some-injective}
use equill.Base.{
  ℕ, ◌-◌, ◌<◌, ◌≡◌, refl, sym, ap, ◌∙◌, inl, inr, true, false, ◌||◌, Option, none, some, ◌==◌,
  nat_eq, string_eq, eq_iff, lookup, insert, lookup-insert, glue, leb, arith, Bool-cases, ==-refl,
}
use equill.Kernel.Error.{
  Error, Result, ok, err, ◌>>◌, refuse, >>=-eq-ok, >>-eq-ok, refuse-eq-ok, ok-injective,
}
use equill.Context.Model.{ContextBudget, ContextProfile}
use equill.Context.Budget.{unwrap_or}
use equill.Context.Receipt.{VersionCoordinate, Files, Faults}
use equill.Context.Registry.{
  exceeds, strip_newline, validate_total, validate_id, validate_profile, registry_path,
  compare_registered, write_registered, register_at, register_text, register_valid, register,
  load_profile,
}

strip_newline-glue : (text : String) → strip_newline (glue text "\n") ≡ text
unfolding strip_newline glue
strip_newline-glue String.[] = refl
strip_newline-glue (String.◌∷◌ c String.[]) = refl
strip_newline-glue (String.◌∷◌ c (String.◌∷◌ d s)) =
    ap (λ t. String.◌∷◌ c t) (strip_newline-glue (String.◌∷◌ d s))

module _ (bytes : String → ℕ) {T : Type 0} (serialize : T → Result String)
    (sha256_hex : String → String) where
  compare_registered-files :
      (fault : Option Error) (files : Files) (id version text old : String)
      → (compare_registered bytes serialize sha256_hex fault files id version text old).1 ≡ files
  compare_registered-files (some e) files id version text old = refl
  compare_registered-files none files id version text old =
      elim (Bool-cases (strip_newline old == text)) [ inl p ↦ rw p refl | inr p ↦ rw p refl ]

  write_registered-lookup :
      (fault : Option Error) (files : Files) (path id version text q x : String)
      → lookup path files ≡ none
      → lookup q files ≡ some x
      → lookup q (write_registered bytes serialize sha256_hex fault files path id version text).1
        ≡ some x
  write_registered-lookup (some e) files path id version text q x fresh h = h
  write_registered-lookup none files path id version text q x fresh h =
      elim (Bool-cases (path == q)) [
        | inl p ↦
            let same : lookup path files ≡ some x =
              ap (λ s. lookup s files) ((eq_iff path q).0 p) ∙ h in
            let bad : none ≡ some x = sym fresh ∙ same in absurd (let worse = bad in cc)
        | inr p ↦ lookup-insert path q (glue text "\n") files ∙ (rw p h)
      ]

  register_at-lookup :
      (faults : Faults) (files : Files) (path id version text q x : String) (held : Option String)
      → lookup path files ≡ held
      → lookup q files ≡ some x
      → lookup q (register_at bytes serialize sha256_hex faults files path id version text held).1
        ≡ some x
  register_at-lookup faults files path id version text q x (some old) e h =
      ap (lookup q) (compare_registered-files faults.reading files id version text old) ∙ h
  register_at-lookup faults files path id version text q x none e h =
      write_registered-lookup faults.writing files path id version text q x e h

  register_text-lookup :
      (faults : Faults) (files : Files) (area id version : String) (text : Result String)
      (q x : String)
      → lookup q files ≡ some x
      → lookup q (register_text bytes serialize sha256_hex faults files area id version text).1
        ≡ some x
  register_text-lookup faults files area id version (err e) q x h = h
  register_text-lookup faults files area id version (ok text) q x h =
      register_at-lookup faults files _ id version text q x _ refl h

  register_valid-lookup :
      (faults : Faults) (files : Files) (area id version : String) (value : T)
      (valid : Result (Unit {0})) (q x : String)
      → lookup q files ≡ some x
      → lookup q
          (register_valid bytes serialize sha256_hex faults files area id version value valid).1
        ≡ some x
  register_valid-lookup faults files area id version value (err e) q x h = h
  register_valid-lookup faults files area id version value (ok u) q x h =
      register_text-lookup faults files area id version (serialize value) q x h

  -- An entry of the registry stays as it was registered: whatever is registered by whomever, with what
  -- outcome and whichever faults, a file that was there keeps its content.
  pub register-lookup :
      (guard : Result (Unit {0})) (faults : Faults) (files : Files) (area id version : String)
      (value : T) (q x : String)
      → lookup q files ≡ some x
      → lookup q (register bytes serialize sha256_hex guard faults files area id version value).1
        ≡ some x
  unfolding register
  register-lookup guard faults files area id version value q x h =
      register_valid-lookup faults files area id version value (guard >> validate_id bytes id) q x h

  compare_same :
      (files : Files) (id version text old : String)
      → strip_newline old ≡ text
      → compare_registered bytes serialize sha256_hex none files id version text old ≡ (
        ok (record { created = false; id = id; version = version; digest = sha256_hex text }),
        files,
      )
  compare_same files id version text old e = rw ((eq_iff (strip_newline old) text).1 e) refl

  register_at-again :
      (files : Files) (path id version text : String) (held : Option String)
      → held ≡ some (glue text "\n")
      → register_at bytes serialize sha256_hex
          (record { reading = none; writing = none })
          files
          path
          id
          version
          text
          held
        ≡ (
          ok (record { created = false; id = id; version = version; digest = sha256_hex text }),
          files,
        )
  register_at-again files path id version text (some old) e =
      compare_same files id version text old
        (ap strip_newline (some-injective _ _ e) ∙ strip_newline-glue text)
  register_at-again files path id version text none e =
      let bad = e in absurd (let worse = bad in cc)

  -- Registering a new value under a valid id, without a fault, creates its entry; registering it once
  -- more finds it there, with the same digest, and changes no file.
  pub register-again :
      (files : Files) (area id version text : String) (value : T)
      → validate_id bytes id ≡ ok tt
      → serialize value ≡ ok text
      → lookup (registry_path area id) files ≡ none
      → let first =
          register bytes serialize sha256_hex
            (ok tt)
            (record { reading = none; writing = none })
            files
            area
            id
            version
            value in
        (first.0
          ≡ ok (record { created = true; id = id; version = version; digest = sha256_hex text }))
        × (register bytes serialize sha256_hex
              (ok tt)
              (record { reading = none; writing = none })
              first.1
              area
              id
              version
              value
            ≡ (
              ok (record { created = false; id = id; version = version; digest = sha256_hex text }),
              first.1,
            ))
  unfolding register
  register-again files area id version text value valid serialized fresh =
      let path = registry_path area id in
      let held : lookup path (insert path (glue text "\n") files) ≡ some (glue text "\n") =
        lookup-insert path path (glue text "\n") files ∙ rw ==-refl refl in
      (
        rw (valid, serialized, fresh) refl,
        rw (valid, serialized, fresh)
            (register_at-again (insert path (glue text "\n") files) path id version text _ held),
      )

-- the budget of a valid profile: the reserve is below the total, and the bounds within what it leaves
pub record IsSound (budget : ContextBudget) (t : ℕ) : Type 0 where
  pub room : unwrap_or budget.receipt_reserve 0 < t
  pub required_fits : exceeds budget.required_cap (t - unwrap_or budget.receipt_reserve 0) ≡ false
  pub core_fits : exceeds budget.core_cap (t - unwrap_or budget.receipt_reserve 0) ≡ false
  pub floor_fits : exceeds budget.relevant_floor (t - unwrap_or budget.receipt_reserve 0) ≡ false

validate_total-IsSound :
    (budget : ContextBudget) (t : ℕ) → validate_total budget (some t) ≡ ok tt → IsSound budget t
validate_total-IsSound budget t h =
    let reserve = unwrap_or budget.receipt_reserve 0 in
    let content = t - reserve in
    let (_, h1) = >>-eq-ok (refuse (t == 0) _) _ h in
    let (room, h2) = >>-eq-ok (refuse (leb t reserve) _) _ h1 in
    let roomy = refuse-eq-ok _ _ room in
    let bounded =
      refuse-eq-ok
        (exceeds budget.required_cap content
          || exceeds budget.core_cap content
          || exceeds budget.relevant_floor content)
        _ h2 in
    record {
      room = ground arith;
      required_fits = ground arith;
      core_fits = ground arith;
      floor_fits = ground arith;
    }

module _ (bytes : String → ℕ) where
  pub validate_profile-IsSound :
      (profile : ContextProfile) (t : ℕ)
      → validate_profile bytes profile ≡ ok tt
      → profile.budget.total ≡ some t
      → IsSound profile.budget t
  unfolding validate_profile
  validate_profile-IsSound profile t h e =
      let (_, h1) = >>-eq-ok (validate_id bytes profile.id) _ h in
      let (_, h2) = >>-eq-ok (refuse _ _) _ h1 in
      let (_, h3) = >>-eq-ok _ _ h2 in
      validate_total-IsSound profile.budget t (ap (validate_total profile.budget) (sym e) ∙ h3)

  pub load_profile-valid :
      (serialize : ContextProfile → Result String) (sha256_hex : String → String)
      (read : String → Result ContextProfile) (id : String) (profile : ContextProfile)
      (c : VersionCoordinate)
      → load_profile bytes serialize sha256_hex read id ≡ ok (profile, c)
      → validate_profile bytes profile ≡ ok tt
  unfolding load_profile
  load_profile-valid serialize sha256_hex read id profile c h =
      let (_, h1) = >>-eq-ok (validate_id bytes id) _ h in
      let (found, _, h2) = >>=-eq-ok (read id) _ h1 in
      let (valid, h3) = >>-eq-ok (validate_profile bytes found) _ h2 in
      let (text, _, h4) = >>=-eq-ok (serialize found) _ h3 in
      let same = ap (λ (p : ContextProfile × VersionCoordinate). p.0) (ok-injective h4) in
      subst (λ (p : ContextProfile). validate_profile bytes p ≡ ok tt) same valid
