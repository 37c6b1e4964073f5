-- ===== src/Context/Filing.antt =====
-- src/context/receipt.rs: the receipts on file.
use equill.Base.{
  String, ◌≡◌, refl, sym, ap, ◌∙◌, inl, inr, Option, none, some, ◌==◌, string_eq, eq_iff, lookup,
  insert, lookup-insert, glue, Bool-cases, ==-refl,
}
use equill.Kernel.Error.{Error, Result, ok, err, ok-injective}
use equill.Context.Receipt.{
  ContextReceipt, Files, Faults, receipt_path_of, compare_existing, write_new, write_or_compare,
  persist_bytes, persist,
}

compare_existing-files :
    (fault : Option Error) (files : Files) (path old bytes : String)
    → (compare_existing fault files path old bytes).1 ≡ files
compare_existing-files (some e) files path old bytes = refl
compare_existing-files none files path old bytes = elim (Bool-cases (old == bytes)) [
  | inl p ↦ rw p refl
  | inr p ↦ rw p refl
]

write_new-lookup :
    (fault : Option Error) (files : Files) (path bytes q x : String)
    → lookup path files ≡ none
    → lookup q files ≡ some x
    → lookup q (write_new fault files path bytes).1 ≡ some x
write_new-lookup (some e) files path bytes q x fresh h = h
write_new-lookup none files path bytes q x fresh h = elim (Bool-cases (path == q)) [
  | inl p ↦
      let same : lookup path files ≡ some x = ap (λ s. lookup s files) ((eq_iff path q).0 p) ∙ h in
      let bad : none ≡ some x = sym fresh ∙ same in absurd (let worse = bad in cc)
  | inr p ↦ lookup-insert path q bytes files ∙ (rw p h)
]

write_or_compare-lookup :
    (faults : Faults) (files : Files) (path bytes q x : String) (held : Option String)
    → lookup path files ≡ held
    → lookup q files ≡ some x
    → lookup q (write_or_compare faults files path bytes held).1 ≡ some x
write_or_compare-lookup faults files path bytes q x (some old) e h =
    ap (lookup q) (compare_existing-files faults.reading files path old bytes) ∙ h
write_or_compare-lookup faults files path bytes q x none e h =
    write_new-lookup faults.writing files path bytes q x e h

module _ (serialize : ContextReceipt → Result String) (sha256_hex : String → String) where
  persist_bytes-lookup :
      (faults : Faults) (files : Files) (text : Result String) (q x : String)
      → lookup q files ≡ some x
      → lookup q (persist_bytes serialize sha256_hex faults files text).1 ≡ some x
  persist_bytes-lookup faults files (err e) q x h = h
  persist_bytes-lookup faults files (ok text) q x h =
      write_or_compare-lookup faults files _ _ q x _ refl h

  -- A file of the store stays as it is, whatever receipt is persisted, with what outcome, and
  -- whichever faults are met.
  pub persist-lookup :
      (faults : Faults) (files : Files) (receipt : ContextReceipt) (q x : String)
      → lookup q files ≡ some x
      → lookup q (persist serialize sha256_hex faults files receipt).1 ≡ some x
  unfolding persist
  persist-lookup faults files receipt q x h =
      persist_bytes-lookup faults files (serialize receipt) q x h

  abbrev no_faults : Faults
  no_faults = record { reading = none; writing = none }

  -- a receipt that was stored, at its path with its bytes
  record IsFiled (receipt : ContextReceipt) (path : String) (files : Files) : Type 0 where
    pub text : String
    pub serialized : serialize receipt ≡ ok text
    pub placed : path ≡ receipt_path_of (sha256_hex (glue text "\n"))
    pub stored : lookup path files ≡ some (glue text "\n")

  compare_existing-IsFiled :
      (fault : Option Error) (files : Files) (path old bytes p : String)
      → (compare_existing fault files path old bytes).0 ≡ ok p
      → (old ≡ bytes) × (path ≡ p)
  compare_existing-IsFiled (some e) files path old bytes p h = cc
  compare_existing-IsFiled none files path old bytes p h = elim (Bool-cases (old == bytes)) [
    | inl e ↦ ((eq_iff old bytes).0 e, ok-injective (rw e at h))
    | inr e ↦ let bad = rw e at h in absurd (let worse = bad in cc)
  ]

  write_or_compare-IsFiled :
      (faults : Faults) (files : Files) (path bytes p : String) (held : Option String)
      → lookup path files ≡ held
      → (write_or_compare faults files path bytes held).0 ≡ ok p
      → (path ≡ p) × (lookup p (write_or_compare faults files path bytes held).1 ≡ some bytes)
  write_or_compare-IsFiled faults files path bytes p (some old) e h =
      let (same, at) = compare_existing-IsFiled faults.reading files path old bytes p h in
      (
        at,
        ap (lookup p) (compare_existing-files faults.reading files path old bytes)
            ∙ ap (λ s. lookup s files) (sym at)
            ∙ e
            ∙ ap some same,
      )
  write_or_compare-IsFiled faults files path bytes p none e h = write_new-IsFiled faults.writing h
    where
      write_new-IsFiled :
          (fault : Option Error)
          → (write_new fault files path bytes).0 ≡ ok p
          → (path ≡ p) × (lookup p (write_new fault files path bytes).1 ≡ some bytes)
      write_new-IsFiled (some f) k = cc
      write_new-IsFiled none k =
          let at = ok-injective k in
          (
            at,
            ap (λ s. lookup s (insert path bytes files)) (sym at)
                ∙ lookup-insert path path bytes files
                ∙ rw ==-refl refl,
          )

  persist_bytes-IsFiled :
      (faults : Faults) (files : Files) (receipt : ContextReceipt) (text : Result String)
      (p : String)
      → serialize receipt ≡ text
      → (persist_bytes serialize sha256_hex faults files text).0 ≡ ok p
      → IsFiled receipt p (persist_bytes serialize sha256_hex faults files text).1
  persist_bytes-IsFiled faults files receipt (err e) p s h = cc
  persist_bytes-IsFiled faults files receipt (ok text) p s h =
      let (at, stored) = write_or_compare-IsFiled faults files _ _ p _ refl h in
      record { text = text; serialized = s; placed = sym at; stored = stored }

  again :
      (files : Files) (receipt : ContextReceipt) (p : String)
      → IsFiled receipt p files
      → persist serialize sha256_hex no_faults files receipt ≡ (ok p, files)
  unfolding persist
  again files receipt p filed =
      let held : lookup (receipt_path_of (sha256_hex (glue filed.text "\n"))) files
          ≡ some (glue filed.text "\n") =
        ap (λ s. lookup s files) (sym filed.placed) ∙ filed.stored in
      rw (filed.serialized, held, ==-refl) (ap (λ s. (ok s, files)) (sym filed.placed))

  -- A receipt that was persisted is found when it is persisted again without a fault: the same path
  -- is answered and no file changes.
  pub persist-again :
      (faults : Faults) (files : Files) (receipt : ContextReceipt) (path : String)
      → (persist serialize sha256_hex faults files receipt).0 ≡ ok path
      → let after = (persist serialize sha256_hex faults files receipt).1 in
        persist serialize sha256_hex (record { reading = none; writing = none }) after receipt
        ≡ (ok path, after)
  unfolding persist
  persist-again faults files receipt path h =
      again _ receipt path
        (persist_bytes-IsFiled faults files receipt (serialize receipt) path refl h)
