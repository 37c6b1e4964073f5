-- ===== src/Kernel/Authority.antt =====
-- src/kernel/identity.rs: who may write a record.
use equill.Base.{
  String, ◌≡◌, refl, ap, ◌↔◌, ◌⊎◌, inl, inr, Bool, true, false, ◌&&◌, Option, ◌==◌, string_eq, any,
  Elem, Elem-of_any, any_of_Elem, arith,
}
use equill.Kernel.Error.{ok, >>-eq-ok, refuse-eq-ok}
use equill.Json.{Json}
use equill.Kernel.Identity.{
  WriteGrant, StoreConfig, WriteTarget, valid, allow, read_only, broad, grant_allows,
  grant_allows_opt, allow_granted, require_record_writer,
}

module _ (j : Json) where
  open j use {Value}

  -- the store names the actor as one that only reads
  abbrev pub is_reader : StoreConfig Value → String → Bool
  is_reader config actor = any (λ item. item == actor) config.read_only

  -- one of the store's grants covers the target and its predecessor
  abbrev pub Covering :
      StoreConfig Value → String → WriteTarget Value → Option (WriteTarget Value) → Type 0
  Covering config actor target predecessor =
      (grant : WriteGrant Value) × Elem grant config.write_grants
      × (grant_allows j grant actor target ≡ true)
      × (grant_allows_opt j grant actor predecessor ≡ true)

  allow-true : (b : Bool) → allow b ≡ ok tt → b ≡ true
  allow-true true h = refl
  allow-true false h = cc

  allow_granted-cases :
      (config : StoreConfig Value) (actor : String) (target : WriteTarget Value)
      (predecessor : Option (WriteTarget Value)) (b : Bool)
      → allow_granted j config actor target predecessor b ≡ ok tt
      → (b ≡ true) ⊎ Covering config actor target predecessor
  allow_granted-cases config actor target predecessor true h = inl refl
  allow_granted-cases config actor target predecessor false h =
      let (grant, place, both) = Elem-of_any _ config.write_grants (allow-true _ h) in
      inr (grant, place, ground arith, ground arith)

  allow_granted-covered :
      (config : StoreConfig Value) (actor : String) (target : WriteTarget Value)
      (predecessor : Option (WriteTarget Value)) (b : Bool)
      → (b ≡ true) ⊎ Covering config actor target predecessor
      → allow_granted j config actor target predecessor b ≡ ok tt
  allow_granted-covered config actor target predecessor true h = refl
  allow_granted-covered config actor target predecessor false (inl e) = cc
  allow_granted-covered config actor target predecessor false (inr (grant, place, one, two)) =
      ap allow (any_of_Elem _ grant config.write_grants place (rw (one, two) refl))

  -- A record may be written exactly by an actor that the store does not hold to reading and that
  -- is valid and the owner or a store-wide writer, or for whom one single grant covers both the
  -- record and the record that it replaces, if it replaces one.
  pub require_record_writer_iff :
      (config : StoreConfig Value) (actor : String) (target : WriteTarget Value)
      (predecessor : Option (WriteTarget Value))
      → (require_record_writer j config actor target predecessor ≡ ok tt) ↔ (
          (is_reader config actor ≡ false)
          × (((valid actor && broad j config actor) ≡ true)
              ⊎ Covering config actor target predecessor))
  unfolding require_record_writer read_only
  require_record_writer_iff config actor target predecessor = (
    (λ h.
        let (reads, rest) = >>-eq-ok (read_only j config actor) _ h in
        (refuse-eq-ok _ _ reads, allow_granted-cases config actor target predecessor _ rest)),
    (λ (open_to, cover).
        rw open_to (allow_granted-covered config actor target predecessor _ cover)),
  )
