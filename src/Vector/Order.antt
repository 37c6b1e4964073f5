-- ===== src/Vector/Order.antt =====
-- src/vector/fusion.rs: what `ordered` returns.
use mathlib.Core.List.{map-append}
use equill.Base.{
  ℕ, ◌≤◌, ◌≡◌, refl, ◌↔◌, inl, inr, Bool, true, false, ◌&&◌, ◌||◌, not, Option, none, some, List,
  [], ◌∷◌, ◌++◌, ◌==◌, nat_eq, map, length, length-append, contains, contains-append, Unique,
  Unique-snoc, ltb, arith, Bool-cases, if◌then◌else◌,
}
use equill.Vector.Fusion.{
  Source, Policy, Hit, Merge, get_or_insert, add_hit, add_hits, merge_source, answered_already,
  ordered, vector_half, text_half,
}

named :
    (V : Type 0) (answered : Option Source) (source : Source)
    → get_or_insert V answered source ≡ none
    → ⊥
named V none source e = cc
named V (some s) source e = cc

nonempty : {A : Type 0} (xs : List A) (x : A) → xs ++ x ∷ [] ≡ [] → ⊥
nonempty [] x e = cc
nonempty (y ∷ xs) x e = cc

module _ {V : Type 0} where
  abbrev pub hit_ids : List (Hit V) → List ℕ
  hit_ids = map (λ h. h.id)

  -- a round's test: the hit is not a repetition that counts, and there is room
  abbrev Admits : Policy → ℕ → List (Hit V) → List ℕ → Hit V → Bool → Type 0
  Admits policy limit output seen hit b =
      ((not policy.hybrid_deduplicate || not (contains seen hit.id)) && ltb (length output) limit)
      ≡ b

  abbrev seen_after : Policy → Hit V → List ℕ → List ℕ
  seen_after policy hit seen = if policy.hybrid_deduplicate then hit.id ∷ seen else seen

  -- a property of the output, the source that answered and the ids that were seen, which each round
  -- of the inner loop keeps
  record IsKept (policy : Policy) (limit : ℕ) (P : List (Hit V) → Option Source → List ℕ → Type 0)
      : Type 0 where
    begins : P [] none []
    pushes :
        (output : List (Hit V)) (answered : Option Source) (seen : List ℕ) (source : Source)
        (hit : Hit V)
        → Admits policy limit output seen hit true
        → P output answered seen
        → P (output ++ hit ∷ []) (get_or_insert V answered source) (seen_after policy hit seen)
    skips :
        (output : List (Hit V)) (answered : Option Source) (seen : List ℕ) (hit : Hit V)
        → Admits policy limit output seen hit false
        → P output answered seen
        → P output answered (seen_after policy hit seen)

  module _ (policy : Policy) (limit : ℕ) (P : List (Hit V) → Option Source → List ℕ → Type 0)
      (kept : IsKept policy limit P) where
    abbrev Has : Merge V → Type 0
    Has m = P m.output m.answered m.seen

    add_hit-Has :
        (source : Source) (m : Merge V) (hit : Hit V)
        → Has m
        → Has (add_hit V policy limit source hit m)
    unfolding add_hit
    add_hit-Has source m hit p =
        elim (Bool-cases (
          (not policy.hybrid_deduplicate || not (contains m.seen hit.id))
          && ltb (length m.output) limit)) [
            | inl e ↦ rw e (kept.pushes m.output m.answered m.seen source hit e p)
            | inr e ↦ rw e (kept.skips m.output m.answered m.seen hit e p)
          ]

    add_hits-Has :
        (source : Source) (hits : List (Hit V)) (m : Merge V)
        → Has m
        → Has (add_hits V policy limit source hits m)
    unfolding add_hits
    add_hits-Has source [] m p = p
    add_hits-Has source (hit ∷ hits) m p =
        add_hits-Has source hits (add_hit V policy limit source hit m) (add_hit-Has source m hit p)

    merge_source-Has :
        (source : Source) (m : Merge V) → Has m → Has (merge_source V policy limit source m)
    unfolding merge_source
    merge_source-Has vector_half m p = add_hits-Has vector_half m.vector _ p
    merge_source-Has text_half m p = add_hits-Has text_half m.text _ p

    -- What each round keeps holds of what `ordered` returns.
    ordered-keeps :
        (vector text : List (Hit V))
        → (seen : List ℕ) × P
            (ordered V vector text policy limit).0
            (ordered V vector text policy limit).1
            seen
    unfolding ordered
    ordered-keeps vector text =
        let start : Merge V = record {
          vector = vector;
          text = text;
          output = [];
          answered = none;
          seen = [];
        } in
        let one = merge_source-Has policy.hybrid_order.0 start kept.begins in
        let two = merge_source-Has policy.hybrid_order.1 _ one in
        elim (Bool-cases
          (answered_already V policy (merge_source V policy limit policy.hybrid_order.0 start))) [
            | inl e ↦ rw e (_, one)
            | inr e ↦ rw e (_, two)
          ]

  -- `ordered` returns at most `limit` hits, whatever the policy.
  pub ordered-length :
      (vector text : List (Hit V)) (policy : Policy) (limit : ℕ)
      → length (ordered V vector text policy limit).0 ≤ limit
  ordered-length vector text policy limit =
      (ordered-keeps policy limit (λ output _ _. length output ≤ limit)
        (record {
          begins = omega arith;
          pushes = λ output _ _ _ hit room le. ground (arith, length-append output (hit ∷ []));
          skips = λ output _ _ _ _ le. le;
        })
        vector text).1

  -- no record stands twice in the output, and every record there was seen
  abbrev Fresh : List (Hit V) → List ℕ → Type 0
  Fresh output seen =
      Unique (hit_ids output)
      × ((id : ℕ) → contains seen id ≡ false → contains (hit_ids output) id ≡ false)

  unseen_tail :
      (policy : Policy) (hit : Hit V) (seen : List ℕ) (id : ℕ)
      → policy.hybrid_deduplicate ≡ true
      → contains (seen_after policy hit seen) id ≡ false
      → ((hit.id == id) ≡ false) × (contains seen id ≡ false)
  unfolding contains
  unseen_tail policy hit seen id dedup n = let n' = rw dedup at n in (ground arith, ground arith)

  Fresh-snoc :
      (policy : Policy) (limit : ℕ) (output : List (Hit V)) (seen : List ℕ) (hit : Hit V)
      → policy.hybrid_deduplicate ≡ true
      → Admits policy limit output seen hit true
      → Fresh output seen
      → Fresh (output ++ hit ∷ []) (seen_after policy hit seen)
  unfolding contains
  Fresh-snoc policy limit output seen hit dedup room p =
      let room' = rw dedup at room in
      let split = map-append (λ (h : Hit V). h.id) output (hit ∷ []) in
      (
        rw split (Unique-snoc hit.id (hit_ids output) p.0 (p.1 hit.id (ground arith))),
        λ id n.
            let (other, unseen) = unseen_tail policy hit seen id dedup n in
            rw split
              (ground (arith, contains-append (hit_ids output) (hit.id ∷ []) id, p.1 id unseen)),
      )

  -- Under a policy that deduplicates, `ordered` returns no record twice.
  pub ordered-Unique :
      (vector text : List (Hit V)) (policy : Policy) (limit : ℕ)
      → policy.hybrid_deduplicate ≡ true
      → Unique (hit_ids (ordered V vector text policy limit).0)
  ordered-Unique vector text policy limit dedup =
      (ordered-keeps policy limit (λ output _ seen. Fresh output seen)
        (record {
          begins = (tt, λ id n. n);
          pushes =
              λ output _ seen _ hit room p. Fresh-snoc policy limit output seen hit dedup room p;
          skips = λ output _ seen hit full p.
              (p.0, λ id n. p.1 id (unseen_tail policy hit seen id dedup n).1);
        })
        vector text).1.0

  -- `ordered` names no source exactly when it returns no hit.
  pub ordered-answered :
      (vector text : List (Hit V)) (policy : Policy) (limit : ℕ)
      → ((ordered V vector text policy limit).1 ≡ none)
        ↔ ((ordered V vector text policy limit).0 ≡ [])
  ordered-answered vector text policy limit =
      (ordered-keeps policy limit (λ output answered _. (answered ≡ none) ↔ (output ≡ []))
        (record {
          begins = (λ _. refl, λ _. refl);
          pushes = λ output answered _ source hit _ _.
              (λ e. absurd (named V answered source e), λ e. absurd (nonempty output hit e));
          skips = λ _ _ _ _ _ p. p;
        })
        vector text).1
