-- ===== src/Lifecycle/Keys.antt =====
-- src/record/lifecycle/graph.rs: distinct keys among fewer heads, and with one more.
-- its target with no other and that its type's heads have distinct keys.
use equill.Base.{
  String, ◌≡◌, refl, inl, inr, Bool, true, false, Option, none, some, List, [], ◌∷◌, ◌++◌, ◌==◌,
  nat_eq, string_eq, contains, filter, Elem, arith, Bool-cases,
}
use equill.Kernel.Error.{ok, refuse, >>-eq-ok, refuse-eq-ok}
use equill.Json.{Json}
use equill.Record.{StoredRecord, TypeDefinition}
use equill.Lifecycle.Rules.{key}
use equill.Lifecycle.Ledger.{Rows}
use equill.Lifecycle.Graph.{seen_key, see_key, unique_keys}

module _ (j : Json) where
  open j use {Value, to_string}

  seen-know :
      (seen seen' : List String) (o : Option Value)
      → ((k : String) → contains seen k ≡ false → contains seen' k ≡ false)
      → seen_key j seen o ≡ false
      → seen_key j seen' o ≡ false
  seen-know seen seen' none know h = refl
  seen-know seen seen' (some v) know h = know (to_string v) h

  see-drop :
      (seen : List String) (o : Option Value) (k : String)
      → contains (see_key j o seen) k ≡ false
      → contains seen k ≡ false
  unfolding contains
  see-drop seen none k h = h
  see-drop seen (some v) k h = ground arith

  see-know :
      (seen seen' : List String) (o : Option Value)
      → ((k : String) → contains seen k ≡ false → contains seen' k ≡ false)
      → (k : String) → contains (see_key j o seen) k ≡ false
      → contains (see_key j o seen') k ≡ false
  unfolding contains
  see-know seen seen' none know k h = know k h
  see-know seen seen' (some v) know k h = ground (arith, know k)

  see-apart :
      (seen : List String) (o c : Option Value)
      → seen_key j seen c ≡ false
      → ((v w : Value) → o ≡ some v → c ≡ some w → (to_string v == to_string w) ≡ false)
      → seen_key j (see_key j o seen) c ≡ false
  unfolding contains
  see-apart seen none c h apart = h
  see-apart seen (some v) none h apart = refl
  see-apart seen (some v) (some w) h apart = rw (apart v w refl refl) h

  -- Fewer keys seen, and fewer heads, leave the keys distinct.
  pub fewer :
      (d : TypeDefinition Value) (p q : StoredRecord Value → Bool) (seen seen' : List String)
      (rs : Rows j)
      → ((x : StoredRecord Value) → q x ≡ true → p x ≡ true)
      → ((k : String) → contains seen k ≡ false → contains seen' k ≡ false)
      → unique_keys j d seen (filter p rs) ≡ ok tt
      → unique_keys j d seen' (filter q rs) ≡ ok tt
  unfolding unique_keys filter
  fewer d p q seen seen' [] less know h = refl
  fewer d p q seen seen' (r ∷ rs) less know h = elim (Bool-cases (q r)) [
    | inl wanted ↦
        let (first, rest) =
          >>-eq-ok (refuse (seen_key j seen (key j r d)) _) _ (rw (less r wanted) at h) in
        rw (wanted, seen-know seen seen' (key j r d) know (refuse-eq-ok _ _ first))
          (fewer d p q (see_key j (key j r d) seen) (see_key j (key j r d) seen') rs less
            (see-know seen seen' (key j r d) know) rest)
    | inr unwanted ↦ rw unwanted (elim (Bool-cases (p r)) [
      | inl counts ↦
          let (first, rest) =
            >>-eq-ok (refuse (seen_key j seen (key j r d)) _) _ (rw counts at h) in
          fewer d p q (see_key j (key j r d) seen) seen' rs less
            (λ k n. know k (see-drop seen (key j r d) k n)) rest
      | inr absent ↦ fewer d p q seen seen' rs less know (rw absent at h)
    ])
  ]

  -- One more head, whose key no counted head has.
  pub one_more :
      (d : TypeDefinition Value) (seen : List String) (hs : Rows j) (c : StoredRecord Value)
      → unique_keys j d seen hs ≡ ok tt
      → seen_key j seen (key j c d) ≡ false
      → ((h : StoredRecord Value)
          → Elem h hs
          → (v w : Value) → key j h d ≡ some v
          → key j c d ≡ some w
          → (to_string v == to_string w) ≡ false)
      → unique_keys j d seen (hs ++ c ∷ []) ≡ ok tt
  unfolding unique_keys
  one_more d seen [] c h free apart = rw free refl
  one_more d seen (x ∷ hs) c h free apart =
      let (first, rest) = >>-eq-ok (refuse (seen_key j seen (key j x d)) _) _ h in
      rw (refuse-eq-ok _ _ first) (
        one_more d (see_key j (key j x d) seen) hs c rest
          (see-apart seen (key j x d) (key j c d) free (apart x (inl refl)))
          (λ y m. apart y (inr m)))
