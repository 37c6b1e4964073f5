-- ===== src/Lifecycle/Candidate.antt =====
-- What an accepted candidate satisfies, in terms of the ledger that the state describes.
use mathlib.Core.Option.{some-injective}
use mathlib.Core.Path.{subst}
use equill.Base.{
  ℕ, String, ◌≡◌, refl, sym, ap, ◌∙◌, inl, inr, Bool, true, false, ◌&&◌, not, Option, none, some,
  List, [], ◌∷◌, ◌==◌, nat_eq, string_eq, filter, lookup, Elem, arith, eq_iff, Bool-cases,
}
use equill.Kernel.Error.{ok, refuse, >>=-eq-ok, >>-eq-ok, refuse-eq-ok, ok_or-eq-ok}
use equill.Json.{Json}
use equill.Record.{StoredRecord, TypeDefinition}
use equill.Lifecycle.Rules.{key, require_key, linear_type, accepts}
use equill.Lifecycle.State.{Entry, LifecycleState, head, heads_claiming}
use equill.Lifecycle.Append.{
  other_head, find_target, check_target, check_heads, check_linear, check_claimants, claimants,
  is_claimant, head_conflict, validate_append_against,
}

Elem-filter :
    {A : Type 0} (test : A → Bool) (xs : List A) (x : A)
    → Elem x xs
    → test x ≡ true
    → Elem x (filter test xs)
unfolding filter
Elem-filter test [] x m h = elim m [ ]
Elem-filter test (y ∷ xs) x (inl e) h = rw (ap test e ∙ h) (inl e)
Elem-filter test (y ∷ xs) x (inr m) h = elim (Bool-cases (test y)) [
  | inl p ↦ rw p (inr (Elem-filter test xs x m h))
  | inr p ↦ rw p (Elem-filter test xs x m h)
]

lookup-Elem :
    {V : Type 0} (k : String) (m : List (String × V)) (v : V) → lookup k m ≡ some v → Elem (k, v) m
unfolding lookup
lookup-Elem k [] v h = absurd (ground arith)
lookup-Elem k ((i, w) ∷ m) v h = elim (Bool-cases (i == k)) [
  | inl p ↦
      let held : some w ≡ some v = rw p at h in
      inl (λ t. ((eq_iff i k).0 p t, some-injective w v held t))
  | inr p ↦ inr (lookup-Elem k m v (rw p at h))
]

module _ (j : Json) where
  open j use {Value}

  check_claimants-at :
      (state : LifecycleState Value) (c : StoredRecord Value) (target : Option ℕ)
      (cs : List (String × TypeDefinition Value)) (name : String) (d : TypeDefinition Value)
      → check_claimants j state c target cs ≡ ok tt
      → Elem (name, d) cs
      → head_conflict j state c target name (key j c d) ≡ false
  unfolding check_claimants
  check_claimants-at state c target [] name d h m = elim m [ ]
  check_claimants-at state c target ((n, l) ∷ cs) name d h (inl e) =
      let (first, rest) = >>-eq-ok (refuse (head_conflict j state c target n (key j c l)) _) _ h in
      subst (λ p. head_conflict j state c target p.0 (key j c p.1) ≡ false) e
        (refuse-eq-ok _ _ first)
  check_claimants-at state c target ((n, l) ∷ cs) name d h (inr m) =
      let (first, rest) = >>-eq-ok (refuse (head_conflict j state c target n (key j c l)) _) _ h in
      check_claimants-at state c target cs name d rest m

  check_heads-other :
      (state : LifecycleState Value) (c : StoredRecord Value) (target : Option ℕ) (k : Value)
      → check_heads j state c target k ≡ ok tt
      → other_head (heads_claiming j state c.type_name c.namespace k) target ≡ false
  unfolding check_heads
  check_heads-other state c none k h = refuse-eq-ok _ _ h
  check_heads-other state c (some t) k h =
      refuse-eq-ok _ _ ((>>-eq-ok (refuse (not (head j state t)) _) _ h).1)

  check_heads-head :
      (state : LifecycleState Value) (c : StoredRecord Value) (t : ℕ) (k : Value)
      → check_heads j state c (some t) k ≡ ok tt
      → head j state t ≡ true
  unfolding check_heads
  check_heads-head state c t k h =
      ground (arith, refuse-eq-ok _ _ ((>>-eq-ok (refuse (not (head j state t)) _) _ h).0))

  -- what acceptance comes to
  pub record Accepted (state : LifecycleState Value) (c : StoredRecord Value)
      (d : TypeDefinition Value) (td : Option (TypeDefinition Value))
      (claiming : List (String × TypeDefinition Value)) : Type 0 where
    pub target : Option (ℕ × Entry Value)
    pub found : find_target j state c.supersedes ≡ ok target
    pub edge : check_target j c d td target ≡ ok tt
    pub linear : check_linear j state c d c.supersedes (linear_type j d) ≡ ok tt
    pub claimed : check_claimants j state c c.supersedes (claimants j c d claiming) ≡ ok tt

  pub accepted :
      (state : LifecycleState Value) (c : StoredRecord Value) (d : TypeDefinition Value)
      (td : Option (TypeDefinition Value)) (claiming : List (String × TypeDefinition Value))
      → validate_append_against j state c d td claiming ≡ ok tt
      → Accepted state c d td claiming
  unfolding validate_append_against
  accepted state c d td claiming h =
      let (t, found, h1) = >>=-eq-ok (find_target j state c.supersedes) _ h in
      let (e, h2) = >>-eq-ok (check_target j c d td t) _ h1 in
      let (l, cs) = >>-eq-ok (check_linear j state c d c.supersedes (linear_type j d)) _ h2 in
      record { target = t; found = found; edge = e; linear = l; claimed = cs }

  module _ (state : LifecycleState Value) (c : StoredRecord Value) (d : TypeDefinition Value)
      (td : Option (TypeDefinition Value)) (claiming : List (String × TypeDefinition Value))
      (a : Accepted state c d td claiming) where
    -- A linear candidate has its key, and its target is a head.
    pub linear_key : linear_type j d ≡ true → (k : Value) × (key j c d ≡ some k)
    unfolding check_linear require_key
    linear_key p =
        let (k, found, rest) =
          >>=-eq-ok (require_key j c d) (λ k. check_heads j state c c.supersedes k)
            (rw p at a.linear) in
        (k, ok_or-eq-ok _ _ found)

    pub linear_head :
        (t : ℕ) → linear_type j d ≡ true → c.supersedes ≡ some t → head j state t ≡ true
    unfolding check_linear
    linear_head t p s =
        let (k, found, rest) =
          >>=-eq-ok (require_key j c d) (λ k. check_heads j state c c.supersedes k)
            (rw p at a.linear) in
        check_heads-head state c t k (subst (λ o. check_heads j state c o k ≡ ok tt) s rest)

    own_conflict :
        (k : Value)
        → linear_type j d ≡ true
        → key j c d ≡ some k
        → other_head (heads_claiming j state c.type_name c.namespace k) c.supersedes ≡ false
    unfolding check_linear require_key
    own_conflict k p kk =
        let (k', found, rest) =
          >>=-eq-ok (require_key j c d) (λ k. check_heads j state c c.supersedes k)
            (rw p at a.linear) in
        let same = some-injective k' k (sym (ok_or-eq-ok _ _ found) ∙ kk) in
        subst
          (λ v. other_head (heads_claiming j state c.type_name c.namespace v) c.supersedes ≡ false)
          same (check_heads-other state c c.supersedes k' rest)

    claims-candidate :
        (name : String) (l : TypeDefinition Value)
        → linear_type j l ≡ true
        → accepts j name l c.type_name ≡ true
        → (name == c.type_name && linear_type j d) ≡ false
        → is_claimant j c d (name, l) ≡ true
    unfolding is_claimant
    claims-candidate name l p takes other = rw (p, takes, other) refl

    claimants-filter :
        check_claimants j state c c.supersedes (claimants j c d claiming) ≡ ok tt
        → check_claimants j state c c.supersedes (filter (is_claimant j c d) claiming) ≡ ok tt
    unfolding claimants
    claimants-filter h = h

    -- No other head presents the candidate's key to a linear type that would count the candidate.
    pub no_conflict :
        (name : String) (l : TypeDefinition Value) (k : Value)
        → lookup c.type_name claiming ≡ some d
        → lookup name claiming ≡ some l
        → linear_type j l ≡ true
        → accepts j name l c.type_name ≡ true
        → key j c l ≡ some k
        → other_head (heads_claiming j state name c.namespace k) c.supersedes ≡ false
    no_conflict name l k own held p takes kk =
        elim (Bool-cases (name == c.type_name && linear_type j d)) [
          | inl same ↦
              let n : name ≡ c.type_name = ground (arith, same, eq_iff name c.type_name) in
              let p' : linear_type j d ≡ true = ground (arith, same) in
              let l≡d =
                some-injective l d (sym held ∙ ap (λ (x : String). lookup x claiming) n ∙ own) in
              rw n (own_conflict k p' (rw l≡d at kk))
          | inr other ↦
              let place =
                Elem-filter (is_claimant j c d) claiming (name, l)
                  (lookup-Elem name claiming l held) (claims-candidate name l p takes other) in
              subst (λ o. head_conflict j state c c.supersedes name o ≡ false) kk
                (check_claimants-at state c c.supersedes (filter (is_claimant j c d) claiming) name
                  l (claimants-filter a.claimed) place)
        ]
