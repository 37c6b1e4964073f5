-- ===== src/Context/Gate.antt =====
-- src/context/matching.rs: which records the gate lets through, and the rule for coordinates.
use equill.Base.{
  ℕ, String, ◌≡◌, refl, sym, ap, ◌∙◌, ◌↔◌, Bool, true, false, ◌&&◌, ◌||◌, not, Option, none, some,
  List, [], ◌∷◌, string_eq, nat_eq, any, contains, lookup, ltb, arith, if◌then◌else◌,
}
use equill.Kernel.Error.{Result, ok, ok_or, >>=-eq-ok, ok_or-eq-ok}
use equill.Json.{Json}
use equill.Context.Model.{ExclusionReason, Selector, ContextProfile, ContextRequest}
use equill.Context.Matching.{
  Row, is_empty, read_authorized, withdrawn, has_value, meets, set_or_wildcard, coordinates_match,
  kind_matches, expiry, expired_at, gate_selector, gate,
}

if-none :
    (b : Bool) (x : ExclusionReason) (rest : Result (Option ExclusionReason))
    → (if b then ok (some x) else rest) ≡ ok none
    → (b ≡ false) × (rest ≡ ok none)
if-none true x rest h = cc
if-none false x rest h = (refl, h)

not-false : (b : Bool) → not b ≡ false → b ≡ true
not-false true h = refl
not-false false h = cc

module _ (j : Json) (lower : String → String) (parse : String → Option ℕ) where
  open j use {Value, beq, beq_iff, is_null, as_array}

  -- what the gate asks of a record whose type has the selector
  pub record IsSelected (r : Row j lower parse) (request : ContextRequest Value) (at : ℕ)
      (selector : Selector) : Type 0 where
    pub unexpired : expired_at j lower parse (expiry j lower parse r selector) at ≡ ok false
    pub coordinates : coordinates_match j lower parse r selector request ≡ true
    pub kinds :
        (not (is_empty request.kinds) && not (kind_matches j lower parse r selector request.kinds))
        ≡ false

  -- what the gate asks of a record
  pub record IsAdmitted (r : Row j lower parse) (profile : ContextProfile)
      (selectors : List (String × Selector)) (request : ContextRequest Value) (at : ℕ)
      (hidden : List ℕ) : Type 0 where
    pub authorized : read_authorized j lower parse r profile ≡ true
    pub current : contains hidden r.id ≡ false
    pub standing : (not request.include_superseded && withdrawn j lower parse r) ≡ false
    pub valid_at : ℕ
    pub valid : (parse r.valid_at ≡ some valid_at) × (ltb at valid_at ≡ false)
    pub selector : Selector
    pub typed : lookup r.type_name selectors ≡ some selector
    pub selected : IsSelected r request at selector

  gate_selector-IsSelected :
      (r : Row j lower parse) (request : ContextRequest Value) (at : ℕ) (o : Option Selector)
      → gate_selector j lower parse r request at o ≡ ok none
      → (selector : Selector) × (o ≡ some selector) × IsSelected r request at selector
  gate_selector-IsSelected r request at none h = cc
  gate_selector-IsSelected r request at (some selector) h =
      let (old, dated, h1) =
        >>=-eq-ok (expired_at j lower parse (expiry j lower parse r selector) at) _ h in
      let (young, h2) = if-none old _ _ h1 in
      let (placed, h3) = if-none _ _ _ h2 in
      let (kinds, _) = if-none _ _ _ h3 in
      (
        selector,
        refl,
        record { unexpired = dated ∙ ap ok young; coordinates = not-false _ placed; kinds = kinds },
      )

  pub gate-IsAdmitted :
      (r : Row j lower parse) (profile : ContextProfile) (selectors : List (String × Selector))
      (request : ContextRequest Value) (at : ℕ) (hidden : List ℕ)
      → gate j lower parse r profile selectors request at hidden ≡ ok none
      → IsAdmitted r profile selectors request at hidden
  unfolding gate
  gate-IsAdmitted r profile selectors request at hidden h =
      let (authorized, h1) = if-none _ _ _ h in
      let (current, h2) = if-none _ _ _ h1 in
      let (standing, h3) = if-none _ _ _ h2 in
      let (t, parsed, h4) = >>=-eq-ok (ok_or (parse r.valid_at) _) _ h3 in
      let (begun, h5) = if-none _ _ _ h4 in
      let (selector, typed, selected) = gate_selector-IsSelected r request at _ h5 in
      record {
        authorized = not-false _ authorized;
        current = current;
        standing = standing;
        valid_at = t;
        valid = (ok_or-eq-ok _ _ parsed, begun);
        selector = selector;
        typed = typed;
        selected = selected;
      }

  IsAdmitted-gate :
      (r : Row j lower parse) (profile : ContextProfile) (selectors : List (String × Selector))
      (request : ContextRequest Value) (at : ℕ) (hidden : List ℕ)
      → IsAdmitted r profile selectors request at hidden
      → gate j lower parse r profile selectors request at hidden ≡ ok none
  unfolding gate
  IsAdmitted-gate r profile selectors request at hidden a =
      rw
        (
          a.authorized, a.current, a.standing, a.valid.0, a.valid.1, a.typed, a.selected.unexpired,
          a.selected.coordinates, a.selected.kinds,
        )
        refl

  -- The gate lets a record through exactly when a grant covers its namespace and type, no record
  -- hides it, it is not withdrawn or superseded records are asked for, it is valid at the request's
  -- instant, and its type has a selector under which it has not expired and matches the requested
  -- coordinates and kinds.
  pub gate_iff :
      (r : Row j lower parse) (profile : ContextProfile) (selectors : List (String × Selector))
      (request : ContextRequest Value) (at : ℕ) (hidden : List ℕ)
      → (gate j lower parse r profile selectors request at hidden ≡ ok none)
        ↔ IsAdmitted r profile selectors request at hidden
  gate_iff r profile selectors request at hidden = (
    gate-IsAdmitted r profile selectors request at hidden,
    IsAdmitted-gate r profile selectors request at hidden,
  )

  beq_comm : (a b : Value) → beq a b ≡ beq b a
  beq_comm a b = ground (arith, beq_iff a b, beq_iff b a)

  any-none : (ws : List Value) → any (λ w. has_value j lower parse [] w) ws ≡ false
  unfolding any has_value
  any-none [] = refl
  any-none (w ∷ ws) = any-none ws

  any-cons :
      (h : Value) (hs ws : List Value)
      → any (λ w. has_value j lower parse (h ∷ hs) w) ws
        ≡ (has_value j lower parse ws h || any (λ w. has_value j lower parse hs w) ws)
  unfolding any has_value
  any-cons h hs [] = refl
  any-cons h hs (w ∷ ws) = ground (arith, beq_comm h w, any-cons h hs ws)

  any-swap :
      (hs ws : List Value)
      → any (λ v. has_value j lower parse ws v) hs ≡ any (λ w. has_value j lower parse hs w) ws
  unfolding any
  any-swap [] ws = sym (any-none ws)
  any-swap (h ∷ hs) ws =
      ap (λ b. has_value j lower parse ws h || b) (any-swap hs ws) ∙ sym (any-cons h hs ws)

  meets_comm :
      (a b : Option (List Value)) (x y : Value)
      → meets j lower parse a b x y ≡ meets j lower parse b a y x
  meets_comm (some hs) (some ws) x y = any-swap hs ws
  meets_comm (some hs) none x y = refl
  meets_comm none (some ws) x y = refl
  meets_comm none none x y = beq_comm x y

  -- Apart from a null, which is universal where a record holds it, the rule for coordinates is
  -- symmetric: a record's value or set meets a requested one exactly when they meet the other way.
  pub set_or_wildcard_comm :
      (a b : Value)
      → is_null a ≡ false
      → is_null b ≡ false
      → set_or_wildcard j lower parse (some a) b ≡ set_or_wildcard j lower parse (some b) a
  unfolding set_or_wildcard
  set_or_wildcard_comm a b na nb = rw (na, nb) (meets_comm (as_array a) (as_array b) a b)
