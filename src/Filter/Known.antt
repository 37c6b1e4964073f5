-- ===== src/Filter/Known.antt =====
-- src/filter/schema.rs: which paths the check accepts.
use equill.Base.{
  String, ◌≡◌, refl, sym, ◌↔◌, ◌⊎◌, inl, inr, Bool, true, false, ◌||◌, not, Option, none, some,
  List, [], ◌∷◌, ◌==◌, string_eq, eq_iff, All, arith, Bool-cases,
}
use mathlib.Core.Path.{subst}
use equill.Kernel.Error.{ok, refuse, >>-eq-ok, refuse-eq-ok}
use equill.Filter.Terms.{Condition, Filter, envelope_path}
use equill.Filter.Schema.{
  Definition, is_empty, is_true, known, require_known, judge_bare, check_path, check_paths,
  validate,
}

-- a path that names a field: one half said outright, or a bare name that the payload of some type
-- declares or else the envelope has
pub data Names (definitions : List Definition) : List String → Type 0 where
  of_payload :
      (rest : List String)
      → is_empty rest ≡ false
      → known definitions rest ≡ true
      → Names definitions ("payload" ∷ rest)
  of_record :
      (rest : List String)
      → is_empty rest ≡ false
      → envelope_path rest ≡ some true
      → Names definitions ("record" ∷ rest)
  bare :
      (first : String) (rest : List String)
      → (first == "payload") ≡ false
      → (first == "record") ≡ false
      → (known definitions (first ∷ rest) ≡ true) ⊎ (envelope_path (first ∷ rest) ≡ some true)
      → Names definitions (first ∷ rest)

known_of_require :
    (definitions : List Definition) (path : List String)
    → require_known definitions path ≡ ok tt
    → (is_empty path ≡ false) × (known definitions path ≡ true)
known_of_require definitions path h =
    let (some_field, rest) = >>-eq-ok (refuse (is_empty path) _) _ h in
    let declares = refuse-eq-ok _ _ rest in (refuse-eq-ok _ _ some_field, ground (arith, declares))

require_of_known :
    (definitions : List Definition) (path : List String)
    → is_empty path ≡ false
    → known definitions path ≡ true
    → require_known definitions path ≡ ok tt
require_of_known definitions path some_field declares = rw (some_field, declares) refl

judge_bare-eq-ok :
    (definitions : List Definition) (path : List String) (found : Option Bool)
    → judge_bare definitions path found ≡ ok tt
    → (known definitions path ≡ true) ⊎ (found ≡ some true)
judge_bare-eq-ok definitions path (some true) h = inr refl
judge_bare-eq-ok definitions path (some false) h = cc
judge_bare-eq-ok definitions path none h = inl (known_of_require definitions path h).1

Names-of_check :
    (definitions : List Definition) (path : List String)
    → check_path definitions path ≡ ok tt
    → Names definitions path
unfolding check_path
Names-of_check definitions [] h = cc
Names-of_check definitions (first ∷ rest) h = elim (Bool-cases (first == "payload")) [
  | inl p ↦
      let (some_field, declares) = known_of_require definitions rest (rw p at h) in
      subst (λ (s : String). Names definitions (s ∷ rest)) (sym ((eq_iff first "payload").0 p))
        (of_payload rest some_field declares)
  | inr p ↦ elim (Bool-cases (first == "record")) [
    | inl q ↦
        let refused =
          refuse-eq-ok (is_empty rest || not (is_true (envelope_path rest))) _ (rw (p, q) at h) in
        subst (λ (s : String). Names definitions (s ∷ rest)) (sym ((eq_iff first "record").0 q))
          (of_record rest (ground arith) (ground arith))
    | inr q ↦ elim (Bool-cases (known definitions (first ∷ rest))) [
      | inl k ↦ bare first rest p q (inl k)
      | inr k ↦ bare first rest p q (
          judge_bare-eq-ok definitions (first ∷ rest) (envelope_path (first ∷ rest))
            (rw (p, q, k) at h))
    ]
  ]
]

check_of_Names :
    (definitions : List Definition) (path : List String)
    → Names definitions path
    → check_path definitions path ≡ ok tt
unfolding check_path
check_of_Names definitions _ (of_payload rest some_field declares) =
    require_of_known definitions rest some_field declares
check_of_Names definitions _ (of_record rest some_field has) = rw (some_field, has) refl
check_of_Names definitions _ (bare first rest p q (inl k)) = rw (p, q, k) refl
check_of_Names definitions _ (bare first rest p q (inr has)) =
    elim (Bool-cases (known definitions (first ∷ rest))) [
      | inl k ↦ rw (p, q, k) refl
      | inr k ↦ rw (p, q, k, has) refl
    ]

-- every condition names a field
abbrev pub AllNamed : List Definition → List Condition → Type 0
AllNamed definitions cs = All (λ (c : Condition). Names definitions c.path) cs

AllNamed-of_check :
    (definitions : List Definition) (cs : List Condition)
    → check_paths definitions cs ≡ ok tt
    → AllNamed definitions cs
unfolding check_paths
AllNamed-of_check definitions [] h = tt
AllNamed-of_check definitions (c ∷ cs) h =
    let (first, rest) = >>-eq-ok (check_path definitions c.path) _ h in
    (Names-of_check definitions c.path first, AllNamed-of_check definitions cs rest)

check_of_AllNamed :
    (definitions : List Definition) (cs : List Condition)
    → AllNamed definitions cs
    → check_paths definitions cs ≡ ok tt
unfolding check_paths
check_of_AllNamed definitions [] named = refl
check_of_AllNamed definitions (c ∷ cs) named =
    rw (check_of_Names definitions c.path named.0) (check_of_AllNamed definitions cs named.1)

-- A filter passes the check against the types in scope exactly when it has no condition, or there
-- is a type in scope and the path of every condition names a field: `payload.` before a path that
-- some payload declares, `record.` before one that the envelope has, or a bare one of either.
pub validate-Names :
    (f : Filter) (definitions : List Definition)
    → (validate f definitions ≡ ok tt) ↔ (
        (is_empty f.conditions ≡ true)
        ⊎ ((is_empty definitions ≡ false) × AllNamed definitions f.conditions))
unfolding validate
validate-Names f definitions = elim (Bool-cases (is_empty f.conditions)) [
  | inl none_asked ↦ (λ h. inl none_asked, λ h. rw none_asked refl)
  | inr asked ↦ (
    λ h.
        let (some_type, rest) = >>-eq-ok (refuse (is_empty definitions) _) _ (rw asked at h) in
        inr (refuse-eq-ok _ _ some_type, AllNamed-of_check definitions f.conditions rest),
    λ either. elim either [
      | inl none_asked ↦ absurd (ground arith)
      | inr (some_type, named) ↦
          rw (asked, some_type) (check_of_AllNamed definitions f.conditions named)
    ],
  )
]
