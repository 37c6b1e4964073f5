-- ===== src/Filter/Policy.antt =====
-- src/filter/apply.rs: what strictness, alternatives and negation change.
use equill.Base.{
  ℕ, String, ◌≡◌, refl, ◌∙◌, true, false, ◌||◌, not, Option, none, some, List, [], ◌∷◌, ◌++◌, any,
  all, any-append, arith,
}
use equill.Json.Tree.{Tree}
use equill.Record.{StoredRecord}
use equill.Filter.Terms.{
  Term, null_term, literal, is_null_term, Condition, Absent, wildcard, exclude,
}
use equill.Filter.Apply.{
  contains_term, address, is_missing, is_null_alone, found, holds, envelope, matches,
}

holds-lenient :
    (actual : Option Tree) (c : Condition)
    → holds actual c exclude ≡ true
    → holds actual c wildcard ≡ true
unfolding holds
holds-lenient actual c h = ground arith

all-holds :
    (find : Condition → Option Tree) (cs : List Condition)
    → all (λ c. holds (find c) c exclude) cs ≡ true
    → all (λ c. holds (find c) c wildcard) cs ≡ true
unfolding all
all-holds find [] h = refl
all-holds find (c ∷ cs) h = ground (arith, holds-lenient (find c) c, all-holds find cs)

-- A record that a strict filter lets through, the same filter without strictness lets through.
pub matches-lenient :
    (uuid : ℕ → String) (r : StoredRecord Tree) (cs : List Condition)
    → matches uuid r (record { conditions = cs; strict = true }) ≡ true
    → matches uuid r (record { conditions = cs; strict = false }) ≡ true
unfolding matches
matches-lenient uuid r cs h = all-holds (λ c. address r.payload (envelope uuid r) c.path) cs h

abbrev pub alternatives : List String → List Term → Condition
alternatives path values = record { path = path; negated = false; values = values }

-- `field=` followed by literals only
abbrev pub IsLiteral : List Term → Type 0
IsLiteral values = any is_null_term values ≡ false

not-null_alone : (values : List Term) → IsLiteral values → is_null_alone values ≡ false
unfolding any
not-null_alone [] h = refl
not-null_alone (null_term ∷ []) h = ground arith
not-null_alone (null_term ∷ b ∷ rest) h = refl
not-null_alone (literal s ∷ rest) h = refl

found-append :
    (actual : Option Tree) (xs ys : List Term)
    → found actual (xs ++ ys) ≡ (found actual xs || found actual ys)
found-append none xs ys = refl
found-append (some t) xs ys = any-append (contains_term t) xs ys

-- Literals inside one flag that does not negate are alternatives: a record passes them together
-- exactly when it passes some of them, whatever is made of a field that it lacks.
pub holds-alternatives :
    (actual : Option Tree) (path : List String) (xs ys : List Term) (policy : Absent)
    → IsLiteral xs
    → IsLiteral ys
    → holds actual (alternatives path (xs ++ ys)) policy
      ≡ (holds actual (alternatives path xs) policy || holds actual (alternatives path ys) policy)
unfolding holds
holds-alternatives actual path xs ys policy hx hy =
    let both = any-append is_null_term xs ys in
    let neither : IsLiteral (xs ++ ys) = both ∙ (rw (hx, hy) refl) in
    rw
      (
        not-null_alone xs hx,
        not-null_alone ys hy,
        not-null_alone (xs ++ ys) neither,
        hx,
        hy,
        neither,
      )
      (ground (arith, found-append actual xs ys))

-- On a field that is present, the negation of a flag turns its answer over.
pub holds-negated :
    (t : Tree) (path : List String) (values : List Term) (policy : Absent)
    → is_missing (some t) ≡ false
    → holds (some t) (record { path = path; negated = true; values = values }) policy
      ≡ not (holds (some t) (record { path = path; negated = false; values = values }) policy)
unfolding holds
holds-negated t path values policy present = ground arith
