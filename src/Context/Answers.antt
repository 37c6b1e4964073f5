-- ===== src/Context/Answers.antt =====
-- src/context/retrieval.rs and its fallback.rs: what the candidates of an answer are, and that no
-- record is lost.
use Prim.Native.Nat.{Ordering}
use equill.Base.{
  ℕ, ◌+◌, String, ◌≡◌, refl, sym, ◌∙◌, inl, inr, Bool, true, false, Option, List, [], ◌∷◌, ◌==◌,
  nat_eq, map, any, All, arith, Bool-cases, total_of, sort_by, total_of-sort_by,
}
use equill.Json.{Json}
use equill.Json.Tree.{Tree}
use equill.Vector.Fusion.{Policy}
use equill.Context.Model.{Candidate, selector_mismatch, ExcludedCoordinate}
use equill.Context.Matching.{Row}
use equill.Context.Budget.{Candidates}
use equill.Context.Shares.{times, candidate_ids}
use equill.Context.Retrieval.{
  Numbers, Question, Sifted, Found, is_standing_in, is_preferred, exclusion, stood_in, drain_one,
  drain, keep_the_first_source_that_answered, fall_back,
}
use equill.Context.Sifting.{All-snoc, times-snoc, times-cons, share}

abbrev one_if : Bool → ℕ
one_if true = 1
one_if false = 0

times-total {ℓ} :
    {A : Type ℓ} (f : A → ℕ) (id : ℕ) (xs : List A)
    → times id (map f xs) ≡ total_of (λ a. one_if (f a == id)) xs
unfolding times
times-total f id [] = refl
times-total f id (x ∷ xs) =
    let ih = times-total f id xs in
    elim (Bool-cases (f x == id)) [ inl p ↦ rw p (omega arith) | inr p ↦ rw p (omega arith) ]

pub times-sort_by {ℓ} :
    {A : Type ℓ} (cmp : A → A → Ordering) (f : A → ℕ) (id : ℕ) (xs : List A)
    → times id (map f (sort_by cmp xs)) ≡ times id (map f xs)
times-sort_by cmp f id xs =
    times-total f id (sort_by cmp xs)
    ∙ total_of-sort_by cmp (λ a. one_if (f a == id)) xs
    ∙ sym (times-total f id xs)

module _ (j : Json) (lower : String → String) (parse : String → Option ℕ) where
  open j use {Value}

  module _ (arms : Value → Tree) (uuid : ℕ → String) (numbers : Numbers Value) where
    open numbers use {F, total_cmp}

    abbrev Rows : Type 0
    Rows = List (Row j lower parse)

    abbrev Asked : Type 0
    Asked = Question j lower parse arms uuid numbers

    abbrev Lists : Type 0
    Lists = Sifted j lower parse arms uuid numbers

    abbrev pub stands_in : Found → Candidate Value F → Bool
    stands_in found c = is_standing_in (stood_in j lower parse arms uuid numbers c found)

    abbrev pub prefers : Found → Candidate Value F → Bool
    prefers found c = is_preferred (stood_in j lower parse arms uuid numbers c found)

    abbrev counted : ℕ → Lists → ℕ
    counted id lists = share j lower parse arms uuid numbers id lists

    drain_one-share :
        (found : Found) (c : Candidate Value F) (before : Lists) (id : ℕ)
        → counted id (drain_one j lower parse arms uuid numbers found c before)
          ≡ counted id before + times id (c.stored.id ∷ [])
    drain_one-share found c (kept, excluded) id = elim (Bool-cases (stands_in found c)) [
      | inl p ↦
          let moved = exclusion j lower parse c.stored selector_mismatch in
          let last = times-snoc (λ (x : ExcludedCoordinate). x.id) id excluded moved in
          rw p (omega arith)
      | inr p ↦
          let last = times-snoc (λ (c : Candidate Value F). c.stored.id) id kept c in
          rw p (omega arith)
    ]

    drain-share :
        (found : Found) (cs : Candidates Value F) (before : Lists) (id : ℕ)
        → counted id (drain j lower parse arms uuid numbers found cs before)
          ≡ counted id before + times id (candidate_ids cs)
    unfolding drain
    drain-share found [] before id =
        let nothing : times id [] ≡ 0 = unfold times in refl in omega arith
    drain-share found (c ∷ cs) before id =
        let front = times-cons id c.stored.id (candidate_ids cs) in
        let one = drain_one-share found c before id in
        let later =
          drain-share found cs (drain_one j lower parse arms uuid numbers found c before) id in
        omega arith

    drain_one-All {κ} :
        (P : Candidate Value F → Type κ) (found : Found) (c : Candidate Value F) (before : Lists)
        → (stands_in found c ≡ false → P c)
        → All P before.0
        → All P (drain_one j lower parse arms uuid numbers found c before).0
    drain_one-All P found c (kept, excluded) h k = elim (Bool-cases (stands_in found c)) [
      | inl p ↦ rw p k
      | inr p ↦ rw p (All-snoc P kept c k (h p))
    ]

    -- the candidates that the drain keeps have what they have when they do not stand in
    pub drain-All {κ} :
        (P : Candidate Value F → Type κ) (found : Found) (cs : Candidates Value F) (before : Lists)
        → All (λ c. stands_in found c ≡ false → P c) cs
        → All P before.0
        → All P (drain j lower parse arms uuid numbers found cs before).0
    unfolding drain
    drain-All P found [] before h k = k
    drain-All P found (c ∷ cs) before h k =
        drain-All P found cs _ h.1 (drain_one-All P found c before h.0 k)

    All-weaken {κ} :
        (P : Candidate Value F → Type κ) (found : Found) (cs : Candidates Value F)
        → All P cs
        → All (λ c. stands_in found c ≡ false → P c) cs
    All-weaken P found [] h = tt
    All-weaken P found (c ∷ cs) h = (λ e. h.0, All-weaken P found cs h.1)

    pub stays :
        (found : Found) (cs : Candidates Value F)
        → All (λ c. stands_in found c ≡ false → stands_in found c ≡ false) cs
    stays found [] = tt
    stays found (c ∷ cs) = (λ e. e, stays found cs)

    pub fall_back-share :
        (q : Asked) (policy : Policy) (before : Lists) (id : ℕ)
        → counted id (fall_back j lower parse arms uuid numbers policy q.hits before)
          ≡ counted id before
    unfolding keep_the_first_source_that_answered
    fall_back-share q policy (cs, ex) id =
        let found : Found = record {
          vector = q.hits.vector;
          fts = q.hits.fts;
          preferred = policy.hybrid_order.0;
        } in
        elim (Bool-cases policy.hybrid_fill_remaining) [
          | inl p ↦ rw p refl
          | inr p ↦ elim (Bool-cases (any (prefers found) cs)) [
            | inl r ↦
                let moved = drain-share found cs ([], ex) id in
                let nothing : times id [] ≡ 0 = unfold times in refl in rw (p, r) (omega arith)
            | inr r ↦ rw (p, r) refl
          ]
        ]

    pub fall_back-All {κ} :
        (P : Candidate Value F → Type κ) (q : Asked) (policy : Policy) (before : Lists)
        → All P before.0
        → All P (fall_back j lower parse arms uuid numbers policy q.hits before).0
    unfolding keep_the_first_source_that_answered
    fall_back-All P q policy (cs, ex) h =
        let found : Found = record {
          vector = q.hits.vector;
          fts = q.hits.fts;
          preferred = policy.hybrid_order.0;
        } in
        elim (Bool-cases policy.hybrid_fill_remaining) [
          | inl p ↦ rw p h
          | inr p ↦ elim (Bool-cases (any (prefers found) cs)) [
            | inl r ↦ rw (p, r) (drain-All P found cs ([], ex) (All-weaken P found cs h) tt)
            | inr r ↦ rw (p, r) h
          ]
        ]
