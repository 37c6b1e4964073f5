-- ===== src/Lifecycle/Calm.antt =====
-- src/record/lifecycle/graph.rs: `validate_graph` always returns.
use mathlib.Core.Path.{subst}
use equill.Base.{
  ℕ, suc, String, nat_eq, string_eq, ◌≡◌, ◌≢◌, refl, ap, ◌∙◌, inl, inr, Option, none, some, List,
  [], ◌∷◌, lookup, length, Elem, Unique, All, All_at, arith,
}
use equill.Kernel.Error.{invalid_record, panic, Result, ok, err, ok_or, >>=-eq-ok, ok_or-eq-ok}
use equill.Json.{Json}
use equill.Record.{StoredRecord, TypeDefinition}
use equill.Lifecycle.Rules.{linear_type, append_only_type}
use equill.Lifecycle.Graph.{
  index, load_all, add_definition, validate_edge, find_parent, require_linear_key, target_child,
  check_record, check_records, add_child, validate_graph, reject_cycles, validate_linear_graph,
}
use equill.Lifecycle.Describes.{ids}
use equill.Lifecycle.Lookup.{pairs}
use equill.Lifecycle.Ledger.{
  Rows, collect-pairs, lookup-pairs, add_definition_lem, load_all_lem, IsLoaded,
}
use equill.Lifecycle.Checks.{Passes, check_records-Passes}
use equill.Lifecycle.Fuel.{cycles-ne-panic}
use equill.Lifecycle.Valid.{absent-empty}
use equill.Lifecycle.Total.{
  IsCalm, IsCalm-bind, IsCalm-ok_or, IsCalm-index, IsCalm-refuse, Covers, load_all-IsCalm,
  validate_edge-IsCalm, require_linear_key-IsCalm, linear_loop-IsCalm,
}

module _ (j : Json) (load : String → Result (TypeDefinition j.Value)) where
  open j use {Value}

  load_all-Covers :
      (m n : List (String × TypeDefinition Value)) (rs : Rows j)
      → IsLoaded j load m
      → load_all j load m rs ≡ ok n
      → Covers j load n rs
  unfolding load_all
  load_all-Covers m n [] known h = λ r p. elim p [ ]
  load_all-Covers m n (x ∷ rs) known h =
      let (mid, step, rest) =
        >>=-eq-ok (add_definition j load x.type_name m (lookup x.type_name m))
          (λ s. load_all j load s rs) h in
      let (_, sound, (d, own)) = add_definition_lem j load x.type_name m mid known step in
      let (grow, _) = load_all_lem j load mid n rs sound rest in
      λ r p. elim p [
        | inl e ↦
            subst
              (λ (y : StoredRecord Value).
                (d : TypeDefinition Value) × (lookup y.type_name n ≡ some d))
              e (d, grow x.type_name d own)
        | inr q ↦ load_all-Covers mid n rs sound rest r q
      ]

  find_parent-IsCalm : (rs : Rows j) (o : Option ℕ) → IsCalm (find_parent j (pairs j rs) o)
  unfolding find_parent
  find_parent-IsCalm rs none = λ h. cc
  find_parent-IsCalm rs (some id) =
      IsCalm-bind (ok_or (lookup id (pairs j rs)) _) _ (IsCalm-ok_or _ _) (λ _ _ h. cc)

  find_parent-Elem :
      (rs : Rows j) (o : Option ℕ) (t : StoredRecord Value)
      → find_parent j (pairs j rs) o ≡ ok (some t)
      → Elem t rs
  unfolding find_parent
  find_parent-Elem rs none t h = cc
  find_parent-Elem rs (some id) t h =
      let (x, found, same) = >>=-eq-ok (ok_or (lookup id (pairs j rs)) _) _ h in
      let equal : x ≡ t = cc in
      subst (λ y. Elem y rs) equal (lookup-pairs j rs id x (ok_or-eq-ok _ _ found)).1

  target_child-IsCalm :
      (rs : Rows j) (m : List (String × TypeDefinition Value)) (o : Option (StoredRecord Value))
      → Covers j load m rs
      → ((t : StoredRecord Value) → o ≡ some t → Elem t rs)
      → IsCalm (target_child j m o)
  unfolding target_child
  target_child-IsCalm rs m none covers inside = λ h. cc
  target_child-IsCalm rs m (some t) covers inside =
      let (d, found) = covers t (inside t refl) in
      IsCalm-bind (index (lookup t.type_name m)) _ (IsCalm-index _ d found)
        (λ d' _. IsCalm-bind _ _ (IsCalm-refuse (append_only_type j d') _) (λ _ _ h. cc))

  check_record-IsCalm :
      (rs : Rows j) (m : List (String × TypeDefinition Value)) (r : StoredRecord Value)
      → Covers j load m rs
      → Elem r rs
      → IsCalm (check_record j (pairs j rs) m r)
  unfolding check_record
  check_record-IsCalm rs m r covers place =
      let (d, found) = covers r place in
      IsCalm-bind (index (lookup r.type_name m)) _ (IsCalm-index _ d found) (λ d' _.
        IsCalm-bind (find_parent j (pairs j rs) r.supersedes) _ (find_parent-IsCalm rs r.supersedes)
          (λ o from.
            IsCalm-bind (validate_edge j r o d') _ (validate_edge-IsCalm j load r o d') (λ _ _.
              IsCalm-bind (require_linear_key j r d' (linear_type j d')) _
                (require_linear_key-IsCalm j load r d' (linear_type j d'))
                (λ _ _.
                  target_child-IsCalm rs m o covers
                    (λ t e. find_parent-Elem rs r.supersedes t (from ∙ ap ok e))))))

  check_records-IsCalm :
      (rs more : Rows j) (m : List (String × TypeDefinition Value)) (ch : List ℕ)
      → Covers j load m rs
      → ((r : StoredRecord Value) → Elem r more → Elem r rs)
      → IsCalm (check_records j (pairs j rs) m ch more)
  unfolding check_records
  check_records-IsCalm rs [] m ch covers inside = λ h. cc
  check_records-IsCalm rs (r ∷ more) m ch covers inside =
      IsCalm-bind (check_record j (pairs j rs) m r) _
        (check_record-IsCalm rs m r covers (inside r (inl refl)))
        (λ o _. check_records-IsCalm rs more m (add_child j o ch) covers (λ x p. inside x (inr p)))

  Passes-IsClosed :
      (rs : Rows j) (m : List (String × TypeDefinition Value)) (r : StoredRecord Value)
      (o : Option ℕ) (p : ℕ)
      → check_record j (pairs j rs) m r ≡ ok o
      → r.supersedes ≡ some p
      → (t : StoredRecord Value) × (lookup p (pairs j rs) ≡ some t)
  unfolding check_record find_parent
  Passes-IsClosed rs m r o p h e =
      let (d, _, h1) = >>=-eq-ok (index (lookup r.type_name m)) _ h in
      let (x, from, _) = >>=-eq-ok (find_parent j (pairs j rs) r.supersedes) _ h1 in
      let from' = subst (λ s. find_parent j (pairs j rs) s ≡ ok x) e from in
      let (t, found, _) =
        >>=-eq-ok
          (ok_or (lookup p (pairs j rs)) (invalid_record "supersedes target is unknown: {id}")) _
          from' in
      (t, ok_or-eq-ok _ _ found)

  same_ids : (rs : Rows j) → length (ids j rs) ≡ length rs
  same_ids [] = refl
  same_ids (r ∷ rs) = ap suc (same_ids rs)

  closed_walks :
      (rs : Rows j) (m : List (String × TypeDefinition Value))
      → All (Passes j (pairs j rs) m) rs
      → IsCalm (reject_cycles j (suc (length rs)) (pairs j rs) rs)
  closed_walks rs m passes =
      cycles-ne-panic j rs rs (suc (length rs))
        (λ r place p e.
          Passes-IsClosed rs m r r.supersedes p (All_at (Passes j (pairs j rs) m) r rs passes place)
            e)
        (λ r p. p) (omega (arith, same_ids rs))

  -- The validation of a ledger with distinct ids returns, whatever the ledger holds, where loading a
  -- type does: each of its indexed maps holds every key that is read from it, and the walks from
  -- record to parent end within the fuel that they are given, one more than there are records.
  pub validate_graph-ne-panic :
      (rs : Rows j)
      → Unique (ids j rs)
      → ((name : String) → load name ≢ err panic)
      → validate_graph j load rs ≢ err panic
  unfolding validate_graph validate_linear_graph
  validate_graph-ne-panic rs u loads = rw (collect-pairs j rs u) (
      IsCalm-bind (load_all j load [] rs) _ (load_all-IsCalm j load [] rs loads) (λ m loaded.
        let covers = load_all-Covers [] m rs (λ q x k. absent-empty q x k) loaded in
        IsCalm-bind (check_records j (pairs j rs) m [] rs) _
          (check_records-IsCalm rs rs m [] covers (λ r p. p))
          (λ ch checked.
            let passes =
              (check_records-Passes j (pairs j rs) m [] ch rs
                (λ id s k. (lookup-pairs j rs id s k).0) checked).0 in
            IsCalm-bind (reject_cycles j (suc (length rs)) (pairs j rs) rs) _
              (closed_walks rs m passes) (λ _ _. linear_loop-IsCalm j load rs m ch [] rs covers))))
