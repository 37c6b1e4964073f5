-- ===== src/Lifecycle/Total.antt =====
-- src/record/lifecycle/graph.rs: the validation always returns; its map lookups never fail and its
-- loop over parents never runs out of fuel.
use equill.Base.{
  ℕ, String, ◌≡◌, ◌≢◌, refl, ap, inl, inr, Bool, true, false, not, Option, none, some, List, [],
  ◌∷◌, ◌==◌, ◌!=◌, ◌&&◌, nat_eq, string_eq, lookup, contains, filter, Elem, if◌then◌else◌,
}
use equill.Kernel.Error.{Error, invalid_record, panic, Result, ok, err, ◌>>=◌, ◌>>◌, refuse, ok_or}
use equill.Json.{Json}
use equill.Record.{StoredRecord, TypeDefinition}
use equill.Lifecycle.Rules.{key, require_key, linear_type, append_only_type}
use equill.Lifecycle.Append.{keys_differ}
use equill.Lifecycle.Graph.{
  index, load_all, add_definition, validate_edge, require_linear_key, shared_target, unique_keys,
  seen_key, see_key, counted, checked_before, check_linear_record, check_if_linear, linear_loop,
}
use equill.Lifecycle.Ledger.{Rows}

-- the operation does not panic
abbrev pub IsCalm : {A : Type 0} → Result A → Type 0
IsCalm m = m ≢ err panic

err_same :
    {A B : Type 0} (e : Error)
    → ◌≡◌ {A = Result B} (err e) (err panic)
    → ◌≡◌ {A = Result A} (err e) (err panic)
err_same e h = let same : (e ≡ panic) = cc in ap err same

pub IsCalm-bind :
    {A B : Type 0} (m : Result A) (f : A → Result B)
    → IsCalm m
    → ((a : A) → m ≡ ok a → IsCalm (f a))
    → IsCalm (m >>= f)
IsCalm-bind (ok a) f c k = k a refl
IsCalm-bind (err e) f c k = λ h. c (err_same e h)

pub IsCalm-refuse : (b : Bool) (s : String) → IsCalm (refuse b (invalid_record s))
IsCalm-refuse true s = λ h. cc
IsCalm-refuse false s = λ h. cc

pub IsCalm-then :
    (b : Bool) (s : String) (rest : Result (Unit {0}))
    → IsCalm rest
    → IsCalm (refuse b (invalid_record s) >> rest)
IsCalm-then true s rest c = λ h. cc
IsCalm-then false s rest c = c

pub IsCalm-ok_or : {A : Type 0} (o : Option A) (s : String) → IsCalm (ok_or o (invalid_record s))
IsCalm-ok_or none s = λ h. cc
IsCalm-ok_or (some a) s = λ h. cc

pub IsCalm-index : {A : Type 0} (o : Option A) (a : A) → o ≡ some a → IsCalm (index o)
IsCalm-index none a h = cc
IsCalm-index (some b) a h = λ h. cc

module _ (j : Json) (load : String → Result (TypeDefinition j.Value)) where
  open j use {Value}

  abbrev Definitions : Type 0
  Definitions = List (String × TypeDefinition Value)

  add_definition-IsCalm :
      (name : String) (m : Definitions) (o : Option (TypeDefinition Value))
      → IsCalm (load name)
      → IsCalm (add_definition j load name m o)
  unfolding add_definition
  add_definition-IsCalm name m none c = IsCalm-bind (load name) _ c (λ d e h. cc)
  add_definition-IsCalm name m (some d) c = λ h. cc

  pub load_all-IsCalm :
      (m : Definitions) (rs : Rows j)
      → ((name : String) → IsCalm (load name))
      → IsCalm (load_all j load m rs)
  unfolding load_all
  load_all-IsCalm m [] c = λ h. cc
  load_all-IsCalm m (r ∷ rs) c =
      IsCalm-bind (add_definition j load r.type_name m (lookup r.type_name m)) _
        (add_definition-IsCalm r.type_name m (lookup r.type_name m) (c r.type_name))
        (λ next _. load_all-IsCalm next rs c)

  -- every record's type has a definition
  abbrev pub Covers : Definitions → Rows j → Type 0
  Covers m rs =
      (r : StoredRecord Value)
      → Elem r rs
      → (d : TypeDefinition Value) × (lookup r.type_name m ≡ some d)

  pub validate_edge-IsCalm :
      (r : StoredRecord Value) (o : Option (StoredRecord Value)) (d : TypeDefinition Value)
      → IsCalm (validate_edge j r o d)
  unfolding validate_edge
  validate_edge-IsCalm r none d = λ h. cc
  validate_edge-IsCalm r (some t) d = IsCalm-then (r.id == t.id) _ _ (
      IsCalm-then (append_only_type j d) _ _ (
        IsCalm-then (r.namespace != t.namespace) _ _ (
          IsCalm-then
            (r.type_name != t.type_name
              && not (contains d.lifecycle.allowed_predecessor_types t.type_name))
            _ _ (IsCalm-refuse (linear_type j d && keys_differ j (key j r d) (key j t d)) _))))

  pub require_linear_key-IsCalm :
      (r : StoredRecord Value) (d : TypeDefinition Value) (b : Bool)
      → IsCalm (require_linear_key j r d b)
  unfolding require_key
  require_linear_key-IsCalm r d false = λ h. cc
  require_linear_key-IsCalm r d true =
      IsCalm-bind (require_key j r d) _ (IsCalm-ok_or (key j r d) _) (λ _ _ h. cc)

  unique_keys-IsCalm :
      (d : TypeDefinition Value) (keys : List String) (rs : Rows j)
      → IsCalm (unique_keys j d keys rs)
  unfolding unique_keys
  unique_keys-IsCalm d keys [] = λ h. cc
  unique_keys-IsCalm d keys (r ∷ rs) =
      IsCalm-then (seen_key j keys (key j r d)) _ _
        (unique_keys-IsCalm d (see_key j (key j r d) keys) rs)

  IsCalm-if : (b : Bool) (m : Result (Unit {0})) → IsCalm m → IsCalm (if b then ok tt else m)
  IsCalm-if true m c = λ h. cc
  IsCalm-if false m c = c

  check_if_linear-IsCalm :
      (rs : Rows j) (ch : List ℕ) (checked : List (String × String)) (r : StoredRecord Value)
      (d : TypeDefinition Value) (b : Bool)
      → IsCalm (check_if_linear j rs ch checked r d b)
  unfolding check_linear_record
  check_if_linear-IsCalm rs ch checked r d false = λ h. cc
  check_if_linear-IsCalm rs ch checked r d true =
      IsCalm-bind (check_linear_record j rs ch checked r d) _
        (IsCalm-then (shared_target j ch r.supersedes) _ _ (
          IsCalm-if (checked_before j checked r) _
            (unique_keys-IsCalm d [] (filter (counted j ch r d) rs))))
        (λ _ _ h. cc)

  pub linear_loop-IsCalm :
      (all : Rows j) (m : Definitions) (ch : List ℕ) (checked : List (String × String))
      (rs : Rows j)
      → Covers m rs
      → IsCalm (linear_loop j all m ch checked rs)
  unfolding linear_loop
  linear_loop-IsCalm all m ch checked [] covers = λ h. cc
  linear_loop-IsCalm all m ch checked (r ∷ rs) covers =
      let (d, found) = covers r (inl refl) in
      IsCalm-bind (index (lookup r.type_name m)) _ (IsCalm-index _ d found) (λ d' _.
        IsCalm-bind (check_if_linear j all ch checked r d' (linear_type j d')) _
          (check_if_linear-IsCalm all ch checked r d' (linear_type j d'))
          (λ checked' _. linear_loop-IsCalm all m ch checked' rs (λ x p. covers x (inr p))))
