-- ===== src/Kernel/Error.antt =====
-- src/kernel/error.rs: the error of every operation, and `Result`. An error's text is kept as its
-- format string: the values that the source formats into it are left out.
use equill.Base.{String, ◌≡◌, ◌⊎◌, inl, inr, refl, Bool, true, false, Option, none, some}

pub data Error : Type 0 where
  audit invalid_record invalid_settings invalid_schema invalid_type : String → Error
  compact command_rejected context filter governance integrity import : String → Error
  memory_defense projection schema_conflict post_commit read_only_actor : String → Error
  cli io json : Error
  invalid_actor invalid_owner invalid_namespace missing_actor : Error
  not_initialized permission_denied store_exists store_mismatch : Error
  -- no variant of the source's type: an index out of range, which panics
  panic : Error

pub data Result {ℓ} (T : Type ℓ) : Type ℓ where
  err : Error → Result T
  ok : T → Result T

infixl 5 ◌>>=◌ ◌>>◌
abbrev pub ◌>>=◌ {ℓ κ} : {T : Type ℓ} {S : Type κ} → Result T → (T → Result S) → Result S
err e >>= next = err e
ok t >>= next = next t

abbrev pub ◌>>◌ {ℓ} : {S : Type ℓ} → Result (Unit {0}) → Result S → Result S
first >> second = first >>= λ _. second

-- `if refused { return Err(e); }`
abbrev pub refuse : Bool → Error → Result (Unit {0})
refuse true e = err e
refuse false e = ok tt

-- `o.ok_or(e)`
abbrev pub ok_or {ℓ} : {A : Type ℓ} → Option A → Error → Result A
ok_or (some a) e = ok a
ok_or none e = err e

module _ {ℓ κ} {A : Type ℓ} {B : Type κ} where
  -- A chain that succeeds has succeeded at its first step.
  pub >>=-eq-ok :
      (m : Result A) (next : A → Result B) {b : B}
      → (m >>= next) ≡ ok b
      → (a : A) × (m ≡ ok a) × (next a ≡ ok b)
  >>=-eq-ok (err e) next h = cc
  >>=-eq-ok (ok a) next h = (a, refl, h)

pub Result-cases {ℓ} :
    {A : Type ℓ} (m : Result A) → ((a : A) × (m ≡ ok a)) ⊎ ((e : Error) × (m ≡ err e))
Result-cases (ok a) = inl (a, refl)
Result-cases (err e) = inr (e, refl)

pub ok-injective {ℓ} : {A : Type ℓ} {a b : A} → ok a ≡ ok b → a ≡ b
ok-injective h = cc

pub >>-eq-ok {ℓ} :
    {B : Type ℓ} (m : Result (Unit {0})) (k : Result B) {b : B}
    → (m >> k) ≡ ok b
    → (m ≡ ok tt) × (k ≡ ok b)
>>-eq-ok (ok tt) k h = (refl, h)
>>-eq-ok (err e) k h = cc

pub refuse-eq-ok : (b : Bool) (e : Error) → refuse b e ≡ ok tt → b ≡ false
refuse-eq-ok true e h = cc
refuse-eq-ok false e h = refl

pub ok_or-eq-ok {ℓ} :
    {A : Type ℓ} (o : Option A) (e : Error) {a : A} → ok_or o e ≡ ok a → o ≡ some a
ok_or-eq-ok none e h = cc
ok_or-eq-ok (some a) e h = cc
