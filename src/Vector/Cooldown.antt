-- ===== src/Vector/Cooldown.antt =====
-- src/vector/catchup/cooldown.rs: how long a failed catch-up holds the next one back. The clock is an
-- argument, in milliseconds, and the file that holds the cooldown is an option.
use native.Mathlib.Nat.{pow-le-pow_right, one-le-pow}
use equill.Base.{
  ℕ, zero, suc, ◌+◌, ◌-◌, ◌*◌, ◌^◌, ◌≤◌, ◌<◌, String, ◌≡◌, refl, inl, inr, Bool, true, false, ◌&&◌,
  Option, none, some, ◌==◌, string_eq, ltb, leb, arith, Bool-cases, if◌then◌else◌,
}

abbrev pub min : ℕ → ℕ → ℕ
min a b = if leb a b then a else b

abbrev pub first_ms : ℕ
first_ms = 1000

abbrev pub longest_ms : ℕ
longest_ms = 60000

-- `u32::MAX` and `u128::MAX`
abbrev pub max_failures : ℕ
max_failures = 4294967295

abbrev pub max_ms : ℕ
max_ms = 340282366920938463463374607431768211455

-- what `situation` reads of the store: where the work was sent and what would have done it
pub record Cause : Type 0 where
  pub endpoint : String
  pub model_sha256 : String
  pub config_sha256 : String

pub record Cooldown : Type 0 where
  pub cause : Cause
  pub failures : ℕ
  pub eligible_unix_ms : ℕ

abbrev pub same_cause : Cause → Cause → Bool
same_cause a b =
    a.endpoint == b.endpoint
    && (a.model_sha256 == b.model_sha256 && a.config_sha256 == b.config_sha256)

abbrev pub holds_back : Cooldown → ℕ → Cause → Bool
holds_back recorded now cause =
    if same_cause recorded.cause cause then ltb now recorded.eligible_unix_ms else false

unfoldable pub in_effect : Option Cooldown → Option Cause → ℕ → Bool
in_effect (some recorded) (some cause) now = holds_back recorded now cause
in_effect (some recorded) none now = false
in_effect none cause now = false

-- `read(store).filter(..).map_or(1, ..)`, with `saturating_add` on a u32
unfoldable pub failures_after : Option Cooldown → Cause → ℕ
failures_after none cause = 1
failures_after (some previous) cause =
    if previous.cause.endpoint == cause.endpoint
    then min (previous.failures + 1) max_failures
    else 1

-- the wait after so many failures; the product is far below the largest u128
unfoldable pub wait : ℕ → ℕ
wait failures = min (first_ms * 2 ^ (min failures 6 - 1)) longest_ms

abbrev pub cooldown_at : ℕ → ℕ → Cause → Cooldown
cooldown_at failures now cause = record {
  cause = cause;
  failures = failures;
  eligible_unix_ms = min (now + wait failures) max_ms;
}

-- what the file holds after a failure; a write that fails leaves the file as it is
unfoldable pub record_failure : Bool → Option Cooldown → Option Cause → ℕ → Option Cooldown
unfolding failures_after wait
record_failure written before none now = before
record_failure true before (some cause) now =
    some (cooldown_at (failures_after before cause) now cause)
record_failure false before (some cause) now = before

shift-le : (failures : ℕ) → min failures 6 - 1 ≤ 5
shift-le failures = ground arith

shift_mono : (a b : ℕ) → a ≤ b → min a 6 - 1 ≤ min b 6 - 1
shift_mono a b h = ground arith

doubled_mono : (i j : ℕ) → i ≤ j → 2 ^ i ≤ 2 ^ j
doubled_mono i j h = pow-le-pow_right (omega arith) h

capped_mono : (a b : ℕ) → a ≤ b → min (first_ms * a) longest_ms ≤ min (first_ms * b) longest_ms
capped_mono a b h = ground arith

at_least : (a : ℕ) → 1 ≤ a → first_ms ≤ min (first_ms * a) longest_ms
at_least a h = ground arith

at_most : (a : ℕ) → min (first_ms * a) longest_ms ≤ longest_ms
at_most a = ground arith

pub wait-bounds : (failures : ℕ) → (first_ms ≤ wait failures) × (wait failures ≤ longest_ms)
unfolding wait
wait-bounds failures = (
  at_least (2 ^ (min failures 6 - 1)) (one-le-pow (min failures 6 - 1) 2 (omega arith)),
  at_most (2 ^ (min failures 6 - 1)),
)

wait-doubles : (k : ℕ) → 1 ≤ k → k ≤ 5 → wait (k + 1) ≡ 2 * wait k
unfolding wait
wait-doubles zero a b = absurd (omega arith)
wait-doubles (suc zero) a b = refl
wait-doubles (suc (suc zero)) a b = refl
wait-doubles (suc (suc (suc zero))) a b = refl
wait-doubles (suc (suc (suc (suc zero)))) a b = refl
wait-doubles (suc (suc (suc (suc (suc zero))))) a b = refl
wait-doubles (suc (suc (suc (suc (suc (suc k)))))) a b = absurd (omega arith)

-- A store that has failed more often waits no less: the wait grows with the failures and stays
-- between a second and a minute; and from the first failure to the sixth each wait is twice the one
-- before.
pub wait_mono :
    (a b k : ℕ)
    → a ≤ b
    → 1 ≤ k
    → k ≤ 5
    → (first_ms ≤ wait a) × (wait a ≤ wait b) × (wait b ≤ longest_ms) × (wait (k + 1) ≡ 2 * wait k)
wait_mono a b k h some_failure few =
    ((wait-bounds a).0, grows, (wait-bounds b).1, wait-doubles k some_failure few)
  where
    grows : wait a ≤ wait b
    grows = unfold wait in capped_mono _ _ (doubled_mono _ _ (shift_mono a b h))

same_cause_refl : (c : Cause) → same_cause c c ≡ true
same_cause_refl c = ground (
  arith,
  string_eq.beq_iff c.endpoint c.endpoint,
  string_eq.beq_iff c.model_sha256 c.model_sha256,
  string_eq.beq_iff c.config_sha256 c.config_sha256,
)

expired :
    (cause other : Cause) (failures now later : ℕ)
    → now + longest_ms ≤ later
    → holds_back (cooldown_at failures now cause) later other ≡ false
expired cause other failures now later h =
    let (_, short) = wait-bounds failures in
    let reached : ltb later (min (now + wait failures) max_ms) ≡ false =
      not_before (wait failures) now later short h in
    elim (Bool-cases (same_cause cause other)) [ inl p ↦ rw p reached | inr p ↦ rw p refl ]
  where
    not_before :
        (w n l : ℕ) → w ≤ longest_ms → n + longest_ms ≤ l → ltb l (min (n + w) max_ms) ≡ false
    not_before w n l a b = ground arith

-- A cooldown ends: a minute after a failure was recorded nothing holds a worker back, whatever was
-- recorded before, however often it failed, and whatever the store's situation is by then.
pub record_failure-ends :
    (before : Option Cooldown) (cause : Cause) (other : Option Cause) (now later : ℕ)
    → now + longest_ms ≤ later
    → in_effect (record_failure true before (some cause) now) other later ≡ false
unfolding in_effect record_failure
record_failure-ends before cause none now later h = refl
record_failure-ends before cause (some other) now later h =
    expired cause other (failures_after before cause) now later h

started :
    (w now later : ℕ)
    → first_ms ≤ w
    → now ≤ later
    → later < now + first_ms
    → later < max_ms
    → ltb later (min (now + w) max_ms) ≡ true
started w now later a b c d = ground arith

-- A failure that was recorded holds the same attempt back for at least a second, as long as the clock
-- is below its end, and never, whatever the clock says, an attempt whose endpoint, model or
-- configuration is another.
pub record_failure-holds :
    (before : Option Cooldown) (cause other : Cause) (now later anytime : ℕ)
    → now ≤ later
    → later < now + first_ms
    → later < max_ms
    → same_cause cause other ≡ false
    → (in_effect (record_failure true before (some cause) now) (some cause) later ≡ true)
      × (in_effect (record_failure true before (some cause) now) (some other) anytime ≡ false)
unfolding in_effect record_failure
record_failure-holds before cause other now later anytime a b c different = (
  rw (same_cause_refl cause)
      (started _ now later (wait-bounds (failures_after before cause)).0 a b c),
  rw different refl,
)
