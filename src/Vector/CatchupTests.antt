-- ===== src/Vector/CatchupTests.antt =====
-- Runs of the cooldown and of the handoff.
use equill.Base.{
  ℕ, ◌+◌, ◌*◌, ◌≤◌, ◌≡◌, refl, ◌↔◌, true, false, Option, none, some, ◌==◌, nat_eq, string_eq, arith,
  if◌then◌else◌,
}
use equill.Vector.Cooldown.{
  Cause, Cooldown, in_effect, wait, failures_after, record_failure, first_ms, longest_ms, wait_mono,
  record_failure-ends, record_failure-holds,
}
use equill.Vector.Handoff.{
  no_file, unreadable, holding, Directory, Stage, looking, clearing, creating, won, lost, advance,
  claim, starting_grace_ms, cut_short, consume,
}
use equill.Vector.Exclusion.{World, writes, Steps, done, next, claim-exclusive}
use equill.Vector.Takeover.{GivesWay, claim-wins}

abbrev cause : Cause
cause = record { endpoint = "http://index"; model_sha256 = "model"; config_sha256 = "1:1" }

abbrev new_model : Cause
new_model = record { endpoint = "http://index"; model_sha256 = "other"; config_sha256 = "1:2" }

abbrev often : Option Cooldown
often = some (record { cause = cause; failures = 7; eligible_unix_ms = 90000 })

waits_seconds : wait 3 ≡ 4000
unfolding wait
waits_seconds = refl

-- The longest wait is not the minute that the last cap allows.
waits_half_a_minute : wait 40 ≡ 32000
unfolding wait
waits_half_a_minute = refl

-- The failures of another model at the same endpoint count on.
counts_on : failures_after often new_model ≡ 8
unfolding failures_after
counts_on = refl

wait_mono_example :
    (first_ms ≤ wait 2) × (wait 2 ≤ wait 5) × (wait 5 ≤ longest_ms) × (wait 4 ≡ 2 * wait 3)
wait_mono_example = wait_mono 2 5 3 (omega arith) (omega arith) (omega arith)

record_failure-ends_example :
    in_effect (record_failure true often (some cause) 100000) (some cause) 160000 ≡ false
record_failure-ends_example =
    record_failure-ends often cause (some cause) 100000 160000 (omega arith)

record_failure-holds_example :
    (in_effect (record_failure true often (some cause) 100000) (some cause) 100500 ≡ true)
    × (in_effect (record_failure true often (some cause) 100000) (some new_model) 120000 ≡ false)
record_failure-holds_example =
    record_failure-holds often cause new_model 100000 100500 120000 (omega arith) (omega arith)
      (omega arith) refl

abbrev empty_directory : Directory
empty_directory = record { ticket = no_file; active = no_file }

abbrev old_claim : Directory
old_claim = record {
  ticket = holding (record { id = 9; issued_unix_ms = 1000; pid = none });
  active = no_file;
}

claims : (claim 10000 false 1 empty_directory).0 ≡ won 1
unfolding claim
claims = refl

claims_once : (claim 10001 false 2 (claim 10000 false 1 empty_directory).1).0 ≡ lost
unfolding claim
claims_once = refl

-- Two calls that find the same abandoned claim: the second clears the claim of the first, and both win.
abbrev first_cleared : Directory
first_cleared = (advance 10000 false 1 clearing old_claim).1

abbrev first_created : Stage × Directory
first_created = advance 10000 false 1 creating first_cleared

abbrev second_created : Stage × Directory
second_created = advance 10001 false 2 creating (advance 10001 false 2 clearing first_created.1).1

both_look : (advance 10000 false 1 looking old_claim).0 ≡ clearing
unfolding advance
both_look = refl

first_wins : first_created.0 ≡ won 1
unfolding advance
first_wins = refl

second_wins : second_created.0 ≡ won 2
unfolding advance
second_wins = refl

-- A call that stops as it creates its claim leaves a file that no later call gets past.
abbrev cut : Directory
cut = cut_short empty_directory

wedged : claim 1000000 false 4 cut ≡ (lost, cut)
unfolding claim
wedged = refl

-- A worker takes the file over, as it is.
takes_unreadable : consume 7 cut ≡ some (record { ticket = no_file; active = unreadable })
unfolding consume
takes_unreadable = refl

claim-wins_example : ((claim 10000 false 3 old_claim).0 ≡ won 3) ↔ GivesWay 10000 old_claim.ticket
claim-wins_example = claim-wins 10000 3 old_claim

abbrev start : World
start = record { now = 10000; directory = empty_directory; stages = λ x. looking }

abbrev step : World → ℕ → World
step w x = record {
  now = w.now;
  directory = (advance w.now false x (w.stages x) w.directory).1;
  stages = λ y. if y == x then (advance w.now false x (w.stages x) w.directory).0 else w.stages y;
}

-- both look, and the first goes on to create
abbrev ended : World
ended = step (step (step (step start 1) 2) 1) 1

reached : Steps (start.now + starting_grace_ms) start ended
unfolding advance
reached = next start (step start 1) ended (writes start 1 false) (omega arith) (
    next (step start 1) (step (step start 1) 2) ended (writes (step start 1) 2 false) (omega arith)
      (next (step (step start 1) 2) (step (step (step start 1) 2) 1) ended
        (writes (step (step start 1) 2) 1 false) (omega arith)
        (next (step (step (step start 1) 2) 1) ended ended
          (writes (step (step (step start 1) 2) 1) 1 false) (omega arith) (done ended))))

one_won : ended.stages 1 ≡ won 1
unfolding advance
one_won = refl

claim-exclusive_example : ◌≡◌ {A = ℕ} 1 1
claim-exclusive_example =
    claim-exclusive start ended 1 1 1 1 refl (λ z. refl) reached one_won one_won
