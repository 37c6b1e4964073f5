-- ===== src/Vector/Takeover.antt =====
-- src/vector/catchup/handoff.rs: which claims give way.
use equill.Base.{
  ℕ, ◌+◌, ◌-◌, ◌<◌, ◌≡◌, refl, ◌↔◌, inl, inr, Bool, false, ◌&&◌, not, Option, none, some, nat_eq,
  arith, leb, Bool-cases,
}
use equill.Vector.Handoff.{
  starting_grace_ms, Claim, ClaimFile, no_file, unreadable, holding, read, Directory, within_grace,
  stale, lost, creating, won, check, advance, claim,
}

never : (b : Bool) → (b && false) ≡ false
never b = ground arith

past : (n i : ℕ) → i + starting_grace_ms < n → leb (n - i) starting_grace_ms ≡ false
past n i k = ground arith

past_of : (n i : ℕ) → leb (n - i) starting_grace_ms ≡ false → i + starting_grace_ms < n
past_of n i k = ground arith

free_lock : (now id : ℕ) (d : Directory) → (check now false (read d.active)) ≡ creating
free_lock now id d = idle (read d.active)
  where
    idle : (o : Option Claim) → check now false o ≡ creating
    idle none = refl
    idle (some c) = rw (never (not (stale now c))) refl

-- no file, or a claim that is older than the grace period; not a file that cannot be read
abbrev pub GivesWay : ℕ → ClaimFile → Type 0
GivesWay now no_file = Unit
GivesWay now unreadable = ⊥
GivesWay now (holding c) = c.issued_unix_ms + starting_grace_ms < now

lost-won : (id : ℕ) → lost ≡ won id → ⊥
lost-won id bad = cc

-- Where the drain lock is free, a call of `claim` that nobody interrupts wins exactly when there is
-- no claim's file or it holds a claim that is older than the grace period: an abandoned claim that
-- can be read gives way to the next writer, and a file that cannot be read never does.
pub claim-wins :
    (now id : ℕ) (d : Directory) → ((claim now false id d).0 ≡ won id) ↔ GivesWay now d.ticket
unfolding claim advance
claim-wins now id d = by_ticket d.ticket d.active
  where
    at : ClaimFile → ClaimFile → Directory
    at t a = record { ticket = t; active = a }

    by_ticket : (t a : ClaimFile) → ((claim now false id (at t a)).0 ≡ won id) ↔ GivesWay now t
    by_ticket no_file a = ((λ h. tt), λ h. rw (free_lock now id (at no_file a)) refl)
    by_ticket unreadable a =
        ((λ h. lost-won id (rw (free_lock now id (at unreadable a)) at h)), λ h. absurd h)
    by_ticket (holding c) a = (
      (λ h. elim (Bool-cases (within_grace now c)) [
        | inl p ↦ absurd (lost-won id (rw p at h))
        | inr p ↦ past_of now c.issued_unix_ms p
      ]),
      λ h.
          rw
            (
              past now c.issued_unix_ms h,
              never (not (stale now c)),
              free_lock now id (at (holding c) a),
            )
            refl,
    )
