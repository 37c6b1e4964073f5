-- ===== src/Vector/Exclusion.antt =====
-- src/vector/catchup/handoff.rs: which writers may start a worker, when their steps mix.
use equill.Base.{
  ℕ, ◌+◌, ◌-◌, ◌≤◌, ◌≡◌, refl, sym, ap, ◌∙◌, inl, inr, Bool, true, false, ◌&&◌, not, Option, none,
  some, ◌==◌, nat_eq, arith, leb, Bool-cases, Option-cases, if◌then◌else◌,
}
use mathlib.Core.Path.{subst}
use mathlib.Core.Option.{some-injective}
use equill.Vector.Handoff.{
  starting_grace_ms, Claim, ClaimFile, no_file, unreadable, holding, read, Directory, within_grace,
  stale, cut_short, Stage, looking, clearing, checking, creating, won, lost, look, check, create_at,
  advance,
}

-- the clock, the directory, and where each writer stands
pub record World : Type 0 where
  pub now : ℕ
  pub directory : Directory
  pub stages : ℕ → Stage

abbrev moved : World → ℕ → Stage × Directory → World
moved w writer (s, d) = record {
  now = w.now;
  directory = d;
  stages = λ x. if x == writer then s else w.stages x;
}

-- a writer's next file operation, whatever the probe of the lock finds; the end of a writer between
-- the creation of its file and the writing of the claim; or the passing of time
pub data Step : World → World → Type 0 where
  writes :
      (w : World) (writer : ℕ) (working : Bool)
      → Step w (moved w writer (advance w.now working writer (w.stages writer) w.directory))
  stops :
      (w : World) (writer : ℕ)
      → w.stages writer ≡ creating
      → w.directory.ticket ≡ no_file
      → Step w (moved w writer (lost, cut_short w.directory))
  waits :
      (w : World) (later : ℕ)
      → w.now ≤ later
      → Step w (record { now = later; directory = w.directory; stages = w.stages })

-- steps that all end before the deadline
pub data Steps (deadline : ℕ) : World → World → Type 0 where
  done : (w : World) → Steps deadline w w
  next : (u v w : World) → Step u v → v.now ≤ deadline → Steps deadline v w → Steps deadline u w

abbrev is_won : Stage → Bool
is_won (won id) = true
is_won _ = false

abbrev is_clearing : Stage → Bool
is_clearing clearing = true
is_clearing _ = false

-- no writer clears; without a claim none has won, and with one it is young and its creator's alone
record IsExclusive (start : ℕ) (w : World) : Type 0 where
  pub started : start ≤ w.now
  pub none_clears : (x : ℕ) → is_clearing (w.stages x) ≡ false
  pub unclaimed : read w.directory.ticket ≡ none → (x : ℕ) → is_won (w.stages x) ≡ false
  pub claimed :
      (c : Claim)
      → read w.directory.ticket ≡ some c
      → (start ≤ c.issued_unix_ms) × ((x : ℕ) → is_won (w.stages x) ≡ true → x ≡ c.id)

-- a move that wins nothing and clears nothing leaves the directory as it is
quiet :
    (start : ℕ) (w : World) (writer : ℕ) (s : Stage)
    → is_clearing s ≡ false
    → (is_won s ≡ true → is_won (w.stages writer) ≡ true)
    → IsExclusive start w
    → IsExclusive start (moved w writer (s, w.directory))
quiet start w writer s calm kept e = record {
  started = e.started;
  none_clears =
      λ x. elim (Bool-cases (x == writer)) [ inl p ↦ rw p calm | inr p ↦ rw p (e.none_clears x) ];
  unclaimed = λ free x. elim (Bool-cases (x == writer)) [
    | inl p ↦ rw p (not_won s (e.unclaimed free writer) kept)
    | inr p ↦ rw p (e.unclaimed free x)
  ];
  claimed = λ c held. (
    (e.claimed c held).0,
    λ x wins. elim (Bool-cases (x == writer)) [
      | inl p ↦ winner c held x p (rw p at wins)
      | inr p ↦ (e.claimed c held).1 x (rw p at wins)
    ],
  );
}
  where
    not_won :
        (t : Stage)
        → is_won (w.stages writer) ≡ false
        → (is_won t ≡ true → is_won (w.stages writer) ≡ true)
        → is_won t ≡ false
    not_won t h k = elim (Bool-cases (is_won t)) [
      | inl p ↦ let bad = k p in absurd (ground arith)
      | inr p ↦ p
    ]

    winner :
        (c : Claim)
        → read w.directory.ticket ≡ some c
        → (x : ℕ) → (x == writer) ≡ true
        → is_won s ≡ true
        → x ≡ c.id
    winner c held x p wins = (nat_eq.beq_iff x writer).0 p ∙ (e.claimed c held).1 writer (kept wins)

look-quiet :
    (start : ℕ) (w : World) (working : Bool) (o : Option Claim)
    → read w.directory.ticket ≡ o
    → w.now ≤ start + starting_grace_ms
    → IsExclusive start w
    → (is_clearing (look w.now working o) ≡ false) × (is_won (look w.now working o) ≡ false)
look-quiet start w working none e soon is = (refl, refl)
look-quiet start w working (some c) e soon is =
    let young : within_grace w.now c ≡ true =
      recent w.now c.issued_unix_ms (is.claimed c e).0 soon in
    rw young (refl, refl)
  where
    recent :
        (n i : ℕ) → start ≤ i → n ≤ start + starting_grace_ms → leb (n - i) starting_grace_ms ≡ true
    recent n i a b = ground arith

check-quiet :
    (now : ℕ) (working : Bool) (o : Option Claim)
    → (is_clearing (check now working o) ≡ false) × (is_won (check now working o) ≡ false)
check-quiet now working none = (refl, refl)
check-quiet now working (some c) = elim (Bool-cases (not (stale now c) && working)) [
  | inl p ↦ rw p (refl, refl)
  | inr p ↦ rw p (refl, refl)
]

-- the file is there, and the writer has lost; or it is created, and the writer alone has won
creates :
    (start : ℕ) (w : World) (writer : ℕ) (file : ClaimFile)
    → w.directory.ticket ≡ file
    → IsExclusive start w
    → IsExclusive start (moved w writer (create_at w.now writer w.directory file))
creates start w writer (holding c) e is =
    quiet start w writer lost refl (λ wins. absurd (ground arith)) is
creates start w writer unreadable e is =
    quiet start w writer lost refl (λ wins. absurd (ground arith)) is
creates start w writer no_file e is = record {
  started = is.started;
  none_clears =
      λ x. elim (Bool-cases (x == writer)) [ inl p ↦ rw p refl | inr p ↦ rw p (is.none_clears x) ];
  unclaimed = λ bad. absurd (clash bad);
  claimed = λ c held. (
    issued c held,
    λ x wins. elim (Bool-cases (x == writer)) [
      | inl p ↦ (nat_eq.beq_iff x writer).0 p ∙ named c held
      | inr p ↦
          let idle = is.unclaimed (ap read e) x in
          let wins_too : is_won (w.stages x) ≡ true = rw p at wins in absurd (ground arith)
    ],
  );
}
  where
    fresh : Claim
    fresh = record { id = writer; issued_unix_ms = w.now; pid = none }

    issued : (c : Claim) → some fresh ≡ some c → start ≤ c.issued_unix_ms
    issued c held =
        subst (λ (d : Claim). start ≤ d.issued_unix_ms) (some-injective fresh c held) is.started

    named : (c : Claim) → some fresh ≡ some c → writer ≡ c.id
    named c held = ap (λ (d : Claim). d.id) (some-injective fresh c held)

    clash : some fresh ≡ none → ⊥
    clash bad = cc

-- a file without a claim is left behind, and nobody has won
cut_short-IsExclusive :
    (start : ℕ) (w : World) (writer : ℕ)
    → w.directory.ticket ≡ no_file
    → IsExclusive start w
    → IsExclusive start (moved w writer (lost, cut_short w.directory))
cut_short-IsExclusive start w writer e is = record {
  started = is.started;
  none_clears =
      λ x. elim (Bool-cases (x == writer)) [ inl p ↦ rw p refl | inr p ↦ rw p (is.none_clears x) ];
  unclaimed = λ free x. elim (Bool-cases (x == writer)) [
    | inl p ↦ rw p refl
    | inr p ↦ rw p (is.unclaimed (ap read e) x)
  ];
  claimed = λ c held. absurd (clash c held);
}
  where
    clash : (c : Claim) → none ≡ some c → ⊥
    clash c bad = cc

advances :
    (start : ℕ) (w : World) (writer : ℕ) (working : Bool) (s : Stage)
    → w.stages writer ≡ s
    → w.now ≤ start + starting_grace_ms
    → IsExclusive start w
    → IsExclusive start (moved w writer (advance w.now working writer s w.directory))
unfolding advance
advances start w writer working looking e soon is =
    let (calm, idle) = look-quiet start w working (read w.directory.ticket) refl soon is in
    quiet start w writer _ calm (λ wins. absurd (ground arith)) is
advances start w writer working clearing e soon is =
    let none_clears = is.none_clears writer in
    let bad : true ≡ false = ap is_clearing (sym e) ∙ none_clears in absurd (ground arith)
advances start w writer working checking e soon is =
    let (calm, idle) = check-quiet w.now working (read w.directory.active) in
    quiet start w writer _ calm (λ wins. absurd (ground arith)) is
advances start w writer working creating e soon is =
    creates start w writer w.directory.ticket refl is
advances start w writer working (won k) e soon is =
    quiet start w writer (won k) refl (λ wins. ap is_won e) is
advances start w writer working lost e soon is =
    quiet start w writer lost refl (λ wins. absurd (ground arith)) is

Step-IsExclusive :
    (start : ℕ) (u v : World)
    → Step u v
    → v.now ≤ start + starting_grace_ms
    → IsExclusive start u
    → IsExclusive start v
Step-IsExclusive start _ _ (writes u writer working) soon is =
    advances start u writer working (u.stages writer) refl soon is
Step-IsExclusive start _ _ (stops u writer stage free) soon is =
    cut_short-IsExclusive start u writer free is
Step-IsExclusive start _ _ (waits u later le) soon is = record {
  started = later_still u.now later is.started le;
  none_clears = is.none_clears;
  unclaimed = is.unclaimed;
  claimed = is.claimed;
}
  where
    later_still : (a b : ℕ) → start ≤ a → a ≤ b → start ≤ b
    later_still a b h k = omega arith

Steps-IsExclusive :
    (start : ℕ) (u v : World)
    → Steps (start + starting_grace_ms) u v
    → IsExclusive start u
    → IsExclusive start v
Steps-IsExclusive start _ _ (done u) is = is
Steps-IsExclusive start _ _ (next u v w one soon rest) is =
    Steps-IsExclusive start v w rest (Step-IsExclusive start u v one soon is)

only_one :
    (start : ℕ) (w : World) (x y : ℕ)
    → is_won (w.stages x) ≡ true
    → is_won (w.stages y) ≡ true
    → IsExclusive start w
    → x ≡ y
only_one start w x y a b is = elim (Option-cases (read w.directory.ticket)) [
  | inl free ↦ let idle = is.unclaimed free x in absurd (ground arith)
  | inr (c, held) ↦ (is.claimed c held).1 x a ∙ sym ((is.claimed c held).1 y b)
]

-- Of any number of writers that call `claim` where there is no claim yet, their file operations mixed
-- in any order, whatever their probes of the lock find and whichever of them stop as they create the
-- claim, at most one has won as long as the grace period runs and no worker takes the claim.
pub claim-exclusive :
    (u v : World) (x y i k : ℕ)
    → read u.directory.ticket ≡ none
    → ((z : ℕ) → u.stages z ≡ looking)
    → Steps (u.now + starting_grace_ms) u v
    → v.stages x ≡ won i
    → v.stages y ≡ won k
    → x ≡ y
claim-exclusive u v x y i k free fresh steps a b =
    only_one u.now v x y (ap is_won a) (ap is_won b) (
      Steps-IsExclusive u.now u v steps (record {
        started = at_once u.now;
        none_clears = λ z. ap is_clearing (fresh z);
        unclaimed = λ e z. ap is_won (fresh z);
        claimed = λ c held. absurd (clash c (sym free ∙ held));
      }))
  where
    at_once : (n : ℕ) → n ≤ n
    at_once n = omega arith

    clash : (c : Claim) → none ≡ some c → ⊥
    clash c bad = cc
