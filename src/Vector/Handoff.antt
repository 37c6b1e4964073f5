-- ===== src/Vector/Handoff.antt =====
-- src/vector/catchup/handoff.rs: the claim that lets one writer start a worker. The directory holds
-- the claim and the marker of a worker's ownership; `working` is the probe of the drain lock, the
-- clock counts milliseconds, and an id is a number. A file may be there without a claim that can be
-- read from it. Creating a file and writing it are one step, or stop between the two; a call that
-- reads the file in between goes on and loses at its own creation, as one that reads it before does.
-- Other faults of the file system are left out.
use equill.Base.{ℕ, ◌-◌, Bool, ◌&&◌, not, Option, none, some, leb, ltb, if◌then◌else◌}

abbrev pub stale_after_ms : ℕ
stale_after_ms = 30000

abbrev pub starting_grace_ms : ℕ
starting_grace_ms = 5000

pub record Claim : Type 0 where
  pub id : ℕ
  pub issued_unix_ms : ℕ
  pub pid : Option ℕ

-- a file that may hold a claim
pub data ClaimFile : Type 0 where
  no_file unreadable : ClaimFile
  holding : Claim → ClaimFile

-- `read`, for which an unreadable claim is absent
abbrev pub read : ClaimFile → Option Claim
read no_file = none
read unreadable = none
read (holding c) = some c

-- the two files of the handoff
pub record Directory : Type 0 where
  pub ticket : ClaimFile
  pub active : ClaimFile

-- `saturating_sub`, which the subtraction of ℕ is
abbrev pub within_grace : ℕ → Claim → Bool
within_grace now c = leb (now - c.issued_unix_ms) starting_grace_ms

abbrev pub stale : ℕ → Claim → Bool
stale now c = ltb stale_after_ms (now - c.issued_unix_ms)

-- where a call of `claim` stands
pub data Stage : Type 0 where
  looking clearing checking creating : Stage
  won : ℕ → Stage
  lost : Stage

-- the guards on a claim that is there
abbrev pub look : ℕ → Bool → Option Claim → Stage
look now working none = checking
look now working (some c) =
    if within_grace now c then lost else if not (stale now c) && working then lost else clearing

-- the guard on a worker's ownership
abbrev pub check : ℕ → Bool → Option Claim → Stage
check now working none = creating
check now working (some owner) = if not (stale now owner) && working then lost else creating

abbrev pub cleared : Directory → Directory
cleared d = record { ticket = no_file; active = d.active }

-- `create_new`, which fails on any file that is there, and the writing of the claim
abbrev pub create_at : ℕ → ℕ → Directory → ClaimFile → Stage × Directory
create_at now id d (holding c) = (lost, d)
create_at now id d unreadable = (lost, d)
create_at now id d no_file = (
  won id,
  record {
    ticket = holding (record { id = id; issued_unix_ms = now; pid = none });
    active = d.active;
  },
)

-- what a call leaves that stops, or fails to write, between `create_new` and the end of `write_all`
abbrev pub cut_short : Directory → Directory
cut_short d = record { ticket = unreadable; active = d.active }

abbrev pub create_exclusively : ℕ → ℕ → Directory → Stage × Directory
create_exclusively now id d = create_at now id d d.ticket

-- one file operation of a call of `claim`, which creates a claim under the given id
unfoldable pub advance : ℕ → Bool → ℕ → Stage → Directory → Stage × Directory
advance now working id looking d = (look now working (read d.ticket), d)
advance now working id clearing d = (checking, cleared d)
advance now working id checking d = (check now working (read d.active), d)
advance now working id creating d = create_exclusively now id d
advance now working id (won k) d = (won k, d)
advance now working id lost d = (lost, d)

-- a call of `claim` that nobody interrupts: look, clear, check, create
unfoldable pub claim : ℕ → Bool → ℕ → Directory → Stage × Directory
unfolding advance
claim now working id d =
    let (s1, d1) = advance now working id looking d in
    let (s2, d2) = cleared_first s1 d1 in
    let (s3, d3) = advance now working id s2 d2 in advance now working id s3 d3
  where
    cleared_first : Stage → Directory → Stage × Directory
    cleared_first clearing e = advance now working id clearing e
    cleared_first s e = (s, e)

-- `consume`: the rename, which fails without a file, and `publish_pid`, which passes over a claim
-- that cannot be read
unfoldable pub consume : ℕ → Directory → Option Directory
consume pid d = taken d.ticket
  where
    taken : ClaimFile → Option Directory
    taken no_file = none
    taken unreadable = some (record { ticket = no_file; active = unreadable })
    taken (holding c) = some (record {
      ticket = no_file;
      active = holding (record { id = c.id; issued_unix_ms = c.issued_unix_ms; pid = some pid });
    })

-- `Ownership::drop`
abbrev pub finish : Directory → Directory
finish d = record { ticket = d.ticket; active = no_file }

abbrev pub release : Directory → Directory
release d = record { ticket = no_file; active = no_file }
