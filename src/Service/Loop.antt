-- ===== src/Service/Loop.antt =====
-- The state of the loop of `serve_until` in crates/yams-service/src/service.rs, and the steps that
-- change it.
pub mod Invariant
pub mod Steps
use yams.Prelude.{
  ℕ, zero, suc, ◌+◌, ◌-◌, ◌*◌, Bool, true, false, not, Option, none, some, List, [], ◌∷◌, ◌++◌, ltb,
  leb, ◌==◌, if◌then◌else◌, length,
}
use yams.Protocol.Errors.{ErrorKind}
use yams.Service.Admission.{
  AdmissionPoll, incomplete, failed, expired, complete, PendingAdmission, PollInput,
}

abbrev pub max_active_requests : ℕ
max_active_requests = 8

abbrev pub max_pending_admissions : ℕ
max_pending_admissions = 64

-- Times are in milliseconds: `ADMISSION_TIMEOUT`, and the drain of thirty seconds.
abbrev pub request_frame_deadline : ℕ
request_frame_deadline = 2000

abbrev pub drain_limit : ℕ
drain_limit = 30000

pub record LoopStats : Type 0 where
  pub accepted : ℕ
  pub rejected : ℕ
  pub completed : ℕ
  pub workers_stuck : Bool

-- The codes of a framed rejection.
pub data Refusal : Type 0 where
  invalid_request busy : Refusal

-- What the loop does to a connection, and the closing of the admission.
pub data Event (Request : Type 0) : Type 0 where
  closing : Event Request
  started : ℕ → Request → Event Request
  refused : ℕ → Refusal → Event Request

-- The loop's variables, the shutdown token, the looks at it that are still to come (whether a
-- request of another thread is there first), and what has happened so far.
pub record Loop (Request : Type 0) : Type 0 where
  pub active : ℕ
  pub pending : List PendingAdmission
  pub stats : LoopStats
  pub shutdown_at : Option ℕ
  pub idle_since : ℕ
  pub progressed : Bool
  pub admission_closed : Bool
  pub looks : List Bool
  pub events : List (Event Request)

pub data Accepting : Type 0 where
  none_waiting : Accepting
  accept_failed : ErrorKind → Accepting
  -- the stream, the time, whether the peer is valid, whether it can be made nonblocking, its poll
  accepted_stream : ℕ → ℕ → Bool → Option ErrorKind → PollInput → Accepting

pub record Round : Type 0 where
  pub done : ℕ
  pub now : ℕ
  pub polls : List PollInput
  pub accepting : Accepting
  pub idle_now : ℕ
  pub wait_failed : Option ErrorKind

-- Does a part of a round leave it, by `continue 'service`?
pub data Flow : Type 0 where
  goes_on leaves : Flow

-- How a round ends: the loop goes on, breaks, or returns an error.
pub data Next : Type 0 where
  continues breaks : Next
  returns_error : ErrorKind → Next

abbrev pub is_over : Option ℕ → ℕ → Bool
is_over none idle = false
is_over (some timeout) idle = leb timeout idle

-- `shutdown_at.get_or_insert(now)`
abbrev pub stop_at : Option ℕ → ℕ → ℕ
stop_at none now = now
stop_at (some at) now = at

module _ {Request : Type 0} where
  abbrev pub happens : Event Request → Loop Request → Loop Request
  happens event s = record s { events = s.events ++ event ∷ [] }

  abbrev pub add_rejected : ℕ → Loop Request → Loop Request
  add_rejected n s = record s { stats = record s.stats { rejected = s.stats.rejected + n } }

  -- `ShutdownToken::request`
  unfoldable pub request_shutdown : Loop Request → Loop Request
  request_shutdown s = happens closing (record s { admission_closed = true })

  -- A look at the token: `requested` or `try_reserve_execution`. Another thread may be first.
  unfoldable pub look : Loop Request → Loop Request
  unfolding request_shutdown
  look s = elim s.looks [
    | [] ↦ s
    | first ∷ later ↦
        let s' = record s { looks = later } in if first then request_shutdown s' else s'
  ]

  -- `reject_bounded` and the counting of it
  unfoldable pub reject : ℕ → Refusal → Loop Request → Loop Request
  reject stream refusal s =
      happens (refused stream refusal) (add_rejected 1 (record s { progressed = true }))

  -- `spawn_execution` and the counting of it
  unfoldable pub spawn : ℕ → Request → Loop Request → Loop Request
  spawn stream request s =
      happens (started stream request) (record s { active = s.active + 1; progressed = true })

  -- A complete request: execute it, refuse it as busy, or, if the token closes first, drop it and
  -- start the next round.
  unfoldable pub admit : ℕ → Request → Loop Request → Flow × Loop Request
  unfolding look reject spawn
  admit stream request s =
      let s' = look s in
      if not (ltb s.active max_active_requests)
      then (goes_on, reject stream busy s)
      else if s'.admission_closed
      then (leaves, add_rejected 1 s')
      else (goes_on, spawn stream request s')

  -- The `match` on an outcome that is not `Incomplete`.
  unfoldable pub settle : AdmissionPoll Request → ℕ → Loop Request → Flow × Loop Request
  unfolding admit
  settle incomplete stream s = (goes_on, s)
  settle (complete request) stream s = admit stream request s
  settle failed stream s = (goes_on, reject stream invalid_request s)
  settle expired stream s = (goes_on, reject stream invalid_request s)

  abbrev pub stays_pending : AdmissionPoll Request → Bool
  stays_pending incomplete = true
  stays_pending _ = false

  abbrev pub with_pending : List PendingAdmission → Loop Request → Loop Request
  with_pending pending s = record s { pending = pending }

  -- `done_rx.try_recv()` until there is none
  unfoldable pub drain_done : ℕ → Loop Request → Loop Request
  drain_done zero s = s
  drain_done (suc n) s = drain_done n (record s {
    active = s.active - 1;
    stats = record s.stats { completed = s.stats.completed + 1 };
    progressed = true;
  })

  -- The round of a loop that has been asked to stop.
  unfoldable pub shut_down : ℕ → Loop Request → Next × Loop Request
  shut_down now s =
      let at = stop_at s.shutdown_at now in
      let s' =
        with_pending [] (add_rejected (length s.pending) (record s { shutdown_at = some at })) in
      if s.active == 0
      then (breaks, s')
      else if leb drain_limit (now - at)
      then (breaks, record s' { stats = record s'.stats { workers_stuck = true } })
      else (continues, s')

  -- The loop before its first round.
  abbrev pub first_loop : ℕ → List Bool → Loop Request
  first_loop now looks = record {
    active = 0;
    pending = [];
    stats = record { accepted = 0; rejected = 0; completed = 0; workers_stuck = false };
    shutdown_at = none;
    idle_since = now;
    progressed = false;
    admission_closed = false;
    looks = looks;
    events = [];
  }
