-- ===== src/Service/Serve.antt =====
-- The loop of `serve_until` in crates/yams-service/src/service.rs, one round at a time. What the
-- world answers in a round is its input: completions, the clock, reads, and the requests of other
-- threads for a shutdown, each of which comes before one of the loop's looks at the token.
pub mod Keeps
pub mod Rounds
pub mod Runs
mod Tests
use yams.Prelude.{
  ℕ, zero, suc, ◌+◌, ◌-◌, ◌*◌, Bool, true, false, not, ◌&&◌, ◌||◌, Option, none, some, List, [],
  ◌∷◌, ◌++◌, ltb, leb, ◌==◌, if◌then◌else◌, length, is_empty, Result, ok, err,
}
use yams.Protocol.Message.{max_request_bytes}
use yams.Protocol.Errors.{ErrorKind}
use yams.Protocol.Frame.{Bytes, FrameReader, new}
use yams.Service.Admission.{
  AdmissionPoll, incomplete, failed, expired, complete, PendingAdmission, PollInput,
  poll_live_admission,
}
use yams.Service.Loop.{
  max_active_requests, max_pending_admissions, request_frame_deadline, LoopStats, invalid_request,
  busy, Event, Loop, Accepting, none_waiting, accept_failed, accepted_stream, Round, Flow, goes_on,
  leaves, Next, continues, breaks, returns_error, request_shutdown, look, reject, settle,
  stays_pending, with_pending, add_rejected, drain_done, shut_down, is_over,
}

abbrev pub first_input : List PollInput → PollInput
first_input [] = record { before = 0; reads = []; after = 0 }
first_input (input ∷ inputs) = input

abbrev pub later_inputs : List PollInput → List PollInput
later_inputs [] = []
later_inputs (input ∷ inputs) = inputs

abbrev pub new_admission : ℕ → ℕ → PendingAdmission
unfolding new
new_admission stream accepted_at = record {
  stream = stream;
  reader = new max_request_bytes;
  expires_at = accepted_at + request_frame_deadline;
}

module _ {Request : Type 0} where
  -- Behind a full list, the oldest admission makes place.
  pub push_full : List PendingAdmission → PendingAdmission → Loop Request → Loop Request
  unfolding reject
  push_full [] admission s = s
  push_full (oldest ∷ others) admission s =
      with_pending (others ++ admission ∷ []) (reject oldest.stream busy s)

  pub push_pending : PendingAdmission → Loop Request → Loop Request
  unfolding push_full
  push_pending admission s =
      if length s.pending == max_pending_admissions
      then push_full s.pending admission s
      else with_pending (s.pending ++ admission ∷ []) s

  abbrev pub progress : Flow × Loop Request → Flow × Loop Request
  progress (goes_on, s) = (goes_on, record s { progressed = true })
  progress (leaves, s) = (leaves, s)

module _ {Request : Type 0} (decode_request : Bytes → Option Request) where
  -- The walk over the pending admissions: `kept` are those in front of `index`.
  pub scan :
      List PollInput
      → List PendingAdmission
      → List PendingAdmission
      → Loop Request
      → Flow × Loop Request
  unfolding look settle poll_live_admission
  scan inputs kept [] s = (goes_on, with_pending kept s)
  scan inputs kept (admission ∷ behind) s =
      let polled = poll_live_admission decode_request (first_input inputs) admission in
      let s' = look s in
      let settled = settle polled.0 admission.stream s' in
      elim s'.admission_closed [
        | true ↦ (leaves, with_pending (kept ++ polled.1 ∷ behind) s')
        | false ↦ elim (stays_pending polled.0) [
          | true ↦ scan (later_inputs inputs) (kept ++ polled.1 ∷ []) behind s'
          | false ↦ elim settled.0 [
            | goes_on ↦ scan (later_inputs inputs) kept behind settled.1
            | leaves ↦ (leaves, with_pending (kept ++ behind) settled.1)
          ]
        ]
      ]

  -- A connection of a valid peer: its first poll.
  pub take_in : ℕ → ℕ → PollInput → Loop Request → Flow × Loop Request
  unfolding look settle push_pending poll_live_admission
  take_in stream accepted_at input s =
      let polled = poll_live_admission decode_request input (new_admission stream accepted_at) in
      let s' = look s in
      if s'.admission_closed
      then (leaves, add_rejected 1 s')
      else if stays_pending polled.0
      then progress (goes_on, push_pending polled.1 s')
      else progress (settle polled.0 stream s')

  pub accept_one : Accepting → Loop Request → Result ErrorKind Flow × Loop Request
  unfolding take_in
  accept_one none_waiting s = (ok goes_on, s)
  accept_one (accept_failed kind) s = (err kind, s)
  accept_one (accepted_stream stream accepted_at valid blocking input) s =
      let s' = record s { stats = record s.stats { accepted = s.stats.accepted + 1 } } in
      if not valid then (ok goes_on, add_rejected 1 s') else elim blocking [
        | some kind ↦ (err kind, s')
        | none ↦ let taken = take_in stream accepted_at input s' in (ok taken.0, taken.1)
      ]

module _ {Request : Type 0} where
  abbrev pub idle_from : ℕ → Loop Request → Loop Request
  idle_from now s = record s { idle_since = now }

  -- With nothing active or pending for the idle time, the loop itself asks for the shutdown.
  pub check_idle : Option ℕ → ℕ → Loop Request → Flow × Loop Request
  unfolding request_shutdown
  check_idle idle_timeout now s =
      let s' = if s.progressed then idle_from now s else s in
      if s.active == 0 && is_empty s.pending
      then (if is_over idle_timeout (now - s'.idle_since)
          then (leaves, request_shutdown s')
          else (goes_on, s'))
      else (goes_on, idle_from now s)

  abbrev pub wait : Option ErrorKind → Loop Request → Next × Loop Request
  wait none s = (continues, s)
  wait (some kind) s = (if s.progressed then continues else returns_error kind, s)

  -- What a round does behind the accept.
  abbrev pub end_round :
      Option ℕ → Round → Result ErrorKind Flow × Loop Request → Next × Loop Request
  end_round idle_timeout input (err kind, s) = (returns_error kind, s)
  end_round idle_timeout input (ok leaves, s) = (continues, s)
  end_round idle_timeout input (ok goes_on, s) =
      let idle = check_idle idle_timeout input.idle_now s in
      elim idle.0 [ leaves ↦ (continues, idle.1) | goes_on ↦ wait input.wait_failed idle.1 ]

module _ {Request : Type 0} (decode_request : Bytes → Option Request)
    (idle_timeout : Option ℕ) where
  -- What a round does behind the scan.
  pub accept_round : Round → Flow × Loop Request → Next × Loop Request
  unfolding look accept_one check_idle
  accept_round input (leaves, s) = (continues, s)
  accept_round input (goes_on, s) =
      let s' = look s in
      if s'.admission_closed
      then (continues, s')
      else end_round idle_timeout input (accept_one decode_request input.accepting s')

  -- One round of `'service: loop`.
  unfoldable pub round : Round → Loop Request → Next × Loop Request
  unfolding look drain_done shut_down scan accept_round
  round input s =
      let s' = look (drain_done input.done (record s { progressed = false })) in
      if s'.admission_closed
      then shut_down input.now s'
      else accept_round input (scan decode_request input.polls [] s'.pending s')
