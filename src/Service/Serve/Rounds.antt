-- ===== src/Service/Serve/Rounds.antt =====
-- Whole rounds of the loop of crates/yams-service/src/service.rs, and runs of them.
use yams.Prelude.{
  ℕ, suc, ◌+◌, ◌-◌, ◌≤◌, ◌≡◌, refl, ◌∙◌, ◌⊎◌, inl, inr, true, false, not, ◌&&◌, Option, none, some,
  [], arith, leb, ◌==◌, if◌then◌else◌, length, is_empty, Bool-cases, if_lem, ==→eq, Result, ok, err,
}
use yams.Protocol.Errors.{ErrorKind}
use yams.Protocol.Frame.{Bytes}
use yams.Service.Loop.{
  Loop, Accepting, none_waiting, accept_failed, accepted_stream, Round, Flow, goes_on, leaves, Next,
  continues, breaks, returns_error, request_shutdown, look, drain_done, shut_down, drain_limit,
  stop_at, is_over,
}
use yams.Service.Loop.Invariant.{starts, Keeps, request_shutdown-Keeps}
use yams.Service.Loop.Steps.{
  look-Keeps, look-pending, add_rejected-Keeps, drain_done-Keeps, drain_done-pending,
}
use yams.Service.Serve.{
  scan, accept_one, idle_from, check_idle, wait, end_round, accept_round, round,
}
use yams.Service.Serve.Keeps.{
  IsSound, IsSoundAfter, Keeps-eq, IsSound-pending, scan-IsSound, take_in-IsSound,
}

module _ {Request : Type 0} where
  -- An error ends the loop, and its counts with it.
  abbrev IsSoundResult : Result ErrorKind Flow × Loop Request → Type 0
  IsSoundResult (ok flow, s) = IsSound s
  IsSoundResult (err kind, s) = Unit

  -- All connections are accounted for: rejected, or executed to the end.
  abbrev pub IsDrained : Loop Request → Type 0
  IsDrained s =
      (s.active ≡ 0)
      × (s.stats.accepted ≡ s.stats.rejected + s.stats.completed)
      × (starts s.events ≡ s.stats.completed)

  -- The loop breaks with nothing pending, and drained unless that took too long.
  abbrev pub IsFinished : Loop Request → Type 0
  IsFinished s = (s.pending ≡ []) × (IsDrained s ⊎ (s.stats.workers_stuck ≡ true))

  abbrev pub IsSoundNext : Next × Loop Request → Type 0
  IsSoundNext (continues, s) = IsSound s
  IsSoundNext (breaks, s) = IsSound s × IsFinished s
  IsSoundNext (returns_error kind, s) = Unit

  shut_down-IsSound :
      (now : ℕ) (s : Loop Request) → Keeps (length s.pending) s → IsSoundNext (shut_down now s)
  unfolding shut_down
  shut_down-IsSound now s k =
      let k' = add_rejected-Keeps (length s.pending) 0 (length s.pending) s (omega arith) k in
      if_lem IsSoundNext (s.active == 0)
        (λ none_active.
          let e = ==→eq s.active 0 none_active in
          let a = k'.account in
          let b = k'.all_starts in ((omega arith, k'), (refl, inl (e, omega arith, omega arith))))
        (λ some_active.
          if_lem IsSoundNext (leb drain_limit (now - stop_at s.shutdown_at now))
            (λ stuck. (
              (
                omega arith,
                record {
                  active_bound = k'.active_bound;
                  account = k'.account;
                  closed_event = k'.closed_event;
                  orderly = k'.orderly;
                  all_starts = k'.all_starts;
                },
              ),
              (refl, inr refl),
            ))
            (λ draining. (omega arith, k')))

  request_shutdown-IsSound : (s : Loop Request) → IsSound s → IsSound (request_shutdown s)
  unfolding request_shutdown
  request_shutdown-IsSound s k = (k.0, request_shutdown-Keeps (length s.pending) s k.1)

  check_idle-IsSound :
      (idle_timeout : Option ℕ) (now : ℕ) (s : Loop Request)
      → IsSound s
      → IsSoundAfter (check_idle idle_timeout now s)
  unfolding check_idle
  check_idle-IsSound idle_timeout now s k =
      let s' = if s.progressed then idle_from now s else s in
      let k' = if_lem IsSound s.progressed {x = idle_from now s} {y = s} (λ p. k) (λ p. k) in
      if_lem IsSoundAfter (s.active == 0 && is_empty s.pending)
        (λ idle.
          if_lem IsSoundAfter (is_over idle_timeout (now - s'.idle_since))
            (λ over. request_shutdown-IsSound s' k') (λ under. k'))
        (λ at_work. k)

  wait-IsSound :
      (failure : Option ErrorKind) (s : Loop Request) → IsSound s → IsSoundNext (wait failure s)
  wait-IsSound none s k = k
  wait-IsSound (some kind) s k = elim (Bool-cases s.progressed) [
    | inl progressed ↦ rw progressed k
    | inr quiet ↦ rw quiet tt
  ]

  flow_next :
      (P : Next × Loop Request → Type 0) (flow : Flow) {x y : Next × Loop Request}
      → P x
      → P y
      → P (elim flow [ leaves ↦ x | goes_on ↦ y ])
  flow_next P leaves p q = p
  flow_next P goes_on p q = q

  option_result :
      (P : Result ErrorKind Flow × Loop Request → Type 0) (o : Option ErrorKind)
      {x : ErrorKind → Result ErrorKind Flow × Loop Request}
      {y : Result ErrorKind Flow × Loop Request}
      → ((kind : ErrorKind) → P (x kind))
      → P y
      → P (elim o [ some kind ↦ x kind | none ↦ y ])
  option_result P (some kind) p q = p kind
  option_result P none p q = q

  end_round-IsSound :
      (idle_timeout : Option ℕ) (input : Round) (after : Result ErrorKind Flow × Loop Request)
      → IsSoundResult after
      → IsSoundNext (end_round idle_timeout input after)
  end_round-IsSound idle_timeout input (err kind, s) k = tt
  end_round-IsSound idle_timeout input (ok leaves, s) k = k
  end_round-IsSound idle_timeout input (ok goes_on, s) k =
      let k' = check_idle-IsSound idle_timeout input.idle_now s k in
      let idle = check_idle idle_timeout input.idle_now s in
      flow_next IsSoundNext idle.0 k' (wait-IsSound input.wait_failed idle.1 k')

module _ {Request : Type 0} (decode_request : Bytes → Option Request)
    (idle_timeout : Option ℕ) where
  accept_one-IsSound :
      (accepting : Accepting) (s : Loop Request)
      → IsSound s
      → IsSoundResult (accept_one decode_request accepting s)
  unfolding accept_one
  accept_one-IsSound none_waiting s k = k
  accept_one-IsSound (accept_failed kind) s k = tt
  accept_one-IsSound (accepted_stream stream accepted_at valid blocking input) s k =
      let s' : Loop Request = record s {
        stats = record s.stats { accepted = s.stats.accepted + 1 };
      } in
      let k' : Keeps (suc (length s.pending)) s' = record {
        active_bound = k.1.active_bound;
        account = let a = k.1.account in omega arith;
        closed_event = k.1.closed_event;
        orderly = k.1.orderly;
        all_starts = k.1.all_starts;
      } in
      if_lem IsSoundResult (not valid)
        (λ invalid. (
          k.0,
          add_rejected-Keeps 1 (length s.pending) (suc (length s.pending)) s' (omega arith) k',
        ))
        (λ is_valid.
          option_result IsSoundResult blocking (λ kind. tt)
            (take_in-IsSound decode_request stream accepted_at input s' k.0 k'))

  accept_round-IsSound :
      (input : Round) (after : Flow × Loop Request)
      → IsSoundAfter after
      → IsSoundNext (accept_round decode_request idle_timeout input after)
  unfolding accept_round
  accept_round-IsSound input (leaves, s) k = k
  accept_round-IsSound input (goes_on, s) k =
      let k' =
        IsSound-pending (look s) s.pending (look-pending s) k.0
          (look-Keeps (length s.pending) s k.1) in
      if_lem IsSoundNext (look s).admission_closed (λ closed. k')
        (λ still.
          end_round-IsSound idle_timeout input (accept_one decode_request input.accepting (look s))
            (accept_one-IsSound input.accepting (look s) k'))

  -- In a round no more requests are done than are active.
  pub round-IsSound :
      (input : Round) (s : Loop Request)
      → input.done ≤ s.active
      → IsSound s
      → IsSoundNext (round decode_request idle_timeout input s)
  unfolding round
  round-IsSound input s done k =
      let before : Loop Request = record s { progressed = false } in
      let d = drain_done input.done before in
      let kd = drain_done-Keeps input.done (length s.pending) before done k.1 in
      let e : (look d).pending ≡ s.pending =
        look-pending d ∙ drain_done-pending input.done before in
      let sound = IsSound-pending (look d) s.pending e k.0 (look-Keeps (length s.pending) d kd) in
      if_lem IsSoundNext (look d).admission_closed
        (λ closed. shut_down-IsSound input.now (look d) sound.1)
        (λ still.
          accept_round-IsSound input (scan decode_request input.polls [] (look d).pending (look d))
            (scan-IsSound decode_request input.polls [] (look d).pending (look d)
              (let r = sound.0 in omega arith)
              (Keeps-eq (length (look d).pending) (0 + length (look d).pending) (look d)
                (omega arith) sound.1)))
