-- ===== src/Service/Serve/Keeps.antt =====
-- The invariant of the loop of crates/yams-service/src/service.rs over a whole round.
use yams.Prelude.{
  ℕ, suc, ◌+◌, ◌≤◌, ◌≡◌, refl, sym, ap, ◌∙◌, Option, List, [], ◌∷◌, ◌++◌, arith, ◌==◌, length,
  length-append, if_lem, elim_lem, ==→eq,
}
use yams.Protocol.Frame.{Bytes}
use yams.Service.Admission.{PendingAdmission, PollInput, poll_live_admission}
use yams.Service.Loop.{
  busy, Loop, Flow, goes_on, leaves, add_rejected, look, reject, settle, stays_pending,
  with_pending,
}
use yams.Service.Loop.Invariant.{Keeps}
use yams.Service.Loop.Steps.{
  look-Keeps, look-pending, add_rejected-Keeps, reject-Keeps, settle-Keeps, settle-pending,
}
use yams.Service.Serve.{
  first_input, later_inputs, scan, push_pending, new_admission, progress, push_full, take_in,
}

length-snoc :
    (kept : List PendingAdmission) (admission : PendingAdmission)
    → length (kept ++ admission ∷ []) ≡ suc (length kept)
length-snoc kept admission = let e = length-append kept (admission ∷ []) in omega arith

module _ {Request : Type 0} where
  -- The invariant with the pending admissions of the state, of which there are at most 64.
  abbrev pub IsSound : Loop Request → Type 0
  IsSound s = (length s.pending ≤ 64) × Keeps (length s.pending) s

  abbrev pub IsSoundAfter : Flow × Loop Request → Type 0
  IsSoundAfter after = IsSound after.1

  flow_lem :
      (P : Flow × Loop Request → Type 0) (flow : Flow) {x y : Flow × Loop Request}
      → (flow ≡ goes_on → P x)
      → (flow ≡ leaves → P y)
      → P (elim flow [ goes_on ↦ x | leaves ↦ y ])
  flow_lem P goes_on p q = p refl
  flow_lem P leaves p q = q refl

  pub Keeps-eq : (held other : ℕ) (s : Loop Request) → held ≡ other → Keeps held s → Keeps other s
  Keeps-eq held other s e k = rw (sym e) k

  IsSound-with_pending :
      (pending : List PendingAdmission) (held : ℕ) (s : Loop Request)
      → length pending ≡ held
      → held ≤ 64
      → Keeps held s
      → IsSound (with_pending pending s)
  IsSound-with_pending pending held s e room k =
      (omega arith, Keeps-eq held (length pending) s (sym e) k)

module _ {Request : Type 0} (decode_request : Bytes → Option Request) where
  pub scan-IsSound :
      (inputs : List PollInput) (kept behind : List PendingAdmission) (s : Loop Request)
      → length kept + length behind ≤ 64
      → Keeps (length kept + length behind) s
      → IsSoundAfter (scan decode_request inputs kept behind s)
  unfolding scan
  scan-IsSound inputs kept [] s room k =
      (omega arith, Keeps-eq (length kept + 0) (length kept) s (omega arith) k)
  scan-IsSound inputs kept (admission ∷ behind) s room k =
      let polled = poll_live_admission decode_request (first_input inputs) admission in
      let l = look-Keeps (length kept + suc (length behind)) s k in
      let settled = settle polled.0 admission.stream (look s) in
      elim_lem IsSoundAfter (look s).admission_closed
        (λ closed.
          IsSound-with_pending (kept ++ polled.1 ∷ behind) (length kept + suc (length behind))
            (look s) (length-append kept (polled.1 ∷ behind)) room l)
        (λ still.
          elim_lem IsSoundAfter (stays_pending polled.0)
            (λ stays.
              let e = length-snoc kept polled.1 in
              scan-IsSound (later_inputs inputs) (kept ++ polled.1 ∷ []) behind (look s)
                (omega arith)
                (Keeps-eq (length kept + suc (length behind))
                  (length (kept ++ polled.1 ∷ []) + length behind) (look s) (omega arith) l))
            (λ settles.
              let after =
                settle-Keeps (length kept + length behind) polled.0 admission.stream (look s)
                  settles
                  (Keeps-eq (length kept + suc (length behind)) (suc (length kept + length behind))
                    (look s) (omega arith) l) in
              flow_lem IsSoundAfter settled.0
                (λ goes.
                  scan-IsSound (later_inputs inputs) kept behind settled.1 (omega arith) after)
                (λ left.
                  IsSound-with_pending (kept ++ behind) (length kept + length behind) settled.1
                    (length-append kept behind) (omega arith) after)))

module _ {Request : Type 0} where
  push_full-IsSound :
      (pending : List PendingAdmission) (admission : PendingAdmission) (s : Loop Request)
      → length pending ≡ 64
      → Keeps (suc (length pending)) s
      → IsSound (push_full pending admission s)
  unfolding push_full
  push_full-IsSound [] admission s full k = absurd (omega arith)
  push_full-IsSound (oldest ∷ others) admission s full k =
      IsSound-with_pending (others ++ admission ∷ []) (suc (length others))
        (reject oldest.stream busy s) (length-snoc others admission) (omega arith)
        (reject-Keeps (suc (length others)) oldest.stream busy s k)

  push_pending-IsSound :
      (admission : PendingAdmission) (s : Loop Request)
      → length s.pending ≤ 64
      → Keeps (suc (length s.pending)) s
      → IsSound (push_pending admission s)
  unfolding push_pending
  push_pending-IsSound admission s room k =
      if_lem IsSound (length s.pending == 64)
        (λ full. push_full-IsSound s.pending admission s (==→eq (length s.pending) 64 full) k)
        (λ space.
          IsSound-with_pending (s.pending ++ admission ∷ []) (suc (length s.pending)) s
            (length-snoc s.pending admission) (ground arith) k)

  -- The pending admissions of a state, whatever number they are known by.
  pub IsSound-pending :
      (s : Loop Request) (pending : List PendingAdmission)
      → s.pending ≡ pending
      → length pending ≤ 64
      → Keeps (length pending) s
      → IsSound s
  IsSound-pending s pending e room k =
      let n = ap length e in (omega arith, Keeps-eq (length pending) (length s.pending) s (sym n) k)

  progress-IsSound :
      (after : Flow × Loop Request) → IsSoundAfter after → IsSoundAfter (progress after)
  progress-IsSound (goes_on, s) h = h
  progress-IsSound (leaves, s) h = h

module _ {Request : Type 0} (decode_request : Bytes → Option Request) where
  pub take_in-IsSound :
      (stream accepted_at : ℕ) (input : PollInput) (s : Loop Request)
      → length s.pending ≤ 64
      → Keeps (suc (length s.pending)) s
      → IsSoundAfter (take_in decode_request stream accepted_at input s)
  unfolding take_in
  take_in-IsSound stream accepted_at input s room k =
      let polled = poll_live_admission decode_request input (new_admission stream accepted_at) in
      let l = look-Keeps (suc (length s.pending)) s k in
      let e = look-pending s in
      let n = ap length e in
      if_lem IsSoundAfter (look s).admission_closed
        (λ closed. IsSound-pending (add_rejected 1 (look s)) s.pending e room (
          add_rejected-Keeps 1 (length s.pending) (suc (length s.pending)) (look s) (omega arith)
            l))
        (λ still.
          if_lem IsSoundAfter (stays_pending polled.0)
            (λ stays. push_pending-IsSound polled.1 (look s) (omega arith) (
              Keeps-eq (suc (length s.pending)) (suc (length (look s).pending)) (look s)
                (omega arith) l))
            (λ settles. progress-IsSound (settle polled.0 stream (look s)) (
              IsSound-pending (settle polled.0 stream (look s)).1 s.pending
                (settle-pending polled.0 stream (look s) ∙ e) room
                (settle-Keeps (length s.pending) polled.0 stream (look s) settles l))))
