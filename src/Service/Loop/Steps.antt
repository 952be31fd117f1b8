-- ===== src/Service/Loop/Steps.antt =====
-- The steps of the loop of crates/yams-service/src/service.rs keep its invariant.
use yams.Prelude.{
  ℕ, zero, suc, ◌+◌, ◌≤◌, ◌<◌, ◌≡◌, refl, ◌∙◌, inl, inr, Bool, true, false, not, List, [], ◌∷◌,
  arith, ltb, if◌then◌else◌, Bool-cases, if_lem,
}
use yams.Service.Admission.{AdmissionPoll, incomplete, failed, expired, complete}
use yams.Service.Loop.{
  Refusal, invalid_request, busy, started, refused, Loop, Flow, goes_on, leaves, add_rejected,
  request_shutdown, look, reject, spawn, admit, settle, stays_pending, drain_done,
}
use yams.Service.Loop.Invariant.{
  is_closing, Keeps, KeepsAfter, any-snoc, starts-snoc, IsOrderly-snoc, request_shutdown-Keeps,
}

module _ {Request : Type 0} where
  look_on-Keeps :
      (held : ℕ) (s : Loop Request) (looks : List Bool) (first : Bool)
      → Keeps held s
      → Keeps held (
          if first
          then request_shutdown (record s { looks = looks })
          else record s { looks = looks })
  look_on-Keeps held s looks true k = request_shutdown-Keeps held (record s { looks = looks }) k
  look_on-Keeps held s looks false k = k

  look_under-Keeps :
      (held : ℕ) (s : Loop Request) (looks : List Bool)
      → s.looks ≡ looks
      → Keeps held s
      → Keeps held (look s)
  unfolding look
  look_under-Keeps held s [] e k = rw (e, look) k
  look_under-Keeps held s (first ∷ later) e k = rw (e, look) (look_on-Keeps held s later first k)

  -- Another thread may close the admission at a look, and that is all.
  pub look-Keeps : (held : ℕ) (s : Loop Request) → Keeps held s → Keeps held (look s)
  look-Keeps held s k = look_under-Keeps held s s.looks refl k

  look_under_same :
      (s : Loop Request) (looks : List Bool)
      → s.looks ≡ looks
      → ((look s).active ≡ s.active) × ((look s).pending ≡ s.pending)
  unfolding look request_shutdown
  look_under_same s [] e = rw (e, look) (refl, refl)
  look_under_same s (true ∷ later) e = rw (e, look) (refl, refl)
  look_under_same s (false ∷ later) e = rw (e, look) (refl, refl)

  pub look-active : (s : Loop Request) → (look s).active ≡ s.active
  look-active s = (look_under_same s s.looks refl).0

  pub look-pending : (s : Loop Request) → (look s).pending ≡ s.pending
  look-pending s = (look_under_same s s.looks refl).1

  pub add_rejected-Keeps :
      (n held all : ℕ) (s : Loop Request)
      → n + held ≡ all
      → Keeps all s
      → Keeps held (add_rejected n s)
  add_rejected-Keeps n held all s e k = record {
    active_bound = k.active_bound;
    account = let a = k.account in omega arith;
    closed_event = k.closed_event;
    orderly = k.orderly;
    all_starts = k.all_starts;
  }

  pub reject-Keeps :
      (held : ℕ) (stream : ℕ) (refusal : Refusal) (s : Loop Request)
      → Keeps (suc held) s
      → Keeps held (reject stream refusal s)
  unfolding reject
  reject-Keeps held stream refusal s k = record {
    active_bound = k.active_bound;
    account = let a = k.account in omega arith;
    closed_event =
        any-snoc is_closing s.events (refused stream refusal)
        ∙ (let c = k.closed_event in ground arith);
    orderly = IsOrderly-snoc s.events (refused stream refusal) refl k.orderly;
    all_starts =
        let a = starts-snoc s.events (refused stream refusal) in
        let b = k.all_starts in omega arith;
  }

  pub spawn-Keeps :
      (held : ℕ) (stream : ℕ) (request : Request) (s : Loop Request)
      → s.admission_closed ≡ false
      → s.active < 8
      → Keeps (suc held) s
      → Keeps held (spawn stream request s)
  unfolding spawn
  spawn-Keeps held stream request s still room k = record {
    active_bound = omega arith;
    account = let a = k.account in omega arith;
    closed_event =
        any-snoc is_closing s.events (started stream request)
        ∙ (let c = k.closed_event in ground arith);
    orderly =
        IsOrderly-snoc s.events (started stream request) (let c = k.closed_event in ground arith)
          k.orderly;
    all_starts =
        let a = starts-snoc s.events (started stream request) in
        let b = k.all_starts in omega arith;
  }

  reserved-Keeps :
      (held : ℕ) (closed : Bool) (stream : ℕ) (request : Request) (s : Loop Request)
      → s.admission_closed ≡ closed
      → s.active < 8
      → Keeps (suc held) s
      → KeepsAfter held
          (if closed then (leaves, add_rejected 1 s) else (goes_on, spawn stream request s))
  reserved-Keeps held true stream request s e room k =
      add_rejected-Keeps 1 held (suc held) s (omega arith) k
  reserved-Keeps held false stream request s e room k = spawn-Keeps held stream request s e room k

  -- At most eight are active, and a request starts only while the admission is open.
  pub admit-Keeps :
      (held : ℕ) (stream : ℕ) (request : Request) (s : Loop Request)
      → Keeps (suc held) s
      → KeepsAfter held (admit stream request s)
  unfolding admit
  admit-Keeps held stream request s k = elim (Bool-cases (ltb s.active 8)) [
    | inl room ↦
        let a = look-active s in
        rw room (
          reserved-Keeps held (look s).admission_closed stream request (look s) refl (ground arith)
            (look-Keeps (suc held) s k))
    | inr full ↦ rw full (reject-Keeps held stream busy s k)
  ]

  pub settle-Keeps :
      (held : ℕ) (outcome : AdmissionPoll Request) (stream : ℕ) (s : Loop Request)
      → stays_pending outcome ≡ false
      → Keeps (suc held) s
      → KeepsAfter held (settle outcome stream s)
  unfolding settle
  settle-Keeps held incomplete stream s h k = cc
  settle-Keeps held (complete request) stream s h k = admit-Keeps held stream request s k
  settle-Keeps held failed stream s h k = reject-Keeps held stream invalid_request s k
  settle-Keeps held expired stream s h k = reject-Keeps held stream invalid_request s k

  pub settle-pending :
      (outcome : AdmissionPoll Request) (stream : ℕ) (s : Loop Request)
      → (settle outcome stream s).1.pending ≡ s.pending
  unfolding settle admit reject spawn
  settle-pending incomplete stream s = refl
  settle-pending (complete request) stream s =
      if_lem (λ (after : Flow × Loop Request). after.1.pending ≡ s.pending) (not (ltb s.active 8))
        (λ full. refl)
        (λ room.
          if_lem (λ (after : Flow × Loop Request). after.1.pending ≡ s.pending)
            (look s).admission_closed (λ closed. look-pending s) (λ still. look-pending s))
  settle-pending failed stream s = refl
  settle-pending expired stream s = refl

  -- No more completions come than there are active requests.
  pub drain_done-Keeps :
      (n held : ℕ) (s : Loop Request) → n ≤ s.active → Keeps held s → Keeps held (drain_done n s)
  unfolding drain_done
  drain_done-Keeps zero held s h k = k
  drain_done-Keeps (suc n) held s h k = drain_done-Keeps n held _ (omega arith) (record {
    active_bound = let a = k.active_bound in omega arith;
    account = let a = k.account in omega arith;
    closed_event = k.closed_event;
    orderly = k.orderly;
    all_starts = let a = k.all_starts in omega arith;
  })

  pub drain_done-pending : (n : ℕ) (s : Loop Request) → (drain_done n s).pending ≡ s.pending
  unfolding drain_done
  drain_done-pending zero s = refl
  drain_done-pending (suc n) s = drain_done-pending n _
