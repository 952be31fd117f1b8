-- ===== src/Service/Loop/Invariant.antt =====
-- What holds of the loop of crates/yams-service/src/service.rs at all times, and that its steps
-- keep it.
use yams.Prelude.{
  ℕ, ◌+◌, ◌≤◌, ◌≡◌, refl, Bool, true, false, ◌&&◌, ◌||◌, List, [], ◌∷◌, ◌++◌, arith, if◌then◌else◌,
  any,
}
use yams.Service.Loop.{LoopStats, Event, closing, started, Loop, Flow, request_shutdown}

module _ {Request : Type 0} where
  abbrev pub is_closing : Event Request → Bool
  is_closing closing = true
  is_closing _ = false

  abbrev pub is_start : Event Request → Bool
  is_start (started stream request) = true
  is_start _ = false

  abbrev pub starts : List (Event Request) → ℕ
  starts [] = 0
  starts (event ∷ events) = (if is_start event then 1 else 0) + starts events

  -- Nothing starts behind a closing.
  abbrev pub IsOrderly : List (Event Request) → Type 0
  IsOrderly [] = Unit
  IsOrderly (event ∷ events) =
      ((is_closing event && any is_start events) ≡ false) × IsOrderly events

  -- `held` counts the pending admissions.
  pub record Holds (held active : ℕ) (stats : LoopStats) (closed : Bool)
      (events : List (Event Request)) : Type 0 where
    pub active_bound : active ≤ 8
    pub account : stats.accepted ≡ stats.rejected + (stats.completed + (active + held))
    pub closed_event : any is_closing events ≡ closed
    pub orderly : IsOrderly events
    pub all_starts : starts events ≡ stats.completed + active

  abbrev pub Keeps : ℕ → Loop Request → Type 0
  Keeps held s = Holds held s.active s.stats s.admission_closed s.events

  -- The same behind a part of a round.
  abbrev pub KeepsAfter : ℕ → Flow × Loop Request → Type 0
  KeepsAfter held after = Keeps held after.1

  pub any-snoc :
      (p : Event Request → Bool) (events : List (Event Request)) (event : Event Request)
      → any p (events ++ event ∷ []) ≡ (any p events || p event)
  any-snoc p [] event = ground arith
  any-snoc p (e ∷ events) event = ground (arith, any-snoc p events event)

  pub starts-snoc :
      (events : List (Event Request)) (event : Event Request)
      → starts (events ++ event ∷ []) ≡ starts events + (if is_start event then 1 else 0)
  starts-snoc [] event = omega arith
  starts-snoc (e ∷ events) event = omega (arith, starts-snoc events event)

  -- An event may follow if it starts nothing, or if nothing has closed.
  pub IsOrderly-snoc :
      (events : List (Event Request)) (event : Event Request)
      → (is_start event && any is_closing events) ≡ false
      → IsOrderly events
      → IsOrderly (events ++ event ∷ [])
  IsOrderly-snoc [] event h o = (ground arith, tt)
  IsOrderly-snoc (e ∷ events) event h o =
      let a = any-snoc is_start events event in
      (ground arith, IsOrderly-snoc events event (ground arith) o.1)

  pub request_shutdown-Keeps :
      (held : ℕ) (s : Loop Request) → Keeps held s → Keeps held (request_shutdown s)
  unfolding request_shutdown
  request_shutdown-Keeps held s k = record {
    active_bound = k.active_bound;
    account = k.account;
    closed_event = let a = any-snoc is_closing s.events closing in ground arith;
    orderly = IsOrderly-snoc s.events closing refl k.orderly;
    all_starts = let a = starts-snoc s.events closing in let b = k.all_starts in omega arith;
  }
