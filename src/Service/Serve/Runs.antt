-- ===== src/Service/Serve/Runs.antt =====
-- Runs of the loop of crates/yams-service/src/service.rs.
use yams.Prelude.{ℕ, ◌≤◌, refl, Bool, Option, List, arith}
use yams.Protocol.Frame.{Bytes}
use yams.Service.Loop.{Loop, Round, Next, continues, first_loop}
use yams.Service.Serve.{round}
use yams.Service.Serve.Rounds.{IsSoundNext, round-IsSound}

module _ {Request : Type 0} (decode_request : Bytes → Option Request)
    (idle_timeout : Option ℕ) where
  -- The runs of the loop: what it is before its first round, and after each later one.
  pub data Runs (first : Loop Request) : Next × Loop Request → Type 0 where
    begins : Runs first (continues, first)
    rounds :
        (input : Round) (s : Loop Request)
        → Runs first (continues, s)
        → input.done ≤ s.active
        → Runs first (round decode_request idle_timeout input s)

  -- In all runs of the loop in which only active requests are done, up to an error that it returns:
  -- at most eight requests are active and at most 64 connections pending; each accepted connection is
  -- rejected, completed, active or pending; each execution started is completed or active; none
  -- starts once the token is closed. A loop that breaks has nothing pending, and unless its workers
  -- are stuck it has rejected or completed all connections and completed all it started.
  pub serve_until-IsSound :
      (now : ℕ) (looks : List Bool) {next : Next × Loop Request}
      → Runs (first_loop now looks) next
      → IsSoundNext next
  serve_until-IsSound now looks begins = (
    omega arith,
    record {
      active_bound = omega arith;
      account = refl;
      closed_event = refl;
      orderly = tt;
      all_starts = refl;
    },
  )
  serve_until-IsSound now looks (rounds input s run done) =
      round-IsSound decode_request idle_timeout input s done (serve_until-IsSound now looks run)
