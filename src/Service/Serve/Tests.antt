-- ===== src/Service/Serve/Tests.antt =====
-- Runs of the service loop of crates/yams-service/src/service.rs.
use yams.Prelude.{◌≡◌, refl, true, false, Option, none, some, [], ◌∷◌, arith}
use yams.Protocol.Frame.{Bytes, new, want, frame, feed}
use yams.Service.Admission.{arrived, PollInput, complete, poll_live_admission}
use yams.Service.Loop.{
  Loop, started, none_waiting, accepted_stream, Round, continues, breaks, first_loop,
}
use yams.Service.Serve.{round, new_admission}
use yams.Service.Serve.Rounds.{IsSoundNext}
use yams.Service.Serve.Runs.{Runs, begins, rounds, serve_until-IsSound}

-- The request of a frame is its bytes, of which there must be some.
abbrev decode : Bytes → Option Bytes
decode [] = none
decode (b ∷ bs) = some (b ∷ bs)

abbrev whole_frame : PollInput
whole_frame = record {
  before = 1;
  reads = arrived (0 ∷ 0 ∷ 0 ∷ 2 ∷ []) ∷ arrived (7 ∷ 8 ∷ 9 ∷ []) ∷ [];
  after = 2;
}

poll_run : (poll_live_admission decode whole_frame (new_admission 5 0)).0 ≡ complete (7 ∷ 8 ∷ [])
unfolding poll_live_admission feed want frame new
poll_run = refl

abbrev quiet : Round
quiet = record {
  done = 0;
  now = 3;
  polls = [];
  accepting = none_waiting;
  idle_now = 3;
  wait_failed = none;
}

-- A connection that delivers its request, its completion, and a shutdown by another thread.
abbrev one_connection : Round
one_connection = record quiet { accepting = accepted_stream 5 0 true none whole_frame }

abbrev one_done : Round
one_done = record quiet { done = 1 }

abbrev start : Loop Bytes
start = first_loop 0 (false ∷ false ∷ false ∷ false ∷ true ∷ [])

abbrev after_first : Loop Bytes
after_first = (round decode none one_connection start).1

executed :
    (after_first.active ≡ 1)
    × (after_first.stats.accepted ≡ 1)
    × (after_first.events ≡ started 5 (7 ∷ 8 ∷ []) ∷ [])
unfolding round feed want frame new
executed = (refl, refl, refl)

first_continues : (round decode none one_connection start).0 ≡ continues
unfolding round feed want frame new
first_continues = refl

finished : (round decode none one_done after_first).0 ≡ breaks
unfolding round feed want frame new
finished = refl

a_run : Runs decode none start (round decode none one_done after_first)
unfolding round feed want frame new
a_run = rounds one_done after_first (rounds one_connection start begins (omega arith)) (omega arith)

serve_until-IsSound_example : IsSoundNext (round decode none one_done after_first)
serve_until-IsSound_example =
    serve_until-IsSound decode none 0 (false ∷ false ∷ false ∷ false ∷ true ∷ []) a_run
