-- ===== src/Service/Execute/Tests.antt =====
-- Runs of `execute_request` of crates/yams-service/src/service.rs.
use yams.Prelude.{ℕ, zero, suc, ◌≡◌, refl, Option, none, some, [], ◌∷◌, Result, ok, err}
use yams.Protocol.Errors.{ProtocolError, frame_too_large}
use yams.Core.Text.{Text, characters}
use yams.Service.Execute.{
  ExecutionOutput, Reply, accepted, completed, output_limit_completion, caught, execute_request,
}
use yams.Service.Execute.Answers.{Answers, execute_request-Answers}

-- The first completion is too large for its frame.
abbrev send : ℕ → Reply → Result ProtocolError (Unit {0})
send zero reply = ok tt
send (suc zero) reply = err (frame_too_large 9 8)
send (suc (suc n)) reply = ok tt

abbrev handler : ℕ → Option ExecutionOutput
handler zero = none
handler (suc n) = some (record { exit_code = suc n; stdout = characters "out"; stderr = [] })

abbrev an_id : Text
an_id = characters "01"

retried : execute_request send an_id 2 handler ≡ (
  accepted an_id
      ∷ completed
          (record { request_id = an_id; exit_code = 2; stdout = characters "out"; stderr = [] })
      ∷ completed (output_limit_completion an_id)
      ∷ [],
  ok tt,
)
unfolding execute_request
retried = refl

execute_request-Answers_example :
    Answers send an_id (caught none) (execute_request send an_id 0 handler)
execute_request-Answers_example = execute_request-Answers send an_id 0 handler
