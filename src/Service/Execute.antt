-- ===== src/Service/Execute.antt =====
-- `execute_request`, `bounded_completion` and `output_limit_completion` of
-- crates/yams-service/src/service.rs. The answer of a send is an input: it may depend on the message
-- and on how many were sent before. A handler that panics has no output.
pub mod Answers
mod Tests
use yams.Prelude.{
  ℕ, ◌*◌, Bool, true, false, ◌||◌, Option, none, some, List, [], ◌∷◌, ltb, if◌then◌else◌, length,
  Result, ok, err,
}
use yams.Protocol.Errors.{ProtocolError, frame_too_large}
use yams.Core.Text.{Text, characters}
use yams.Protocol.Message.{Completed}

abbrev pub max_stream_bytes : ℕ
max_stream_bytes = 4 * 1024 * 1024

pub record ExecutionOutput : Type 0 where
  pub exit_code : ℕ
  pub stdout : Text
  pub stderr : Text

-- The messages that `execute_request` sends.
pub data Reply : Type 0 where
  accepted : Text → Reply
  completed : Completed → Reply

pub output_limit_completion : Text → Completed
output_limit_completion request_id = record {
  request_id = request_id;
  exit_code = 4;
  stdout = [];
  stderr = characters "yams: output limit\n";
}

pub bounded_completion : Text → ExecutionOutput → Completed
unfolding output_limit_completion
bounded_completion request_id output =
    if ltb max_stream_bytes (length output.stdout) || ltb max_stream_bytes (length output.stderr)
    then output_limit_completion request_id
    else record {
      request_id = request_id;
      exit_code = output.exit_code;
      stdout = output.stdout;
      stderr = output.stderr;
    }

-- `catch_unwind`
abbrev pub caught : Option ExecutionOutput → ExecutionOutput
caught (some output) = output
caught none = record {
  exit_code = 4;
  stdout = [];
  stderr = characters "request execution panicked\n";
}

abbrev pub is_too_large : ProtocolError → Bool
is_too_large (frame_too_large size limit) = true
is_too_large _ = false

-- The replies tried, in order, and the result of the last.
abbrev pub Replies : Type 0
Replies = List Reply × Result ProtocolError (Unit {0})

module _ (send : ℕ → Reply → Result ProtocolError (Unit {0})) where
  -- The second try, if the first was too large.
  abbrev pub retry : Text → Reply → Result ProtocolError (Unit {0}) → Replies
  unfolding output_limit_completion
  retry request_id first (ok sent) = (first ∷ [], ok sent)
  retry request_id first (err error) =
      let second = completed (output_limit_completion request_id) in
      if is_too_large error then (first ∷ second ∷ [], send 2 second) else (first ∷ [], err error)

  abbrev pub complete_with : Text → ExecutionOutput → Replies
  unfolding bounded_completion retry
  complete_with request_id output =
      let first = completed (bounded_completion request_id output) in
      retry request_id first (send 1 first)

  abbrev pub after_accepted :
      Text → Option ExecutionOutput → Result ProtocolError (Unit {0}) → Replies
  unfolding complete_with
  after_accepted request_id handled (err error) = (accepted request_id ∷ [], err error)
  after_accepted request_id handled (ok sent) =
      let rest = complete_with request_id (caught handled) in (accepted request_id ∷ rest.0, rest.1)

  unfoldable pub execute_request :
      {Request : Type 0} → Text → Request → (Request → Option ExecutionOutput) → Replies
  unfolding after_accepted
  execute_request request_id request handler =
      after_accepted request_id (handler request) (send 0 (accepted request_id))
