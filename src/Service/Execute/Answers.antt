-- ===== src/Service/Execute/Answers.antt =====
-- What `execute_request` of crates/yams-service/src/service.rs sends for a request.
use yams.Prelude.{
  ℕ, ◌≤◌, ◌≡◌, refl, sym, ◌⊎◌, inl, inr, true, false, ◌||◌, Option, [], ◌∷◌, arith, ltb, length,
  Result, ok, err, if_lem,
}
use yams.Protocol.Errors.{ProtocolError}
use yams.Core.Text.{Text}
use yams.Protocol.Message.{Completed}
use yams.Service.Execute.{
  max_stream_bytes, ExecutionOutput, Reply, accepted, completed, output_limit_completion,
  bounded_completion, caught, is_too_large, Replies, retry, complete_with, after_accepted,
  execute_request,
}

-- The completion is the output as it is.
abbrev pub IsVerbatim : ExecutionOutput → Completed → Type 0
IsVerbatim output completion =
    (completion.exit_code ≡ output.exit_code)
    × (completion.stdout ≡ output.stdout)
    × (completion.stderr ≡ output.stderr)

-- A completion for the request: within the limits, and the output or the notice of the limit.
pub record Completes (request_id : Text) (output : ExecutionOutput) (completion : Completed)
    : Type 0 where
  pub same_request : completion.request_id ≡ request_id
  pub stdout_fits : length completion.stdout ≤ max_stream_bytes
  pub stderr_fits : length completion.stderr ≤ max_stream_bytes
  pub is_output : IsVerbatim output completion ⊎ (completion ≡ output_limit_completion request_id)

limit-Completes :
    (request_id : Text) (output : ExecutionOutput)
    → Completes request_id output (output_limit_completion request_id)
unfolding output_limit_completion
limit-Completes request_id output = record {
  same_request = refl;
  stdout_fits = omega arith;
  stderr_fits = ground arith;
  is_output = inr refl;
}

bounded_completion-Completes :
    (request_id : Text) (output : ExecutionOutput)
    → Completes request_id output (bounded_completion request_id output)
unfolding bounded_completion
bounded_completion-Completes request_id output =
    if_lem (Completes request_id output)
      (ltb max_stream_bytes (length output.stdout) || ltb max_stream_bytes (length output.stderr))
      (λ over. limit-Completes request_id output)
      (λ within. record {
        same_request = refl;
        stdout_fits = ground arith;
        stderr_fits = ground arith;
        is_output = inl (refl, refl, refl);
      })

-- No error, or one that is not the size of the frame.
abbrev pub IsSettled : Result ProtocolError (Unit {0}) → Type 0
IsSettled (ok sent) = Unit
IsSettled (err error) = is_too_large error ≡ false

-- The replies to a request, with the answer of the send of the last: an acceptance, behind a sent
-- one a completion, and a second, the notice of the limit, only behind one that was too large.
abbrev pub Answers :
    (ℕ → Reply → Result ProtocolError (Unit {0})) → Text → ExecutionOutput → Replies → Type 0
Answers send request_id output (accepted id ∷ [], result) =
    (id ≡ request_id) × (result ≡ send 0 (accepted id)) × ((e : ProtocolError) × (result ≡ err e))
Answers send request_id output (accepted id ∷ completed c ∷ [], result) =
    (id ≡ request_id)
    × (send 0 (accepted id) ≡ ok tt)
    × Completes request_id output c
    × (result ≡ send 1 (completed c))
    × IsSettled result
Answers send request_id output (accepted id ∷ completed c ∷ completed d ∷ [], result) =
    (id ≡ request_id)
    × (send 0 (accepted id) ≡ ok tt)
    × Completes request_id output c
    × ((e : ProtocolError) × (send 1 (completed c) ≡ err e) × (is_too_large e ≡ true))
    × (d ≡ output_limit_completion request_id)
    × (result ≡ send 2 (completed d))
Answers send request_id output _ = ⊥

module _ (send : ℕ → Reply → Result ProtocolError (Unit {0})) where
  abbrev behind_accepted : Text → Replies → Replies
  behind_accepted request_id rest = (accepted request_id ∷ rest.0, rest.1)

  AnswersBehind : Text → ExecutionOutput → Replies → Type 0
  AnswersBehind request_id output rest =
      Answers send request_id output (behind_accepted request_id rest)

  retry-Answers :
      (request_id : Text) (output : ExecutionOutput) (first : Completed)
      (result : Result ProtocolError (Unit {0}))
      → send 0 (accepted request_id) ≡ ok tt
      → Completes request_id output first
      → send 1 (completed first) ≡ result
      → AnswersBehind request_id output (retry send request_id (completed first) result)
  unfolding retry AnswersBehind
  retry-Answers request_id output first (ok sent) a k e = (refl, a, k, sym e, tt)
  retry-Answers request_id output first (err error) a k e =
      if_lem (AnswersBehind request_id output) (is_too_large error)
        (λ large. (refl, a, k, (error, e, large), refl, refl)) (λ other. (refl, a, k, sym e, other))

  after_accepted-Answers :
      (request_id : Text) (handled : Option ExecutionOutput)
      (result : Result ProtocolError (Unit {0}))
      → send 0 (accepted request_id) ≡ result
      → Answers send request_id (caught handled) (after_accepted send request_id handled result)
  unfolding after_accepted complete_with AnswersBehind
  after_accepted-Answers request_id handled (ok sent) e =
      let output = caught handled in
      let first = bounded_completion request_id output in
      retry-Answers request_id output first (send 1 (completed first)) e
        (bounded_completion-Completes request_id output) refl
  after_accepted-Answers request_id handled (err error) e = (refl, sym e, (error, refl))

  -- Whatever the sends answer, a request gets an acceptance, and nothing more if that fails; then a
  -- completion for the same request, within the limits of both streams, which is the handler's
  -- output, or that of its panic, as it is, or the notice of the limit; and the notice again only if
  -- that completion was too large for a frame. The result is that of the last send.
  pub execute_request-Answers :
      {Request : Type 0} (request_id : Text) (request : Request)
      (handler : Request → Option ExecutionOutput)
      → Answers send request_id
          (caught (handler request))
          (execute_request send request_id request handler)
  unfolding execute_request
  execute_request-Answers request_id request handler =
      after_accepted-Answers request_id (handler request) (send 0 (accepted request_id)) refl
