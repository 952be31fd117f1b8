-- ===== src/Service/Admission.antt =====
-- `poll_admission` and `poll_live_admission` of crates/yams-service/src/service.rs: a connection
-- delivers its request frame in pieces, until a deadline. What its reads answer is a list; a read
-- behind the end of the list would block. `decode_request`, which answers the request of a frame
-- or that there is none, is a parameter.
pub mod Polls
pub mod Polled
pub mod Reads
pub mod Live
use yams.Prelude.{
  ℕ, ◌*◌, min, Bool, true, false, Option, none, some, List, [], ◌∷◌, leb, if◌then◌else◌, take,
  Result, ok, err,
}
use yams.Protocol.Errors.{ErrorKind, interrupted, would_block}
use yams.Protocol.Frame.{Bytes, FrameReader, new, want, frame, feed}

-- The answer of one `read`: the bytes that are there, or an error.
pub data Arrival : Type 0 where
  arrived : Bytes → Arrival
  read_failed : ErrorKind → Arrival

pub data AdmissionPoll (Request : Type 0) : Type 0 where
  incomplete failed expired : AdmissionPoll Request
  complete : Request → AdmissionPoll Request

-- The stream is the connection's number.
pub record PendingAdmission : Type 0 where
  pub stream : ℕ
  pub reader : FrameReader
  pub expires_at : ℕ

-- What a poll meets: the time before and after it, and its reads.
pub record PollInput : Type 0 where
  pub before : ℕ
  pub reads : List Arrival
  pub after : ℕ

abbrev pub buffer_bytes : ℕ
buffer_bytes = 8 * 1024

module _ {Request : Type 0} where
  abbrev pub decoded : Option Request → AdmissionPoll Request
  decoded (some request) = complete request
  decoded none = failed

  -- The deadline, looked at again behind a poll that is not a failure.
  abbrev pub recheck : Bool → AdmissionPoll Request → AdmissionPoll Request
  recheck true incomplete = expired
  recheck true (complete request) = expired
  recheck true failed = failed
  recheck true expired = expired
  recheck false outcome = outcome

module _ {Request : Type 0} (decode_request : Bytes → Option Request) where
  unfoldable pub poll_admission : List Arrival → FrameReader → AdmissionPoll Request × FrameReader
  unfolding frame want feed
  poll_admission [] reader = elim (frame reader) [
    | some body ↦ (decoded (decode_request body), reader)
    | none ↦ (incomplete, reader)
  ]
  poll_admission (arrived bytes ∷ reads) reader = elim (frame reader) [
    | some body ↦ (decoded (decode_request body), reader)
    | none ↦
        let fed = feed reader (take (min (want reader) buffer_bytes) bytes) in
        elim fed.1 [ ok _ ↦ poll_admission reads fed.0 | err _ ↦ (failed, fed.0) ]
  ]
  poll_admission (read_failed kind ∷ reads) reader = elim (frame reader) [
    | some body ↦ (decoded (decode_request body), reader)
    | none ↦ elim kind [
      | interrupted ↦ poll_admission reads reader
      | would_block ↦ (incomplete, reader)
      | _ ↦ (failed, reader)
    ]
  ]

  unfoldable pub poll_live_admission :
      PollInput → PendingAdmission → AdmissionPoll Request × PendingAdmission
  unfolding poll_admission
  poll_live_admission input admission =
      if leb admission.expires_at input.before
      then (expired, admission)
      else let polled = poll_admission input.reads admission.reader in
        (
          recheck (leb admission.expires_at input.after) polled.0,
          record admission { reader = polled.1 },
        )
