-- ===== src/Service/Admission/Live.antt =====
-- `poll_live_admission` of crates/yams-service/src/service.rs: a poll and its deadline.
use yams.Prelude.{ℕ, ◌≤◌, ◌<◌, ◌≡◌, ◌≢◌, ◌⊎◌, Bool, Option, List, [], Result, ok, err}
use yams.Protocol.Errors.{ProtocolError}
use yams.Protocol.Frame.{Bytes, FrameReader}
use yams.Protocol.Frame.Reader.{received}
use yams.Service.Admission.{
  Arrival, AdmissionPoll, incomplete, failed, expired, complete, PollInput, PendingAdmission,
  poll_admission,
}
use yams.Service.Admission.Polled.{Polled}
use yams.Service.Admission.Polls.{Polls}

module _ {Request : Type 0} (decode_request : Bytes → Option Request) where
  -- Not expired, or of no use any more: what the deadline lets through was there in time.
  abbrev pub InTime : PollInput → ℕ → AdmissionPoll Request → Type 0
  InTime input expires_at incomplete = (input.before < expires_at) × (input.after < expires_at)
  InTime input expires_at (complete request) =
      (input.before < expires_at) × (input.after < expires_at)
  InTime input expires_at failed = input.before < expires_at
  InTime input expires_at expired = (expires_at ≤ input.before) ⊎ (expires_at ≤ input.after)

  -- What the poll has read and what it answers for that, unless the deadline is past.
  abbrev pub ReadsLive : PollInput → PendingAdmission → Bytes → AdmissionPoll Request → Type 0
  ReadsLive input admission more answer =
      ((admission.expires_at ≤ input.before) × (more ≡ []) × (answer ≡ expired))
      ⊎ ((outcome : AdmissionPoll Request) × Polled decode_request admission.reader.limit
            (received admission.reader) input.reads more outcome
          × ((answer ≡ outcome) ⊎ ((answer ≡ expired) × (outcome ≢ failed))))

  -- What a live poll leaves: the bytes it read, and an outcome that the deadline allows.
  pub record PollsLive (input : PollInput) (admission : PendingAdmission)
      (out : AdmissionPoll Request × PendingAdmission) : Type 0 where
    pub polls : Polls decode_request admission.reader (out.0, out.1.reader)
    pub read : ReadsLive input admission polls.more out.0
    pub in_time : InTime input admission.expires_at out.0
    pub same_stream : out.1.stream ≡ admission.stream
    pub same_deadline : out.1.expires_at ≡ admission.expires_at

  abbrev fed_outcome :
      List Arrival → FrameReader × Result ProtocolError Bool → AdmissionPoll Request × FrameReader
  fed_outcome reads fed = elim fed.1 [
    | ok _ ↦ poll_admission decode_request reads fed.0
    | err _ ↦ (failed, fed.0)
  ]
