-- ===== src/Service/Admission/Reads.antt =====
-- What `poll_admission` of crates/yams-service/src/service.rs reads and answers.
use yams.Service.Admission.Polled.{
  wanted, read_of, Polled, framed, drained, blocked, broken, retried, refused, taken, want-wanted,
}
use mathlib.Core.List.{append-nil, append_assoc}
use mathlib.Core.Path.{subst}
use yams.Prelude.{
  ℕ, min, ◌≡◌, ◌≢◌, refl, sym, ap, ◌∙◌, inl, inr, Bool, Option, none, some, List, [], ◌∷◌, ◌++◌,
  take, Result, ok, err, Option-cases,
}
use yams.Protocol.Errors.{
  ProtocolError, truncated_frame, ErrorKind, interrupted, would_block, timed_out, write_zero, other,
}
use yams.Protocol.Frame.{Bytes, FrameReader, want, frame, feed}
use yams.Protocol.Frame.Reader.{received, IsWellFormed, classify}
use yams.Protocol.Frame.Reader.Feed.{Feeds, feed-Feeds}
use yams.Protocol.Frame.Reader.Complete.{frame_of, frame-eq-frame_of}
use yams.Service.Admission.{
  Arrival, arrived, read_failed, AdmissionPoll, incomplete, failed, poll_admission, decoded,
  buffer_bytes,
}

feed-nil : (r : FrameReader) → frame r ≡ none → feed r [] ≡ (r, err truncated_frame)
unfolding feed
feed-nil r closed = rw (closed, feed) refl

ne-cons : {b : ℕ} {bs : Bytes} → b ∷ bs ≡ [] → ⊥
ne-cons h = cc

module _ {Request : Type 0} (decode_request : Bytes → Option Request) (limit : ℕ) where
  -- The bytes that a poll read, and the reader has.
  pub record Reads (so_far : Bytes) (reads : List Arrival)
      (out : AdmissionPoll Request × FrameReader) : Type 0 where
    pub more : Bytes
    pub ran : Polled decode_request limit so_far reads more out.0
    pub takes : received out.1 ≡ so_far ++ more

  abbrev Answer : Bytes → List Arrival → FrameReader → Type 0
  Answer so_far reads reader = Reads so_far reads (poll_admission decode_request reads reader)

  abbrev Later : List Arrival → Type 0
  Later reads =
      (reader : FrameReader) (so_far : Bytes)
      → IsWellFormed reader
      → reader.limit ≡ limit
      → received reader ≡ so_far
      → Answer so_far reads reader

  -- A poll that reads nothing.
  unread :
      (so_far : Bytes) (reads : List Arrival) (reader : FrameReader)
      (outcome : AdmissionPoll Request)
      → received reader ≡ so_far
      → Polled decode_request limit so_far reads [] outcome
      → Reads so_far reads (outcome, reader)
  unread so_far reads reader outcome same p = record {
    more = [];
    ran = p;
    takes = same ∙ sym (append-nil so_far);
  }

  classify_at :
      (reader : FrameReader) (so_far input : Bytes) {r : Result ProtocolError Bool}
      → reader.limit ≡ limit
      → received reader ≡ so_far
      → r ≡ classify reader.limit (received reader ++ input)
      → classify limit (so_far ++ input) ≡ r
  classify_at reader so_far input l same e = sym (
      e
      ∙ ap (λ (n : ℕ). classify n (received reader ++ input)) l
      ∙ ap (λ (t : Bytes). classify limit (t ++ input)) same)

  fed-Reads :
      (reads : List Arrival) (reader : FrameReader) (so_far bytes : Bytes)
      (fed : FrameReader × Result ProtocolError Bool)
      → Later reads
      → reader.limit ≡ limit
      → received reader ≡ so_far
      → frame_of so_far ≡ none
      → read_of so_far bytes ≢ []
      → Feeds reader (read_of so_far bytes) fed
      → Reads so_far (arrived bytes ∷ reads) (elim fed.1 [
        | ok _ ↦ poll_admission decode_request reads fed.0
        | err _ ↦ (failed, fed.0)
      ])
  fed-Reads reads reader so_far bytes (next, ok done) later l same open' given f =
      let input = read_of so_far bytes in
      let answer : classify limit (so_far ++ input) ≡ ok done =
        classify_at reader so_far input l same f.answer in
      let r =
        later next (so_far ++ input) f.keeps (f.same_limit ∙ l)
          (f.commits ∙ ap (λ (t : Bytes). t ++ input) same) in
      record {
        more = input ++ r.more;
        ran = taken bytes done open' given answer r.ran;
        takes = r.takes ∙ append_assoc so_far input r.more;
      }
  fed-Reads reads reader so_far bytes (next, err e) later l same open' given f =
      let answer : classify limit (so_far ++ read_of so_far bytes) ≡ err e =
        classify_at reader so_far (read_of so_far bytes) l same f.answer in
      unread so_far (arrived bytes ∷ reads) next failed (ap received f.commits ∙ same)
        (refused bytes open' (inr (e, answer)))

  abbrev fed_answer :
      List Arrival → FrameReader × Result ProtocolError Bool → AdmissionPoll Request × FrameReader
  fed_answer reads fed = elim fed.1 [
    | ok _ ↦ poll_admission decode_request reads fed.0
    | err _ ↦ (failed, fed.0)
  ]

  -- One read and what is fed of it.
  arrived-Reads :
      (reads : List Arrival) (reader : FrameReader) (so_far bytes input : Bytes)
      → Later reads
      → IsWellFormed reader
      → reader.limit ≡ limit
      → received reader ≡ so_far
      → frame reader ≡ none
      → frame_of so_far ≡ none
      → input ≡ read_of so_far bytes
      → Reads so_far (arrived bytes ∷ reads) (fed_answer reads (feed reader input))
  arrived-Reads reads reader so_far bytes [] later w l same closed open' e =
      rw (feed-nil reader closed) (
        unread so_far (arrived bytes ∷ reads) reader failed same
          (refused bytes open' (inl (sym e))))
  arrived-Reads reads reader so_far bytes (b ∷ bs) later w l same closed open' e =
      let f : Feeds reader (b ∷ bs) (feed reader (b ∷ bs)) =
        feed-Feeds reader (b ∷ bs) w closed (λ h. cc) in
      subst (λ (t : Bytes). Reads so_far (arrived bytes ∷ reads) (fed_answer reads (feed reader t)))
        (sym e)
        (fed-Reads reads reader so_far bytes (feed reader (read_of so_far bytes)) later l same open'
          (λ h. ne-cons (e ∙ h)) (subst (λ (t : Bytes). Feeds reader t (feed reader t)) e f))

  framed-Reads :
      (reads : List Arrival) (reader : FrameReader) (so_far body : Bytes)
      → received reader ≡ so_far
      → frame_of so_far ≡ some body
      → Reads so_far reads (decoded (decode_request body), reader)
  framed-Reads reads reader so_far body same e =
      unread so_far reads reader (decoded (decode_request body)) same (framed body e)

  failed-Reads :
      (reads : List Arrival) (kind : ErrorKind) (reader : FrameReader) (so_far : Bytes)
      → received reader ≡ so_far
      → frame_of so_far ≡ none
      → kind ≢ interrupted
      → kind ≢ would_block
      → Reads so_far (read_failed kind ∷ reads) (failed, reader)
  failed-Reads reads kind reader so_far same open' i b =
      unread so_far (read_failed kind ∷ reads) reader failed same (broken kind open' i b)

  -- The same for the reads behind the first.
  abbrev Behind : List Arrival → Type 0
  Behind [] = Unit
  Behind (arrival ∷ reads) = Later reads

  -- The poll of a reader without a frame.
  open-Reads :
      (reads : List Arrival) (reader : FrameReader) (so_far : Bytes)
      → Behind reads
      → IsWellFormed reader
      → reader.limit ≡ limit
      → received reader ≡ so_far
      → frame reader ≡ none
      → frame_of so_far ≡ none
      → Answer so_far reads reader
  unfolding poll_admission
  open-Reads [] reader so_far later w l same e open' =
      rw (e, poll_admission) (unread so_far [] reader incomplete same (drained open'))
  open-Reads (arrived bytes ∷ reads) reader so_far later w l same e open' =
      rw (e, poll_admission)
        (arrived-Reads reads reader so_far bytes (take (min (want reader) buffer_bytes) bytes) later
          w l same e open'
          (ap (λ (n : ℕ). take (min n buffer_bytes) bytes) (want-wanted reader w ∙ ap wanted same)))
  open-Reads (read_failed interrupted ∷ reads) reader so_far later w l same e open' =
      let r = later reader so_far w l same in
      rw (e, poll_admission) (record { more = r.more; ran = retried open' r.ran; takes = r.takes })
  open-Reads (read_failed would_block ∷ reads) reader so_far later w l same e open' =
      rw (e, poll_admission)
        (unread so_far (read_failed would_block ∷ reads) reader incomplete same (blocked open'))
  open-Reads (read_failed timed_out ∷ reads) reader so_far later w l same e open' =
      rw (e, poll_admission)
        (failed-Reads reads timed_out reader so_far same open' (λ h. cc) (λ h. cc))
  open-Reads (read_failed write_zero ∷ reads) reader so_far later w l same e open' =
      rw (e, poll_admission)
        (failed-Reads reads write_zero reader so_far same open' (λ h. cc) (λ h. cc))
  open-Reads (read_failed (other code) ∷ reads) reader so_far later w l same e open' =
      rw (e, poll_admission)
        (failed-Reads reads (other code) reader so_far same open' (λ h. cc) (λ h. cc))

  poll_admission_framed :
      (reads : List Arrival) (reader : FrameReader) (body : Bytes)
      → frame reader ≡ some body
      → poll_admission decode_request reads reader ≡ (decoded (decode_request body), reader)
  unfolding poll_admission
  poll_admission_framed [] reader body e = rw (e, poll_admission) refl
  poll_admission_framed (arrived bytes ∷ reads) reader body e = rw (e, poll_admission) refl
  poll_admission_framed (read_failed kind ∷ reads) reader body e = rw (e, poll_admission) refl

  step-Reads : (reads : List Arrival) → Behind reads → Later reads
  step-Reads reads behind reader so_far w l same =
      let framing : frame reader ≡ frame_of so_far =
        frame-eq-frame_of reader w ∙ ap frame_of same in
      elim (Option-cases (frame reader)) [
        | inl e ↦ open-Reads reads reader so_far behind w l same e (sym framing ∙ e)
        | inr (body, e) ↦
            rw (poll_admission_framed reads reader body e)
              (framed-Reads reads reader so_far body same (sym framing ∙ e))
      ]

  -- What a poll of a well-formed reader reads and answers.
  pub poll_admission-Reads : (reads : List Arrival) → Later reads
  poll_admission-Reads [] = step-Reads [] tt
  poll_admission-Reads (arrival ∷ reads) = step-Reads (arrival ∷ reads) (poll_admission-Reads reads)
