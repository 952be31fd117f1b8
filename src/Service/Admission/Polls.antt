-- ===== src/Service/Admission/Polls.antt =====
-- What a poll of crates/yams-service/src/service.rs tells of the bytes that a connection delivered.
use mathlib.Core.List.{append-nil, append_assoc}
use yams.Prelude.{
  min, ◌≡◌, refl, sym, ap, ◌∙◌, inl, inr, Bool, Option, none, some, List, [], ◌∷◌, ◌++◌, take,
  Result, ok, err, Option-cases,
}
use yams.Protocol.Errors.{ProtocolError, interrupted, would_block, timed_out, write_zero, other}
use yams.Protocol.Frame.{Bytes, FrameReader, want, frame, feed}
use yams.Protocol.Frame.Reader.{received, IsWellFormed}
use yams.Protocol.Frame.Reader.Feed.{Commits, feed-Feeds}
use yams.Protocol.Frame.Reader.Complete.{frame_of, frame-eq-frame_of}
use yams.Service.Admission.{
  Arrival, arrived, read_failed, AdmissionPoll, incomplete, failed, expired, complete,
  poll_admission, decoded, buffer_bytes,
}

module _ {Request : Type 0} (decode_request : Bytes → Option Request) where
  -- A request has been delivered as one whole frame; an incomplete one is no whole frame yet.
  abbrev pub Delivered : Bytes → AdmissionPoll Request → Type 0
  Delivered bytes incomplete = frame_of bytes ≡ none
  Delivered bytes failed = Unit
  Delivered bytes expired = Unit
  Delivered bytes (complete request) =
      (body : Bytes) × (frame_of bytes ≡ some body) × (decode_request body ≡ some request)

  -- The reader has taken in more bytes, and nothing else of it changed.
  pub record Polls (reader : FrameReader) (out : AdmissionPoll Request × FrameReader) : Type 0 where
    pub more : Bytes
    pub takes : received out.1 ≡ received reader ++ more
    pub keeps : IsWellFormed out.1
    pub same_limit : out.1.limit ≡ reader.limit
    pub delivered : Delivered (received out.1) out.0

  decoded-Delivered :
      (bytes body : Bytes) (request : Option Request)
      → frame_of bytes ≡ some body
      → decode_request body ≡ request
      → Delivered bytes (decoded request)
  decoded-Delivered bytes body none e d = tt
  decoded-Delivered bytes body (some request) e d = (body, e, d)

  -- A poll that reads nothing more.
  stays :
      (reader : FrameReader) (outcome : AdmissionPoll Request)
      → IsWellFormed reader
      → Delivered (received reader) outcome
      → Polls reader (outcome, reader)
  stays reader outcome w h = record {
    more = [];
    takes = sym (append-nil (received reader));
    keeps = w;
    same_limit = refl;
    delivered = h;
  }

  decoded-Polls :
      (reader : FrameReader) (body : Bytes)
      → IsWellFormed reader
      → frame reader ≡ some body
      → Polls reader (decoded (decode_request body), reader)
  decoded-Polls reader body w e = stays reader (decoded (decode_request body)) w (
      decoded-Delivered (received reader) body (decode_request body)
        (sym (frame-eq-frame_of reader w) ∙ e) refl)

  open-Polls :
      (reader : FrameReader)
      → IsWellFormed reader
      → frame reader ≡ none
      → Polls reader (incomplete, reader)
  open-Polls reader w e = stays reader incomplete w (sym (frame-eq-frame_of reader w) ∙ e)

  -- More bytes first, and then the poll of the reader that has them.
  later-Polls :
      (reader next : FrameReader) (bytes : Bytes) (out : AdmissionPoll Request × FrameReader)
      → received next ≡ received reader ++ bytes
      → next.limit ≡ reader.limit
      → Polls next out
      → Polls reader out
  later-Polls reader next bytes out taken limit p = record {
    more = bytes ++ p.more;
    takes =
        p.takes
        ∙ ap (λ (b : Bytes). b ++ p.more) taken
        ∙ append_assoc (received reader) bytes p.more;
    keeps = p.keeps;
    same_limit = p.same_limit ∙ limit;
    delivered = p.delivered;
  }

-- Empty input is an error too, so `feed` keeps a reader well-formed on all input.
record Fed (r : FrameReader) (input : Bytes) (out : FrameReader × Result ProtocolError Bool)
    : Type 0 where
  keeps : IsWellFormed out.0
  same_limit : out.0.limit ≡ r.limit
  commits : Commits r input out.0 out.1

feed-Fed :
    (r : FrameReader) (input : Bytes) → IsWellFormed r → frame r ≡ none → Fed r input (feed r input)
unfolding feed
feed-Fed r [] w open' = rw (open', feed) (record { keeps = w; same_limit = refl; commits = refl })
feed-Fed r (b ∷ bs) w open' =
    let f = feed-Feeds r (b ∷ bs) w open' (λ e. cc) in
    record { keeps = f.keeps; same_limit = f.same_limit; commits = f.commits }

module _ {Request : Type 0} (decode_request : Bytes → Option Request) where
  Fed-Polls :
      (reads : List Arrival) (r : FrameReader) (input : Bytes)
      (fed : FrameReader × Result ProtocolError Bool)
      → Fed r input fed
      → Polls decode_request fed.0 (poll_admission decode_request reads fed.0)
      → Polls decode_request r (elim fed.1 [
        | ok _ ↦ poll_admission decode_request reads fed.0
        | err _ ↦ (failed, fed.0)
      ])
  Fed-Polls reads r input (next, ok done) f p =
      later-Polls decode_request r next input _ f.commits f.same_limit p
  Fed-Polls reads r input (next, err e) f p = record {
    more = [];
    takes = ap received f.commits ∙ sym (append-nil (received r));
    keeps = f.keeps;
    same_limit = f.same_limit;
    delivered = tt;
  }

  -- A poll takes in what it reads and nothing else; a request it returns was delivered as exactly
  -- one frame, and if it is incomplete, no whole frame has been delivered yet.
  pub poll_admission-Polls :
      (reads : List Arrival) (reader : FrameReader)
      → IsWellFormed reader
      → Polls decode_request reader (poll_admission decode_request reads reader)
  unfolding poll_admission
  poll_admission-Polls [] reader w = elim (Option-cases (frame reader)) [
    | inl e ↦ rw (e, poll_admission) (open-Polls decode_request reader w e)
    | inr (body, e) ↦ rw (e, poll_admission) (decoded-Polls decode_request reader body w e)
  ]
  poll_admission-Polls (arrived bytes ∷ reads) reader w = elim (Option-cases (frame reader)) [
    | inl e ↦
        let input = take (min (want reader) buffer_bytes) bytes in
        let f = feed-Fed reader input w e in
        rw (e, poll_admission)
          (Fed-Polls reads reader input (feed reader input) f
            (poll_admission-Polls reads (feed reader input).0 f.keeps))
    | inr (body, e) ↦ rw (e, poll_admission) (decoded-Polls decode_request reader body w e)
  ]
  poll_admission-Polls (read_failed interrupted ∷ reads) reader w =
      elim (Option-cases (frame reader)) [
        | inl e ↦ rw (e, poll_admission) (poll_admission-Polls reads reader w)
        | inr (body, e) ↦ rw (e, poll_admission) (decoded-Polls decode_request reader body w e)
      ]
  poll_admission-Polls (read_failed would_block ∷ reads) reader w =
      elim (Option-cases (frame reader)) [
        | inl e ↦ rw (e, poll_admission) (open-Polls decode_request reader w e)
        | inr (body, e) ↦ rw (e, poll_admission) (decoded-Polls decode_request reader body w e)
      ]
  poll_admission-Polls (read_failed timed_out ∷ reads) reader w =
      elim (Option-cases (frame reader)) [
        | inl e ↦ rw (e, poll_admission) (stays decode_request reader failed w tt)
        | inr (body, e) ↦ rw (e, poll_admission) (decoded-Polls decode_request reader body w e)
      ]
  poll_admission-Polls (read_failed write_zero ∷ reads) reader w =
      elim (Option-cases (frame reader)) [
        | inl e ↦ rw (e, poll_admission) (stays decode_request reader failed w tt)
        | inr (body, e) ↦ rw (e, poll_admission) (decoded-Polls decode_request reader body w e)
      ]
  poll_admission-Polls (read_failed (other code) ∷ reads) reader w =
      elim (Option-cases (frame reader)) [
        | inl e ↦ rw (e, poll_admission) (stays decode_request reader failed w tt)
        | inr (body, e) ↦ rw (e, poll_admission) (decoded-Polls decode_request reader body w e)
      ]
