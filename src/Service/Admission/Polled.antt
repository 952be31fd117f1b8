-- ===== src/Service/Admission/Polled.antt =====
-- A poll of crates/yams-service/src/service.rs, described by the bytes received so far and without a
-- reader.
use yams.Prelude.{
  ℕ, ◌-◌, min, ◌≡◌, ◌≢◌, refl, ap, ◌∙◌, ◌⊎◌, Bool, Option, none, some, List, [], ◌∷◌, ◌++◌, arith,
  ltb, if◌then◌else◌, length, take, length-append, length-take, ok, err,
}
use yams.Protocol.Errors.{ProtocolError, ErrorKind, interrupted, would_block}
use yams.Protocol.Frame.{Bytes, FrameReader, want, from_be_bytes}
use yams.Protocol.Frame.Reader.{received, IsWellFormed, classify, from_be_bytes-append}
use yams.Protocol.Frame.Reader.Feed.{
  received-undeclared, received-declared, undeclared_facts, declared_facts,
}
use yams.Protocol.Frame.Reader.Complete.{frame_of}
use yams.Service.Admission.{
  Arrival, arrived, read_failed, AdmissionPoll, incomplete, failed, decoded, buffer_bytes,
}

-- The bytes that the header or the body lacks.
pub wanted : Bytes → ℕ
wanted bytes =
    if ltb (length bytes) 4 then 4 - length bytes else from_be_bytes bytes - (length bytes - 4)

-- What one read gets of the bytes that are there.
abbrev pub read_of : Bytes → Bytes → Bytes
read_of so_far bytes = take (min (wanted so_far) buffer_bytes) bytes

abbrev pub Refuses : ℕ → Bytes → Bytes → Type 0
Refuses limit so_far input =
    (input ≡ []) ⊎ ((e : ProtocolError) × (classify limit (so_far ++ input) ≡ err e))

module _ {Request : Type 0} (decode_request : Bytes → Option Request) (limit : ℕ) where
  -- With `so_far` received, the reads give `more`, and then the outcome.
  pub data Polled : Bytes → List Arrival → Bytes → AdmissionPoll Request → Type 0 where
    framed :
        {so_far : Bytes} {reads : List Arrival} (body : Bytes)
        → frame_of so_far ≡ some body
        → Polled so_far reads [] (decoded (decode_request body))
    drained : {so_far : Bytes} → frame_of so_far ≡ none → Polled so_far [] [] incomplete
    blocked :
        {so_far : Bytes} {reads : List Arrival}
        → frame_of so_far ≡ none
        → Polled so_far (read_failed would_block ∷ reads) [] incomplete
    broken :
        {so_far : Bytes} {reads : List Arrival} (kind : ErrorKind)
        → frame_of so_far ≡ none
        → kind ≢ interrupted
        → kind ≢ would_block
        → Polled so_far (read_failed kind ∷ reads) [] failed
    retried :
        {so_far more : Bytes} {reads : List Arrival} {outcome : AdmissionPoll Request}
        → frame_of so_far ≡ none
        → Polled so_far reads more outcome
        → Polled so_far (read_failed interrupted ∷ reads) more outcome
    refused :
        {so_far : Bytes} {reads : List Arrival} (bytes : Bytes)
        → frame_of so_far ≡ none
        → Refuses limit so_far (read_of so_far bytes)
        → Polled so_far (arrived bytes ∷ reads) [] failed
    taken :
        {so_far more : Bytes} {reads : List Arrival} {outcome : AdmissionPoll Request}
        (bytes : Bytes) (done : Bool)
        → frame_of so_far ≡ none
        → read_of so_far bytes ≢ []
        → classify limit (so_far ++ read_of so_far bytes) ≡ ok done
        → Polled (so_far ++ read_of so_far bytes) reads more outcome
        → Polled so_far (arrived bytes ∷ reads) (read_of so_far bytes ++ more) outcome

want_under :
    (r : FrameReader) (o : Option ℕ)
    → IsWellFormed r
    → r.declared ≡ o
    → want r ≡ wanted (received r)
unfolding want wanted
want_under r none w e =
    let facts = undeclared_facts w e in
    let size = w.header_size in
    let taken = length-take r.header_len r.header in
    let all = ap (length {A = ℕ}) (received-undeclared r e) in
    let wants : want r ≡ 4 - r.header_len = rw (e, want) refl in wants ∙ ground arith
want_under r (some d) w e =
    let facts = declared_facts d w e in
    let size = w.header_size in
    let all = length-append r.header r.body in
    let head = from_be_bytes-append r.header r.body size in
    let wants : want r ≡ d - length r.body = rw (e, want) refl in
    wants ∙ rw (received-declared r d e, head, all, size, facts.3) (ground arith)

pub want-wanted : (r : FrameReader) → IsWellFormed r → want r ≡ wanted (received r)
want-wanted r w = want_under r r.declared w refl
