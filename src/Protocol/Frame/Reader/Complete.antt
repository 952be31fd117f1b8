-- ===== src/Protocol/Frame/Reader/Complete.antt =====
-- `FrameReader::frame` of crates/yams-protocol/src/frame.rs, as a function of the bytes received.
use yams.Prelude.{
  ℕ, ◌-◌, ◌<◌, ◌≡◌, refl, sym, ap, ◌∙◌, Option, none, some, ◌++◌, arith, ltb, ◌==◌, if◌then◌else◌,
  length, drop, length-append, length-take, drop-append_eq,
}
use yams.Protocol.Frame.{Bytes, FrameReader, frame, from_be_bytes}
use yams.Protocol.Frame.Reader.{received, IsWellFormed, from_be_bytes-append}
use yams.Protocol.Frame.Reader.Feed.{
  received-undeclared, received-declared, undeclared_facts, declared_facts,
}

-- The body that the bytes so far amount to.
pub frame_of : Bytes → Option Bytes
frame_of bytes =
    if ltb (length bytes) 4
    then none
    else if length bytes - 4 == from_be_bytes bytes
    then some (drop 4 bytes)
    else none

frame_of_short : (bytes : Bytes) → length bytes < 4 → frame_of bytes ≡ none
unfolding frame_of
frame_of_short bytes h = ground arith

frame_of-append :
    (header body : Bytes)
    → length header ≡ 4
    → frame_of (header ++ body) ≡ (if length body == from_be_bytes header then some body else none)
unfolding frame_of
frame_of-append header body h =
    rw (from_be_bytes-append header body h, length-append header body, h)
      (ground (arith, drop-append_eq 4 header body h))

frame_under-frame_of :
    (r : FrameReader) (o : Option ℕ)
    → IsWellFormed r
    → r.declared ≡ o
    → frame r ≡ frame_of (received r)
unfolding frame
frame_under-frame_of r none w e =
    let facts = undeclared_facts w e in
    let closed : frame r ≡ none = rw (e, frame) in
    closed
    ∙ sym (
        frame_of_short (received r)
          (omega (arith, length-take r.header_len r.header, ap length (received-undeclared r e))))
frame_under-frame_of r (some d) w e =
    let facts = declared_facts d w e in
    let opened : frame r ≡ (if length r.body == d then some r.body else none) = rw (e, frame) in
    opened
    ∙ sym (
        ap frame_of (received-declared r d e)
        ∙ frame_of-append r.header r.body w.header_size
        ∙ rw facts.3)

-- A well-formed reader holds a complete frame exactly when the bytes it received are one, and
-- `frame` is then the bytes behind the header.
pub frame-eq-frame_of : (r : FrameReader) → IsWellFormed r → frame r ≡ frame_of (received r)
frame-eq-frame_of r w = frame_under-frame_of r r.declared w refl
