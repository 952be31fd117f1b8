-- ===== src/Protocol/Frame/Io/Frames.antt =====
-- `read_frame` and `write_frame` of frame.rs: what is on the wire, and that one reads the other.
use mathlib.Core.List.{append_assoc}
use yams.Prelude.{
  ℕ, ◌+◌, ◌≤◌, ◌≡◌, sym, ap, ◌∙◌, inl, inr, some, List, [], ◌++◌, arith, ltb, length, length-append,
  length-take, take-append-drop, take-append, drop-append, Bool-cases, Result, ok,
}
use yams.Protocol.Errors.{ProtocolError}
use yams.Protocol.Frame.{Bytes, u32_max, from_be_bytes, to_be_bytes, validate_frame_size}
use yams.Protocol.Frame.Reader.{from-to_be_bytes}
use yams.Protocol.Frame.Io.{
  Call, Stream, lift, >>=-eq-ok, read_exact, read_body, read_frame, write_all, write_frame,
  Delivers, Delivers-le,
}
use yams.Protocol.Frame.Io.Reads.{read_exact-eq-ok, read_exact_total}
use yams.Protocol.Frame.Io.Writes.{write_all-Written, write_all_total}

-- A frame in front of what is left, under the limit.
pub record Framed (limit : ℕ) (bytes body left : Bytes) : Type 0 where
  pub header : Bytes
  pub header_size : length header ≡ 4
  pub splits : bytes ≡ header ++ (body ++ left)
  pub declares : from_be_bytes header ≡ length body
  pub within : length body ≤ limit

read_body-eq-ok :
    (limit : ℕ) (header body : Bytes) (u t : Stream)
    → read_body limit header u ≡ some (ok body, t)
    → (from_be_bytes header ≤ limit) × (read_exact (from_be_bytes header) u ≡ some (ok body, t))
unfolding read_body
read_body-eq-ok limit header body u t h = ground arith

-- A `read_frame` that succeeds has taken one frame off the stream, no byte more and none less.
pub read_frame-Framed :
    (limit : ℕ) (body : Bytes) (s t : Stream)
    → read_frame limit s ≡ some (ok body, t)
    → Framed limit s.bytes body t.bytes
unfolding read_frame
read_frame-Framed limit body s t h =
    let (header, u, read_header, rest) = >>=-eq-ok (read_exact 4) (read_body limit) s h in
    let head = read_exact-eq-ok 4 header s u read_header in
    let (fits, read_rest) = read_body-eq-ok limit header body u t rest in
    let tail = read_exact-eq-ok (from_be_bytes header) body u t read_rest in
    let size : from_be_bytes header ≡ length body = sym (
      ap length tail.0
      ∙ length-take (from_be_bytes header) u.bytes
      ∙ (let e = tail.2 in omega arith)) in
    record {
      header = header;
      header_size = omega (arith, ap length head.0, length-take 4 s.bytes);
      splits =
          sym (rw (tail.0, tail.1, take-append-drop, head.0, head.1) (take-append-drop 4 s.bytes));
      declares = size;
      within = omega arith;
    }

validate_frame_size_within :
    (body : Bytes) (limit : ℕ)
    → length body ≤ limit
    → length body ≤ u32_max
    → validate_frame_size body limit ≡ ok tt
unfolding validate_frame_size
validate_frame_size_within body limit h k = ground arith

validate_frame_size-eq-ok :
    (body : Bytes) (limit : ℕ)
    → validate_frame_size body limit ≡ ok tt
    → (length body ≤ limit) × (length body ≤ u32_max)
unfolding validate_frame_size
validate_frame_size-eq-ok body limit h = ground arith

lift-eq-ok :
    {A : Type 0} (r : Result ProtocolError A) (s t : Stream) {a : A}
    → lift r s ≡ some (ok a, t)
    → (r ≡ ok a) × (s ≡ t)
lift-eq-ok r s t h = ground arith

-- On success the frame is on the wire, behind what was there, and the body was not too large.
pub write_frame-eq-ok :
    (body : Bytes) (limit : ℕ) (s t : Stream)
    → write_frame body limit s ≡ some (ok tt, t)
    → (t.bytes ≡ s.bytes ++ (to_be_bytes (length body) ++ body))
      × (length body ≤ limit)
      × (length body ≤ u32_max)
unfolding write_frame
write_frame-eq-ok body limit s t h =
    let (_, u, valid, rest) = >>=-eq-ok (lift (validate_frame_size body limit)) _ s h in
    let (_, v, first, second) = >>=-eq-ok (write_all (to_be_bytes (length body))) _ u rest in
    let (checked, same) = lift-eq-ok (validate_frame_size body limit) s u valid in
    let (fits, fits_u32) = validate_frame_size-eq-ok body limit checked in
    let head = (write_all-Written (to_be_bytes (length body)) (ok tt) u v first).whole in
    let tail = (write_all-Written body (ok tt) v t second).whole in
    (
      tail
          ∙ ap (λ (b : Bytes). b ++ body) head
          ∙ append_assoc u.bytes (to_be_bytes (length body)) body
          ∙ ap (λ (w : Stream). w.bytes ++ (to_be_bytes (length body) ++ body)) (sym same),
      fits,
      fits_u32,
    )

read_body_within :
    (limit : ℕ) (header : Bytes) (u : Stream) {n : ℕ}
    → from_be_bytes header ≡ n
    → n ≤ limit
    → read_body limit header u ≡ read_exact n u
unfolding read_body
read_body_within limit header u {n} e fits =
    rw e
      (elim (Bool-cases (ltb limit n)) [ inl large ↦ absurd (ground arith) | inr small ↦ rw small ])

read_frame_total :
    (limit : ℕ) (body left : Bytes) (calls : List Call)
    → length body ≤ limit
    → length body ≤ u32_max
    → Delivers (4 + length body) calls
    → (rest : List Call) × (read_frame limit
          (record { bytes = to_be_bytes (length body) ++ (body ++ left); calls = calls })
        ≡ some (ok body, record { bytes = left; calls = rest }))
unfolding read_frame
read_frame_total limit body left calls fits small d =
    let wire = to_be_bytes (length body) ++ (body ++ left) in
    let (calls', head, d') =
      read_exact_total 4 (length body) (record { bytes = wire; calls = calls }) d (omega arith) in
    let (rest, tail, _) =
      read_exact_total (length body) 0 (record { bytes = body ++ left; calls = calls' })
        (Delivers-le _ (length body) calls' (omega arith) d')
        (omega (arith, length-append body left)) in
    let size = from-to_be_bytes (length body) (omega arith) in
    (
      rest,
      rw head (
          read_body_within limit (to_be_bytes (length body)) _ size fits
          ∙ tail
          ∙ rw (take-append body left, drop-append body left)),
    )

-- What `write_frame` wrote to a fresh stream, `read_frame` with the same limit reads back on any
-- schedule that delivers its bytes, and leaves whatever was sent behind it.
pub write_frame-read_frame :
    (body : Bytes) (limit : ℕ) (s t : Stream) (left : Bytes) (calls : List Call)
    → s.bytes ≡ []
    → write_frame body limit s ≡ some (ok tt, t)
    → Delivers (4 + length body) calls
    → (rest : List Call) × (read_frame limit (record { bytes = t.bytes ++ left; calls = calls })
        ≡ some (ok body, record { bytes = left; calls = rest }))
write_frame-read_frame body limit s t left calls fresh h d =
    let (wire, fits, small) = write_frame-eq-ok body limit s t h in
    let sent : t.bytes ++ left ≡ to_be_bytes (length body) ++ (body ++ left) =
      ap (λ (b : Bytes). b ++ left)
        (wire ∙ ap (λ (b : Bytes). b ++ (to_be_bytes (length body) ++ body)) fresh) in
    let (rest, e) = read_frame_total limit body left calls fits small d in (rest, rw sent e)

-- On a schedule that delivers the frame, a body within the limit is written.
pub write_frame_total :
    (body : Bytes) (limit : ℕ) (s : Stream)
    → length body ≤ limit
    → length body ≤ u32_max
    → Delivers (4 + length body) s.calls
    → (rest : List Call) × (write_frame body limit s
        ≡ some (
          ok tt,
          record { bytes = s.bytes ++ (to_be_bytes (length body) ++ body); calls = rest },
        ))
unfolding write_frame
write_frame_total body limit s fits small d =
    let (calls', head, d') = write_all_total (to_be_bytes (length body)) (length body) s d in
    let mid = record s { bytes = s.bytes ++ to_be_bytes (length body); calls = calls' } in
    let (rest, tail, _) =
      write_all_total body 0 mid (Delivers-le _ (length body) calls' (omega arith) d') in
    (
      rest,
      rw (validate_frame_size_within body limit fits small, head)
          (tail ∙ rw (append_assoc s.bytes (to_be_bytes (length body)) body)),
    )
