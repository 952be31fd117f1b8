-- ===== src/Protocol/Frame/Reader.antt =====
-- `FrameReader` of crates/yams-protocol/src/frame.rs as a function of the bytes it has been fed:
-- the invariant of a reader, and the agreement of `feed` with a description that has no state.
pub mod Feed
pub mod Complete
use mathlib.Core.List.{append-nil, append_assoc}
use yams.Prelude.{
  ℕ, zero, suc, ◌+◌, ◌-◌, ◌*◌, ◌≤◌, ◌<◌, min, ◌≡◌, refl, sym, ap, ◌∙◌, ◌≢◌, ◌⊎◌, inl, inr, Bool,
  true, false, Option, none, some, List, [], ◌∷◌, ◌++◌, arith, ltb, ◌==◌, if◌then◌else◌, length,
  take, drop, is_empty, length-append, length-take, length-drop, take_all, drop_all,
  take-append-drop, take-append_eq, drop-append_eq, Result, ok, err, Bool-cases,
}
use yams.Protocol.Errors.{
  ProtocolError, frame_too_large, truncated_frame, frame_already_complete, frame_input_too_long,
}
use yams.Protocol.Frame.{
  Bytes, FrameReader, new, want, frame, feed, feed_body, declare_frame, feed_header, feed_partial,
  feed_declared, copy_at, from_be_bytes, to_be_bytes,
}

-- The bytes that a reader has taken in.
received_under : Option ℕ → FrameReader → Bytes
received_under none r = take r.header_len r.header
received_under (some _) r = r.header ++ r.body

pub received : FrameReader → Bytes
unfolding received_under
received r = received_under r.declared r

-- What a declared length says of the rest of the reader's fields.
abbrev Declares : Option ℕ → FrameReader → Type 0
Declares none r = (r.header_len < 4) × (r.body ≡ [])
Declares (some d) r =
    (r.header_len ≡ 4) × (d ≤ r.limit) × (length r.body ≤ d) × (from_be_bytes r.header ≡ d)

pub record IsWellFormed (r : FrameReader) : Type 0 where
  pub header_size : length r.header ≡ 4
  pub declares : Declares r.declared r

-- The answer to all bytes so far, with no reader: a header alone decides too large a frame, and
-- the bytes behind it are compared with the declared length.
pub classify : ℕ → Bytes → Result ProtocolError Bool
classify limit bytes =
    let declared = from_be_bytes bytes in
    if ltb (length bytes) 4
    then ok false
    else if ltb limit declared
    then err (frame_too_large declared limit)
    else if ltb declared (length bytes - 4)
    then err frame_input_too_long
    else ok (length bytes - 4 == declared)

pub new-IsWellFormed : (limit : ℕ) → IsWellFormed (new limit)
unfolding new
new-IsWellFormed limit = record { header_size = refl; declares = (omega arith, refl) }

-- Only the first four bytes count.
pub from_be_bytes-append :
    (xs ys : Bytes) → length xs ≡ 4 → from_be_bytes (xs ++ ys) ≡ from_be_bytes xs
unfolding from_be_bytes
from_be_bytes-append (a ∷ b ∷ c ∷ d ∷ xs) ys h = refl
from_be_bytes-append [] ys h = absurd (omega arith)
from_be_bytes-append (a ∷ []) ys h = absurd (omega arith)
from_be_bytes-append (a ∷ b ∷ []) ys h = absurd (omega arith)
from_be_bytes-append (a ∷ b ∷ c ∷ []) ys h = absurd (omega arith)

pub from-to_be_bytes : (n : ℕ) → n < 4294967296 → from_be_bytes (to_be_bytes n) ≡ n
unfolding from_be_bytes
from-to_be_bytes n h = omega arith

-- Where the source fits, `copy_at` fills the target up to its end.
pub copy_at_end :
    (target : Bytes) (at : ℕ) (source : Bytes)
    → at + length source ≡ length target
    → copy_at target at source ≡ take at target ++ source
unfolding copy_at
copy_at_end target at source h = rw (drop_all (at + length source) target (omega arith), append-nil)

pub take-copy_at :
    (target : Bytes) (at : ℕ) (source : Bytes)
    → at + length source ≤ length target
    → take (at + length source) (copy_at target at source) ≡ take at target ++ source
unfolding copy_at
take-copy_at target at source h = rw (← append_assoc) (
    take-append_eq (at + length source) (take at target ++ source) _
      (omega (arith, length-append (take at target) source, length-take at target)))

pub length-copy_at :
    (target : Bytes) (at : ℕ) (source : Bytes)
    → at + length source ≤ length target
    → length (copy_at target at source) ≡ length target
unfolding copy_at
length-copy_at target at source h = omega (
  arith,
  length-append (take at target) (source ++ drop (at + length source) target),
  length-append source (drop (at + length source) target),
  length-take at target,
  length-drop (at + length source) target,
)

pub classify_short :
    (limit : ℕ) (bytes : Bytes) → length bytes < 4 → classify limit bytes ≡ ok false
unfolding classify
classify_short limit bytes h = ground arith

-- The answer where the header is complete and stands apart from the rest.
abbrev pub settle : ℕ → ℕ → ℕ → Result ProtocolError Bool
settle limit declared size =
    if ltb limit declared
    then err (frame_too_large declared limit)
    else if ltb declared size
    then err frame_input_too_long
    else ok (size == declared)

pub classify-settle :
    (limit : ℕ) (header rest : Bytes)
    → length header ≡ 4
    → classify limit (header ++ rest) ≡ settle limit (from_be_bytes header) (length rest)
unfolding classify
classify-settle limit header rest h =
    rw (from_be_bytes-append header rest h, length-append header rest, h) (ground arith)
