-- ===== src/Protocol/Frame.antt =====
-- crates/yams-protocol/src/frame.rs: four-byte big-endian length prefixes, the incremental
-- `FrameReader`, and the sizes that a frame may have.
pub mod Io
pub mod Reader
mod Tests
use yams.Prelude.{
  ℕ, ◌+◌, ◌-◌, ◌*◌, ◌/◌, ◌%◌, ◌^◌, min, Bool, false, ◌||◌, Option, none, some, List, [], ◌∷◌, ◌++◌,
  ltb, ◌==◌, if◌then◌else◌, length, take, drop, is_empty, Result, ok, err,
}
use yams.Protocol.Errors.{
  ProtocolError, frame_too_large, truncated_frame, frame_already_complete, frame_input_too_long,
}

abbrev pub Bytes : Type 0
Bytes = List ℕ

abbrev pub frame_header_bytes : ℕ
frame_header_bytes = 4

abbrev pub u32_max : ℕ
u32_max = 2 ^ 32 - 1

-- `u32::to_be_bytes`
abbrev pub to_be_bytes : ℕ → Bytes
to_be_bytes n = (n / 2 ^ 24 % 256) ∷ (n / 2 ^ 16 % 256) ∷ (n / 2 ^ 8 % 256) ∷ (n % 256) ∷ []

-- `u32::from_be_bytes`; the code calls it on four bytes only.
pub from_be_bytes : Bytes → ℕ
from_be_bytes (a ∷ b ∷ c ∷ d ∷ _) = ((a * 256 + b) * 256 + c) * 256 + d
from_be_bytes _ = 0

-- `target[at..at + source.len()].copy_from_slice(source)`
pub copy_at : Bytes → ℕ → Bytes → Bytes
copy_at target at source = take at target ++ (source ++ drop (at + length source) target)

pub record FrameReader : Type 0 where
  pub limit : ℕ
  pub header : Bytes
  pub header_len : ℕ
  pub declared : Option ℕ
  pub body : Bytes

unfoldable pub new : ℕ → FrameReader
new limit = record {
  limit = limit;
  header = 0 ∷ 0 ∷ 0 ∷ 0 ∷ [];
  header_len = 0;
  declared = none;
  body = [];
}

-- `saturating_sub` is the subtraction of ℕ. `FRAME_HEADER_BYTES - self.header_len` cannot
-- underflow in a well-formed reader.
unfoldable pub want : FrameReader → ℕ
want r = elim r.declared [
  | some declared ↦ declared - length r.body
  | none ↦ frame_header_bytes - r.header_len
]

unfoldable pub frame : FrameReader → Option Bytes
frame r = elim r.declared [
  | none ↦ none
  | some declared ↦ if length r.body == declared then some r.body else none
]

-- What `feed` does once the header is declared.
feed_body : FrameReader → ℕ → Bytes → FrameReader × Result ProtocolError Bool
feed_body r declared input =
    if ltb (declared - length r.body) (length input)
    then (r, err frame_input_too_long)
    else (record r { body = r.body ++ input }, ok (length (r.body ++ input) == declared))

-- The checks of `feed` on a complete header and the input behind it, and its commit.
declare_frame : FrameReader → Bytes → Bytes → FrameReader × Result ProtocolError Bool
declare_frame r complete rest =
    let declared = from_be_bytes complete in
    if ltb r.limit declared
    then (r, err (frame_too_large declared r.limit))
    else if ltb declared (length rest)
    then (r, err frame_input_too_long)
    else (
      record r {
        header = complete;
        header_len = frame_header_bytes;
        declared = some declared;
        body = r.body ++ rest;
      },
      ok (length (r.body ++ rest) == declared),
    )

-- What `feed` does with the input that completes the header.
feed_header : FrameReader → Bytes → FrameReader × Result ProtocolError Bool
feed_header r input =
    let needed = frame_header_bytes - r.header_len in
    declare_frame r (copy_at r.header r.header_len (take needed input)) (drop needed input)

feed_partial : FrameReader → Bytes → FrameReader × Result ProtocolError Bool
feed_partial r input = (
  record r {
    header = copy_at r.header r.header_len input;
    header_len = r.header_len + length input;
  },
  ok false,
)

-- Everything behind the two early returns of `feed`, on `self.declared`.
feed_declared : Option ℕ → FrameReader → Bytes → FrameReader × Result ProtocolError Bool
feed_declared (some declared) r input = feed_body r declared input
feed_declared none r input =
    if ltb (length input) (frame_header_bytes - r.header_len)
    then feed_partial r input
    else feed_header r input

-- `&mut self` is the state passed in and out.
unfoldable pub feed : FrameReader → Bytes → FrameReader × Result ProtocolError Bool
unfolding frame feed_body declare_frame feed_header feed_partial feed_declared copy_at from_be_bytes
feed r input = elim (frame r) [
  | some _ ↦ (r, err frame_already_complete)
  | none ↦ if is_empty input then (r, err truncated_frame) else feed_declared r.declared r input
]

pub validate_frame_size : Bytes → ℕ → Result ProtocolError (Unit {0})
validate_frame_size body limit =
    if ltb limit (length body) || ltb u32_max (length body)
    then err (frame_too_large (length body) (min limit u32_max))
    else ok tt
