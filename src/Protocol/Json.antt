-- ===== src/Protocol/Json.antt =====
-- `encode`, `decode_request` and `decode_response` of crates/yams-protocol/src/json.rs. serde_json
-- is given by what it passes to the code: a reader answers with the value at the start of a text,
-- object by object and key by key, and whether only white space is behind it; a writer answers
-- with the pieces that it writes. Texts are lists of bytes.
pub mod Raw
pub mod Encode
pub mod Decode
pub mod Nesting
pub mod Valid
pub mod Trips
mod Tests
use yams.Prelude.{ℕ, Bool}
use yams.Core.Text.{Text}

mutual
  -- A JSON value as serde_json meets it; `malformed` is a value that it cannot read.
  pub data Json : Type 0 where
    null : Json
    boolean : Bool → Json
    number : ℕ → Json
    text : Text → Json
    array : Items → Json
    object : Entries → Json
    malformed : Json

  pub data Items : Type 0 where
    nil : Items
    item : Json → Items → Items

  -- The entries of an object up to its end, or to a place that cannot be read.
  pub data Entries : Type 0 where
    closed : Entries
    broken : Entries
    entry : Text → Json → Entries → Entries
