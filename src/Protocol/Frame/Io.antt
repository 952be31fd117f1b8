-- ===== src/Protocol/Frame/Io.antt =====
-- Blocking streams as frame.rs uses them. A reader or writer answers each system call from a
-- schedule, so short, interrupted and failing calls are covered; `none` means that the schedule
-- ended while the code still waited for a call.
pub mod Reads
pub mod Writes
pub mod Frames
mod Tests
use mathlib.Core.List.{append-nil, append_assoc}
use yams.Prelude.{
  ℕ, zero, suc, ◌+◌, ◌-◌, ◌≤◌, min, ◌≡◌, refl, Bool, Option, none, some, List, [], ◌∷◌, ◌++◌, arith,
  ltb, ◌==◌, if◌then◌else◌, length, take, drop, Result, ok, err,
}
use yams.Protocol.Errors.{
  ErrorKind, interrupted, write_zero, ProtocolError, frame_too_large, truncated_frame, io,
}
use yams.Protocol.Frame.{Bytes, frame_header_bytes, from_be_bytes, to_be_bytes, validate_frame_size}

-- What one `read` or `write` call does: it moves at most that many bytes, or fails.
pub data Call : Type 0 where
  moves : ℕ → Call
  fails : ErrorKind → Call

-- The bytes on the wire (unread, or written so far), and what the next calls do.
pub record Stream : Type 0 where
  pub bytes : Bytes
  pub calls : List Call

-- An action on a stream: a Rust `Result`, and the stream it leaves.
abbrev pub Io : Type 0 → Type 0
Io A = Stream → Option (Result ProtocolError A × Stream)

abbrev pub pure : {A : Type 0} → A → Io A
pure a s = some (ok a, s)

abbrev pub lift : {A : Type 0} → Result ProtocolError A → Io A
lift r s = some (r, s)

abbrev continue_with :
    {A B : Type 0}
    → (A → Io B)
    → Option (Result ProtocolError A × Stream)
    → Option (Result ProtocolError B × Stream)
continue_with f none = none
continue_with f (some (ok a, s)) = f a s
continue_with f (some (err e, s)) = some (err e, s)

infixl 5 ◌>>=◌ ◌>>◌
abbrev pub ◌>>=◌ : {A B : Type 0} → Io A → (A → Io B) → Io B
◌>>=◌ m f s = continue_with f (m s)

abbrev pub ◌>>◌ : {B : Type 0} → Io (Unit {0}) → Io B → Io B
m >> k = m >>= λ _. k

continue_with-eq-ok :
    {A B : Type 0} (f : A → Io B) (o : Option (Result ProtocolError A × Stream)) {b : B}
    {t : Stream}
    → continue_with f o ≡ some (ok b, t)
    → (a : A) × (s : Stream) × (o ≡ some (ok a, s)) × (f a s ≡ some (ok b, t))
continue_with-eq-ok f none h = cc
continue_with-eq-ok f (some (ok a, s)) h = (a, s, refl, h)
continue_with-eq-ok f (some (err e, s)) h = cc

-- Inversion of a block that succeeds.
pub >>=-eq-ok :
    {A B : Type 0} (m : Io A) (f : A → Io B) (s : Stream) {b : B} {t : Stream}
    → (m >>= f) s ≡ some (ok b, t)
    → (a : A) × (u : Stream) × (m s ≡ some (ok a, u)) × (f a u ≡ some (ok b, t))
>>=-eq-ok m f s h = continue_with-eq-ok f (m s) h

-- The loop of `read_exact`: `missing` bytes of the output are still to be filled.
pub read_loop : List Call → Bytes → ℕ → Bytes → Option (Result ProtocolError Bytes × Stream)
read_loop calls unread zero filled = some (ok filled, record { bytes = unread; calls = calls })
read_loop [] unread (suc m) filled = none
read_loop (moves k ∷ calls) unread (suc m) filled =
    let count = min k (min (suc m) (length unread)) in
    let stopped : Option (Result ProtocolError Bytes × Stream) =
      some (err truncated_frame, record { bytes = unread; calls = calls }) in
    let rest = read_loop calls (drop count unread) (suc m - count) (filled ++ take count unread) in
    if count == 0 then stopped else rest
read_loop (fails interrupted ∷ calls) unread (suc m) filled = read_loop calls unread (suc m) filled
read_loop (fails kind ∷ calls) unread (suc m) filled =
    some (err (io kind), record { bytes = unread; calls = calls })

pub read_exact : ℕ → Io Bytes
unfolding read_loop
read_exact size s = read_loop s.calls s.bytes size []

-- The loop of `write_all`, on the input that is not written yet.
pub write_loop : List Call → Bytes → Bytes → ℕ → Option (Result ProtocolError (Unit {0}) × Stream)
write_loop calls written input zero = some (ok tt, record { bytes = written; calls = calls })
write_loop [] written input (suc m) = none
write_loop (moves k ∷ calls) written input (suc m) =
    let count = min k (suc m) in
    let stopped : Option (Result ProtocolError (Unit {0}) × Stream) =
      some (err (io write_zero), record { bytes = written; calls = calls }) in
    let rest = write_loop calls (written ++ take count input) (drop count input) (suc m - count) in
    if count == 0 then stopped else rest
write_loop (fails interrupted ∷ calls) written input (suc m) =
    write_loop calls written input (suc m)
write_loop (fails kind ∷ calls) written input (suc m) =
    some (err (io kind), record { bytes = written; calls = calls })

-- `written < input.len()` counts what is left of the input.
pub write_all : Bytes → Io (Unit {0})
unfolding write_loop
write_all input s = write_loop s.calls s.bytes input (length input)

-- `read_frame`: the declared length is checked before the body is read.
pub read_body : ℕ → Bytes → Io Bytes
read_body limit header =
    let declared = from_be_bytes header in
    if ltb limit declared
    then lift {A = Bytes} (err (frame_too_large declared limit))
    else read_exact declared

pub read_frame : ℕ → Io Bytes
read_frame limit = do header ← read_exact frame_header_bytes; read_body limit header

-- `write_frame`: the length of the body is checked before anything is written.
pub write_frame : Bytes → ℕ → Io (Unit {0})
write_frame body limit = do
  lift (validate_frame_size body limit)
  write_all (to_be_bytes (length body))
  write_all body

-- A schedule on which `size` bytes get through: nothing but interruptions fails, every other call
-- moves a byte at least, and there are `size` of these.
abbrev pub Delivers : ℕ → List Call → Type 0
Delivers zero calls = Unit
Delivers (suc m) [] = ⊥
Delivers (suc m) (moves k ∷ calls) = (1 ≤ k) × Delivers m calls
Delivers (suc m) (fails interrupted ∷ calls) = Delivers (suc m) calls
Delivers (suc m) (fails kind ∷ calls) = ⊥

-- A schedule for more bytes serves for fewer.
pub Delivers-le : (m n : ℕ) (calls : List Call) → m ≤ n → Delivers n calls → Delivers m calls
Delivers-le zero n calls h d = tt
Delivers-le (suc m) zero calls h d = absurd (omega arith)
Delivers-le (suc m) (suc n) [] h d = d
Delivers-le (suc m) (suc n) (moves k ∷ calls) h d = (d.0, Delivers-le m n calls (omega arith) d.1)
Delivers-le (suc m) (suc n) (fails interrupted ∷ calls) h d = Delivers-le (suc m) (suc n) calls h d
Delivers-le (suc m) (suc n) (fails _ ∷ calls) h d = d
