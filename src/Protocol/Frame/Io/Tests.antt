-- ===== src/Protocol/Frame/Io/Tests.antt =====
-- Runs of the blocking frame functions of crates/yams-protocol/src/frame.rs, and their theorems at
-- examples.
use yams.Prelude.{◌≡◌, refl, some, List, [], ◌∷◌, ◌++◌, arith, ok, err}
use yams.Protocol.Errors.{interrupted, timed_out, io}
use yams.Protocol.Frame.{Bytes, validate_frame_size, from_be_bytes}
use yams.Protocol.Frame.Io.{
  Call, moves, fails, Stream, read_exact, read_body, read_frame, write_all, write_frame,
}
use yams.Protocol.Frame.Io.Writes.{Written, write_all-Written}
use yams.Protocol.Frame.Io.Frames.{
  Framed, read_frame-Framed, write_frame-read_frame, write_frame_total,
}

abbrev body : Bytes
body = 7 ∷ 8 ∷ []

abbrev bumpy : List Call
bumpy = moves 3 ∷ fails interrupted ∷ moves 9 ∷ moves 1 ∷ moves 1 ∷ moves 4 ∷ moves 1 ∷ []

abbrev fresh : Stream
fresh = record { bytes = []; calls = bumpy }

abbrev sent : Stream
sent = record { bytes = 0 ∷ 0 ∷ 0 ∷ 2 ∷ 7 ∷ 8 ∷ []; calls = moves 4 ∷ moves 1 ∷ [] }

abbrev incoming : Stream
incoming = record { bytes = 0 ∷ 0 ∷ 0 ∷ 2 ∷ 7 ∷ 8 ∷ 9 ∷ []; calls = bumpy }

write_frame_runs : write_frame body 10 fresh ≡ some (ok tt, sent)
unfolding write_frame write_all validate_frame_size
write_frame_runs = refl

read_frame_runs :
    read_frame 10 incoming
    ≡ some (ok body, record { bytes = 9 ∷ []; calls = moves 4 ∷ moves 1 ∷ [] })
unfolding read_frame read_body read_exact from_be_bytes
read_frame_runs = refl

write_frame_fails :
    write_frame body 10 (record { bytes = []; calls = moves 5 ∷ fails timed_out ∷ [] })
    ≡ some (err (io timed_out), record { bytes = 0 ∷ 0 ∷ 0 ∷ 2 ∷ []; calls = [] })
unfolding write_frame write_all validate_frame_size
write_frame_fails = refl

read_frame-Framed_example : Framed 10 incoming.bytes body (9 ∷ [])
unfolding read_frame read_body read_exact from_be_bytes
read_frame-Framed_example = read_frame-Framed 10 body incoming _ refl

write_all-Written_example :
    Written [] body (err (io timed_out)) (record { bytes = 7 ∷ []; calls = [] })
unfolding write_all
write_all-Written_example =
    write_all-Written body (err (io timed_out))
      (record { bytes = []; calls = moves 1 ∷ fails timed_out ∷ [] }) _ refl

write_frame-read_frame_example :
    (rest : List Call) × (read_frame 10 (record { bytes = sent.bytes ++ 9 ∷ []; calls = bumpy })
      ≡ some (ok body, record { bytes = 9 ∷ []; calls = rest }))
unfolding write_frame write_all validate_frame_size
write_frame-read_frame_example =
    write_frame-read_frame body 10 fresh sent (9 ∷ []) bumpy refl refl (omega arith)

write_frame_total_example :
    (rest : List Call) × (write_frame body 10 fresh
      ≡ some (ok tt, record { bytes = 0 ∷ 0 ∷ 0 ∷ 2 ∷ 7 ∷ 8 ∷ []; calls = rest }))
write_frame_total_example =
    write_frame_total body 10 fresh (omega arith) (omega arith) (omega arith)
