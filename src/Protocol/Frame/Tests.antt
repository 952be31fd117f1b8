-- ===== src/Protocol/Frame/Tests.antt =====
-- Runs of the frame reader of crates/yams-protocol/src/frame.rs, and its theorems at examples.
use yams.Prelude.{◌≡◌, refl, true, false, some, [], ◌∷◌, ok, err}
use yams.Protocol.Errors.{frame_too_large, frame_already_complete, frame_input_too_long}
use yams.Protocol.Frame.{Bytes, FrameReader, new, want, frame, feed}
use yams.Protocol.Frame.Reader.{received, new-IsWellFormed}
use yams.Protocol.Frame.Reader.Feed.{Feeds, feed-Feeds}
use yams.Protocol.Frame.Reader.Complete.{frame_of, frame-eq-frame_of}

abbrev start : FrameReader
start = new 10

abbrev first_part : Bytes
first_part = 0 ∷ 0 ∷ 0 ∷ 2 ∷ 7 ∷ []

abbrev halfway : FrameReader
halfway = (feed start first_part).0

feed_runs :
    ((feed start first_part).1 ≡ ok false)
    × (want halfway ≡ 1)
    × ((feed halfway (8 ∷ [])).1 ≡ ok true)
    × (frame (feed halfway (8 ∷ [])).0 ≡ some (7 ∷ 8 ∷ []))
    × ((feed halfway (8 ∷ 9 ∷ [])).1 ≡ err frame_input_too_long)
    × ((feed start (0 ∷ 0 ∷ 0 ∷ 11 ∷ [])).1 ≡ err (frame_too_large 11 10))
    × ((feed (feed halfway (8 ∷ [])).0 (1 ∷ [])).1 ≡ err frame_already_complete)
unfolding feed want new
feed_runs = (refl, refl, refl, refl, refl, refl, refl)

feed-Feeds_example : Feeds start first_part (feed start first_part)
unfolding frame new
feed-Feeds_example = feed-Feeds start first_part (new-IsWellFormed 10) refl (λ e. cc)

frame-eq-frame_of_example : frame start ≡ frame_of (received start)
frame-eq-frame_of_example = frame-eq-frame_of start (new-IsWellFormed 10)
