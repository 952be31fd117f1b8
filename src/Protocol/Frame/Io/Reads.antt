-- ===== src/Protocol/Frame/Io/Reads.antt =====
-- What `read_exact` of frame.rs returns and what it leaves on the stream.
use mathlib.Core.List.{append-nil, append_assoc}
use yams.Prelude.{
  ℕ, zero, suc, ◌+◌, ◌-◌, ◌≤◌, min, ◌≡◌, ap, ◌∙◌, inl, inr, some, List, [], ◌∷◌, ◌++◌, arith, ◌==◌,
  length, take, drop, length-drop, take-drop-add, drop-drop_add, Bool-cases, ok,
}
use yams.Protocol.Errors.{interrupted, would_block, timed_out, write_zero, other}
use yams.Protocol.Frame.{Bytes}
use yams.Protocol.Frame.Io.{
  Call, moves, fails, Stream, read_loop, read_exact, Delivers, Delivers-le,
}

-- The loop has filled its output with the next `missing` bytes, and left the rest.
record Filled (unread : Bytes) (missing : ℕ) (filled got : Bytes) (s : Stream) : Type 0 where
  pub content : got ≡ filled ++ take missing unread
  pub left : s.bytes ≡ drop missing unread
  pub enough : missing ≤ length unread

Filled-count :
    (unread : Bytes) (count m : ℕ) (filled got : Bytes) (s : Stream)
    → count ≤ m
    → count ≤ length unread
    → Filled (drop count unread) (m - count) (filled ++ take count unread) got s
    → Filled unread m filled got s
Filled-count unread count m filled got s h fits f = record {
  content =
      f.content
      ∙ append_assoc filled (take count unread) _
      ∙ ap (λ (b : Bytes). filled ++ b) (take-drop-add count (m - count) m unread (omega arith));
  left = f.left ∙ drop-drop_add count (m - count) m unread (omega arith);
  enough = let e = f.enough in omega (arith, length-drop count unread);
}

read_loop-Filled :
    (calls : List Call) (unread : Bytes) (m : ℕ) (filled got : Bytes) (s : Stream)
    → read_loop calls unread m filled ≡ some (ok got, s)
    → Filled unread m filled got s
unfolding read_loop
read_loop-Filled calls unread zero filled got s h = record {
  content = ground (arith, append-nil filled);
  left = ground arith;
  enough = omega arith;
}
read_loop-Filled [] unread (suc m) filled got s h = cc
read_loop-Filled (moves k ∷ calls) unread (suc m) filled got s h =
    let count = min k (min (suc m) (length unread)) in
    elim (Bool-cases (count == 0)) [
      | inl stopped ↦ absurd (ground arith)
      | inr more ↦ Filled-count unread count (suc m) filled got s (omega arith) (omega arith) (
          read_loop-Filled calls (drop count unread) (suc m - count) (filled ++ take count unread)
            got s (ground arith))
    ]
read_loop-Filled (fails interrupted ∷ calls) unread (suc m) filled got s h =
    read_loop-Filled calls unread (suc m) filled got s h
read_loop-Filled (fails would_block ∷ calls) unread (suc m) filled got s h = cc
read_loop-Filled (fails timed_out ∷ calls) unread (suc m) filled got s h = cc
read_loop-Filled (fails write_zero ∷ calls) unread (suc m) filled got s h = cc
read_loop-Filled (fails (other n) ∷ calls) unread (suc m) filled got s h = cc

-- What is there of a stream on which reading succeeds.
read_loop_total :
    (calls : List Call) (unread : Bytes) (m n t : ℕ) (filled : Bytes)
    → m + n ≤ t
    → Delivers t calls
    → m ≤ length unread
    → (rest : List Call) × (read_loop calls unread m filled
        ≡ some (ok (filled ++ take m unread), record { bytes = drop m unread; calls = rest }))
      × Delivers n rest
unfolding read_loop
read_loop_total calls unread zero n t filled h d fits =
    (calls, rw append-nil, Delivers-le n t calls (omega arith) d)
read_loop_total calls unread (suc m) n zero filled h d fits = absurd (omega arith)
read_loop_total [] unread (suc m) n (suc t) filled h d fits = elim d [ ]
read_loop_total (moves k ∷ calls) unread (suc m) n (suc t) filled h d fits =
    let count = min k (min (suc m) (length unread)) in
    let positive : 1 ≤ count = omega arith in
    let (rest, e, d') =
      read_loop_total calls (drop count unread) (suc m - count) n t (filled ++ take count unread)
        (omega arith) d.1 (omega (arith, length-drop count unread)) in
    let full =
      append_assoc filled (take count unread) _
      ∙ ap (λ (b : Bytes). filled ++ b)
          (take-drop-add count (suc m - count) (suc m) unread (omega arith)) in
    let left = drop-drop_add count (suc m - count) (suc m) unread (omega arith) in
    (rest, ground arith, d')
read_loop_total (fails interrupted ∷ calls) unread (suc m) n (suc t) filled h d fits =
    read_loop_total calls unread (suc m) n (suc t) filled h d fits
read_loop_total (fails would_block ∷ calls) unread (suc m) n (suc t) filled h d fits = elim d [ ]
read_loop_total (fails timed_out ∷ calls) unread (suc m) n (suc t) filled h d fits = elim d [ ]
read_loop_total (fails write_zero ∷ calls) unread (suc m) n (suc t) filled h d fits = elim d [ ]
read_loop_total (fails (other _) ∷ calls) unread (suc m) n (suc t) filled h d fits = elim d [ ]

-- A `read_exact` that succeeds has returned the next `size` bytes, and left those behind them.
pub read_exact-eq-ok :
    (size : ℕ) (got : Bytes) (s t : Stream)
    → read_exact size s ≡ some (ok got, t)
    → (got ≡ take size s.bytes) × (t.bytes ≡ drop size s.bytes) × (size ≤ length s.bytes)
unfolding read_exact
read_exact-eq-ok size got s t h =
    let f = read_loop-Filled s.calls s.bytes size [] got t h in (f.content, f.left, f.enough)

-- With enough bytes on the stream and a schedule that delivers them, it succeeds.
pub read_exact_total :
    (size n : ℕ) (s : Stream)
    → Delivers (size + n) s.calls
    → size ≤ length s.bytes
    → (rest : List Call) × (read_exact size s
        ≡ some (ok (take size s.bytes), record { bytes = drop size s.bytes; calls = rest }))
      × Delivers n rest
unfolding read_exact
read_exact_total size n s d fits =
    read_loop_total s.calls s.bytes size n (size + n) [] (omega arith) d fits
