-- ===== src/Protocol/Frame/Io/Writes.antt =====
-- What `write_all` of frame.rs leaves on the stream, on success and on failure.
use mathlib.Core.List.{append-nil, append_assoc}
use yams.Prelude.{
  ℕ, zero, suc, ◌+◌, ◌-◌, ◌≤◌, min, ◌≡◌, refl, sym, ap, ◌∙◌, inl, inr, some, List, [], ◌∷◌, ◌++◌,
  arith, ◌==◌, length, take, drop, length-drop, take-drop-add, take-append-drop, length_zero,
  Bool-cases, Result, ok, err,
}
use yams.Protocol.Errors.{interrupted, would_block, timed_out, write_zero, other, ProtocolError, io}
use yams.Protocol.Frame.{Bytes}
use yams.Protocol.Frame.Io.{
  Call, moves, fails, Stream, write_loop, write_all, Delivers, Delivers-le,
}

abbrev pub Completes : Bytes → Bytes → Stream → Result ProtocolError (Unit {0}) → Type 0
Completes before input s (ok _) = s.bytes ≡ before ++ input
Completes before input s (err _) = Unit

-- What has been written of the input: all of it on success, a front part of it in any case.
pub record Written (before input : Bytes) (r : Result ProtocolError (Unit {0})) (s : Stream)
    : Type 0 where
  pub part : (n : ℕ) × (s.bytes ≡ before ++ take n input)
  pub whole : Completes before input s r

failed-Written :
    (before input : Bytes) (e : ProtocolError) {r : Result ProtocolError (Unit {0})} {s : Stream}
    → r ≡ err e
    → s.bytes ≡ before
    → Written before input r s
failed-Written before input e h same = record {
  part = (0, same ∙ sym (append-nil before));
  whole = rw h tt;
}

Completes-count :
    (before input : Bytes) (count : ℕ) (r : Result ProtocolError (Unit {0})) (s : Stream)
    → Completes (before ++ take count input) (drop count input) s r
    → Completes before input s r
Completes-count before input count (ok _) s h =
    h
    ∙ append_assoc before (take count input) (drop count input)
    ∙ ap (λ (b : Bytes). before ++ b) (take-append-drop count input)
Completes-count before input count (err _) s h = tt

Written-count :
    (before input : Bytes) (count : ℕ) (r : Result ProtocolError (Unit {0})) (s : Stream)
    → count ≤ length input
    → Written (before ++ take count input) (drop count input) r s
    → Written before input r s
Written-count before input count r s fits w = record {
  part = (
    count + w.part.0,
    w.part.1
        ∙ append_assoc before (take count input) _
        ∙ ap (λ (b : Bytes). before ++ b) (take-drop-add count w.part.0 _ input refl),
  );
  whole = Completes-count before input count r s w.whole;
}

write_loop-Written :
    (calls : List Call) (before input : Bytes) (m : ℕ) (r : Result ProtocolError (Unit {0}))
    (s : Stream)
    → length input ≡ m
    → write_loop calls before input m ≡ some (r, s)
    → Written before input r s
unfolding write_loop
write_loop-Written calls before input zero r s size h =
    let done : s.bytes ≡ before = ground arith in
    let ends : r ≡ ok tt = ground arith in
    let all : before ≡ before ++ input =
      sym (ap (λ (b : Bytes). before ++ b) (length_zero input size) ∙ append-nil before) in
    record { part = (0, done ∙ sym (append-nil before)); whole = rw ends (done ∙ all) }
write_loop-Written [] before input (suc m) r s size h = cc
write_loop-Written (moves k ∷ calls) before input (suc m) r s size h =
    let count = min k (suc m) in
    elim (Bool-cases (count == 0)) [
      | inl stopped ↦ failed-Written before input (io write_zero) (ground arith) (ground arith)
      | inr more ↦ Written-count before input count r s (omega arith) (
          write_loop-Written calls (before ++ take count input) (drop count input) (suc m - count) r
            s (omega (arith, length-drop count input)) (ground arith))
    ]
write_loop-Written (fails interrupted ∷ calls) before input (suc m) r s size h =
    write_loop-Written calls before input (suc m) r s size h
write_loop-Written (fails would_block ∷ calls) before input (suc m) r s size h =
    failed-Written before input (io would_block) (ground arith) (ground arith)
write_loop-Written (fails timed_out ∷ calls) before input (suc m) r s size h =
    failed-Written before input (io timed_out) (ground arith) (ground arith)
write_loop-Written (fails write_zero ∷ calls) before input (suc m) r s size h =
    failed-Written before input (io write_zero) (ground arith) (ground arith)
write_loop-Written (fails (other n) ∷ calls) before input (suc m) r s size h =
    failed-Written before input (io (other n)) (ground arith) (ground arith)

write_loop_total :
    (calls : List Call) (before input : Bytes) (m n t : ℕ)
    → length input ≡ m
    → m + n ≤ t
    → Delivers t calls
    → (rest : List Call) × (write_loop calls before input m
        ≡ some (ok tt, record { bytes = before ++ input; calls = rest }))
      × Delivers n rest
unfolding write_loop
write_loop_total calls before input zero n t size h d =
    (calls, rw (length_zero input size, append-nil), Delivers-le n t calls (omega arith) d)
write_loop_total calls before input (suc m) n zero size h d = absurd (omega arith)
write_loop_total [] before input (suc m) n (suc t) size h d = elim d [ ]
write_loop_total (moves k ∷ calls) before input (suc m) n (suc t) size h d =
    let count = min k (suc m) in
    let positive : 1 ≤ count = omega arith in
    let (rest, e, d') =
      write_loop_total calls (before ++ take count input) (drop count input) (suc m - count) n t
        (omega (arith, length-drop count input)) (omega arith) d.1 in
    let full =
      append_assoc before (take count input) (drop count input)
      ∙ ap (λ (b : Bytes). before ++ b) (take-append-drop count input) in
    (rest, ground arith, d')
write_loop_total (fails interrupted ∷ calls) before input (suc m) n (suc t) size h d =
    write_loop_total calls before input (suc m) n (suc t) size h d
write_loop_total (fails would_block ∷ calls) before input (suc m) n (suc t) size h d = elim d [ ]
write_loop_total (fails timed_out ∷ calls) before input (suc m) n (suc t) size h d = elim d [ ]
write_loop_total (fails write_zero ∷ calls) before input (suc m) n (suc t) size h d = elim d [ ]
write_loop_total (fails (other _) ∷ calls) before input (suc m) n (suc t) size h d = elim d [ ]

-- Whatever the calls do, `write_all` has appended a front part of its input, and all of it on
-- success.
pub write_all-Written :
    (input : Bytes) (r : Result ProtocolError (Unit {0})) (s t : Stream)
    → write_all input s ≡ some (r, t)
    → Written s.bytes input r t
unfolding write_all
write_all-Written input r s t h = write_loop-Written s.calls s.bytes input (length input) r t refl h

-- On a schedule that delivers the input it succeeds.
pub write_all_total :
    (input : Bytes) (n : ℕ) (s : Stream)
    → Delivers (length input + n) s.calls
    → (rest : List Call) × (write_all input s
        ≡ some (ok tt, record { bytes = s.bytes ++ input; calls = rest }))
      × Delivers n rest
unfolding write_all
write_all_total input n s d =
    write_loop_total s.calls s.bytes input (length input) n (length input + n) refl (omega arith) d
