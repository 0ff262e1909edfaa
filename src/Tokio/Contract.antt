-- ===== src/Tokio/Contract.antt =====
-- What the documentation of `AsyncWrite` promises of an implementation, told by the bytes that an
-- object has accepted so far; and of `ReadBuf`.
use trixter.Prelude.{ℕ, ◌+◌, ◌≤◌, ◌≡◌, List, ◌++◌, take, length, concat}
use trixter.Tokio.Task.{Poll, pending, ready, Result, ok, err, panic, spin}
use trixter.Tokio.Traits.{AsyncWrite, AsyncRead, AsyncBufRead, ReadBuf}

-- A write of `buf` took `old` to `new`: a successful one accepts a prefix, of the length that it
-- reports; one that is pending, fails or does not end accepts nothing; none panics.
abbrev pub Accepts : Poll (Result ℕ) → List ℕ → List ℕ → List ℕ → Type 0
Accepts pending buf old new = new ≡ old
Accepts (ready (ok n)) buf old new = (n ≤ length buf) × (new ≡ old ++ take n buf)
Accepts (ready (err e)) buf old new = new ≡ old
Accepts (ready panic) buf old new = ⊥
Accepts (ready spin) buf old new = new ≡ old

-- A flush or a shutdown accepts no byte, and does not panic.
abbrev pub Keeps {ℓ} : {A : Type ℓ} → Poll (Result A) → List ℕ → List ℕ → Type 0
Keeps pending old new = new ≡ old
Keeps (ready (ok a)) old new = new ≡ old
Keeps (ready (err e)) old new = new ≡ old
Keeps (ready panic) old new = ⊥
Keeps (ready spin) old new = new ≡ old

pub record WriteContract {Cx T : Type 0} (w : AsyncWrite Cx T) (sent : T → List ℕ) : Type 0 where
  pub write_law :
      (t : T) (cx : Cx) (buf : List ℕ)
      → Accepts (w.poll_write t cx buf).0 buf (sent t) (sent (w.poll_write t cx buf).1)
  pub flush_law :
      (t : T) (cx : Cx) → Keeps (w.poll_flush t cx).0 (sent t) (sent (w.poll_flush t cx).1)
  pub shutdown_law :
      (t : T) (cx : Cx) → Keeps (w.poll_shutdown t cx).0 (sent t) (sent (w.poll_shutdown t cx).1)
  pub vectored_law :
      (t : T) (cx : Cx) (bufs : List (List ℕ))
      → Accepts
          (w.poll_write_vectored t cx bufs).0
          (concat bufs)
          (sent t)
          (sent (w.poll_write_vectored t cx bufs).1)

pub record ReadBufLaws {B : Type 0} (r : ReadBuf B) : Type 0 where
  pub filled-put_slice :
      (b : B) (xs : List ℕ)
      → length xs ≤ r.remaining b
      → r.filled (r.put_slice b xs) ≡ r.filled b ++ xs
  pub remaining-put_slice :
      (b : B) (xs : List ℕ)
      → length xs ≤ r.remaining b
      → r.remaining (r.put_slice b xs) + length xs ≡ r.remaining b

-- A read puts the bytes that it takes from the stream at the end of the caller's buffer. `given` are
-- the bytes that the stream has given out so far.
pub record Gives {B : Type 0} (r : ReadBuf B) (old_given new_given : List ℕ) (buf buf' : B)
    : Type 0 where
  pub chunk : List ℕ
  pub taken : new_given ≡ old_given ++ chunk
  pub put : r.filled buf' ≡ r.filled buf ++ chunk

pub record ReadContract {Cx B T : Type 0} (rb : ReadBuf B) (r : AsyncRead Cx B T)
    (given : T → List ℕ) : Type 0 where
  pub read_law :
      (t : T) (cx : Cx) (buf : B)
      → let (res, t', buf', cx') = r.poll_read t cx buf in Gives rb (given t) (given t') buf buf'

-- A filling of the inner buffer takes nothing off the stream. When it shows `rem`, consuming `n` of
-- these bytes takes just the first `n`.
abbrev pub Fills :
    {T : Type 0} → (T → List ℕ) → (T → ℕ → T) → Poll (Result (List ℕ)) → List ℕ → T → Type 0
Fills taken consume (ready (ok rem)) old t =
    (taken t ≡ old) × ((n : ℕ) → n ≤ length rem → taken (consume t n) ≡ old ++ take n rem)
Fills taken consume (ready (err e)) old t = taken t ≡ old
Fills taken consume (ready panic) old t = taken t ≡ old
Fills taken consume (ready spin) old t = taken t ≡ old
Fills taken consume pending old t = taken t ≡ old

pub record BufReadContract {Cx T : Type 0} (r : AsyncBufRead Cx T) (taken : T → List ℕ)
    : Type 0 where
  pub fill_law :
      (t : T) (cx : Cx)
      → let (res, t', cx') = r.poll_fill_buf t cx in Fills taken r.consume res (taken t) t'
