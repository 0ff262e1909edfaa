-- ===== src/Io/Forward.antt =====
-- `self.project().inner.method(..)`: the call is made on the wrapped object, which goes back into
-- the wrapper; `put` is that wrapper with a new inner object.
use trixter.Tokio.{Result, Polled, PolledRead, AsyncRead, AsyncBufRead, AsyncWrite}
use trixter.Io.Linger.{ResetLinger}

abbrev pub forward : {A T W Cx : Type 0} → (T → W) → Polled A T Cx → Polled A W Cx
forward put (r, inner, cx) = (r, put inner, cx)

abbrev pub forward_read : {T W B Cx : Type 0} → (T → W) → PolledRead T B Cx → PolledRead W B Cx
forward_read put (r, inner, b, cx) = (r, put inner, b, cx)

abbrev forward_linger : {T W : Type 0} → (T → W) → Result (Unit {0}) × T → Result (Unit {0}) × W
forward_linger put (r, inner) = (r, put inner)

-- A wrapper, by how its inner object is read and replaced.
module _ {T W : Type 0} (get : W → T) (put : W → T → W) where
  abbrev pub inner_linger : ⦃l : ResetLinger T⦄ → ResetLinger W
  inner_linger ⦃l⦄ = record {
    set_reset_linger = λ this. forward_linger (put this) (l.set_reset_linger (get this));
  }

  abbrev pub inner_read : {Cx B : Type 0} ⦃r : AsyncRead Cx B T⦄ → AsyncRead Cx B W
  inner_read ⦃r⦄ = record {
    poll_read = λ this cx buf. forward_read (put this) (r.poll_read (get this) cx buf);
  }

  abbrev pub inner_buf_read : {Cx : Type 0} ⦃r : AsyncBufRead Cx T⦄ → AsyncBufRead Cx W
  inner_buf_read ⦃r⦄ = record {
    poll_fill_buf = λ this cx. forward (put this) (r.poll_fill_buf (get this) cx);
    consume = λ this amt. put this (r.consume (get this) amt);
  }

  abbrev pub inner_write : {Cx : Type 0} ⦃w : AsyncWrite Cx T⦄ → AsyncWrite Cx W
  inner_write ⦃w⦄ = record {
    poll_write = λ this cx buf. forward (put this) (w.poll_write (get this) cx buf);
    poll_flush = λ this cx. forward (put this) (w.poll_flush (get this) cx);
    poll_shutdown = λ this cx. forward (put this) (w.poll_shutdown (get this) cx);
    is_write_vectored = λ this. w.is_write_vectored (get this);
    poll_write_vectored =
        λ this cx bufs. forward (put this) (w.poll_write_vectored (get this) cx bufs);
  }
