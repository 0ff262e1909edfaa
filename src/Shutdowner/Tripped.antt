-- ===== src/Shutdowner/Tripped.antt =====
-- tokio-netem/src/shutdowner.rs: the error is delivered once, and a tripped stream stays tripped.
use trixter.Prelude.{ℕ, ◌≡◌, refl, List, none, some}
use trixter.Tokio.{
  ready, err, IoError, other, Payload, Polled, AsyncWrite, AsyncRead, AsyncBufRead, Receiver,
}
use trixter.Shutdowner.{
  Shutdowner, new, shut_down, poll_error, unless_tripped, poll_read, shutdowner_write,
  shutdowner_read, shutdowner_buf_read,
}

-- The receiver is gone.
abbrev pub tripped : {T Rx : Type 0} → T → Shutdowner T Rx
tripped inner = record { inner = inner; err_rx = none }

module _ {Cx T Rx : Type 0} ⦃rc : Receiver Cx Rx⦄ where
  -- Each operation that polls fails with `e` and leaves `this'` and `cx'`, and the caller's buffer.
  abbrev pub AllFail :
      {B : Type 0} ⦃w : AsyncWrite Cx T⦄ ⦃r : AsyncRead Cx B T⦄ ⦃br : AsyncBufRead Cx T⦄
      → Shutdowner T Rx
      → Cx
      → List ℕ
      → List (List ℕ)
      → B
      → IoError
      → Shutdowner T Rx
      → Cx
      → Type 0
  AllFail this cx buf bufs b e this' cx' =
      (shutdowner_write.poll_write this cx buf ≡ (ready (err e), this', cx'))
      × (shutdowner_write.poll_write_vectored this cx bufs ≡ (ready (err e), this', cx'))
      × (shutdowner_write.poll_flush this cx ≡ (ready (err e), this', cx'))
      × (shutdowner_write.poll_shutdown this cx ≡ (ready (err e), this', cx'))
      × (shutdowner_read.poll_read this cx b ≡ (ready (err e), this', b, cx'))
      × (shutdowner_buf_read.poll_fill_buf this cx ≡ (ready (err e), this', cx'))

  -- What the receiver has told an operation decides it.
  failing :
      {A : Type 0} (f : T → Cx → Polled A T Cx) (this this' : Shutdowner T Rx) (cx cx' : Cx)
      (e : IoError)
      → poll_error this cx ≡ (ready (err e), this', cx')
      → unless_tripped f this cx ≡ (ready (err e), this', cx')
  unfolding unless_tripped
  failing f this this' cx cx' e h = rw h refl

  failing_read :
      {B : Type 0} ⦃r : AsyncRead Cx B T⦄ (this this' : Shutdowner T Rx) (cx cx' : Cx) (b : B)
      (e : IoError)
      → poll_error this cx ≡ (ready (err e), this', cx')
      → poll_read this cx b ≡ (ready (err e), this', b, cx')
  unfolding poll_read
  failing_read this this' cx cx' b e h = rw h refl

  all_failing :
      {B : Type 0} ⦃w : AsyncWrite Cx T⦄ ⦃r : AsyncRead Cx B T⦄ ⦃br : AsyncBufRead Cx T⦄
      (this this' : Shutdowner T Rx) (cx cx' : Cx) (buf : List ℕ) (bufs : List (List ℕ)) (b : B)
      (e : IoError)
      → poll_error this cx ≡ (ready (err e), this', cx')
      → AllFail this cx buf bufs b e this' cx'
  all_failing ⦃w⦄ ⦃r⦄ ⦃br⦄ this this' cx cx' buf bufs b e h = (
    failing (λ inner c. w.poll_write inner c buf) this this' cx cx' e h,
    failing (λ inner c. w.poll_write_vectored inner c bufs) this this' cx cx' e h,
    failing w.poll_flush this this' cx cx' e h,
    failing w.poll_shutdown this this' cx cx' e h,
    failing_read this this' cx cx' b e h,
    failing br.poll_fill_buf this this' cx cx' e h,
  )

  still_tripped :
      (inner : T) (cx : Cx)
      → poll_error {Rx = Rx} (tripped inner) cx ≡ (ready (err shut_down), tripped inner, cx)
  unfolding poll_error
  still_tripped inner cx = refl

  -- Of a shutdowner without a receiver, a write, a vectored write, a flush, a shutdown, a read and a
  -- filling of the buffer return SHUTDOWN_ERROR and change neither the shutdowner nor the inner
  -- object, the caller's buffer or the context. Consuming is not among them: it is passed to the
  -- inner reader.
  pub tripped_for_good :
      {B : Type 0} ⦃w : AsyncWrite Cx T⦄ ⦃r : AsyncRead Cx B T⦄ ⦃br : AsyncBufRead Cx T⦄ (inner : T)
      (cx : Cx) (buf : List ℕ) (bufs : List (List ℕ)) (b : B) (amt : ℕ)
      → AllFail (tripped inner) cx buf bufs b shut_down (tripped inner) cx
        × ((shutdowner_buf_read {Cx = Cx} {Rx = Rx}).consume (tripped inner) amt
            ≡ tripped (br.consume inner amt))
  tripped_for_good inner cx buf bufs b amt = (
    all_failing (tripped inner) (tripped inner) cx cx buf bufs b shut_down (still_tripped inner cx),
    refl,
  )

  received_error :
      (inner : T) (rx rx' : Rx) (cx cx' : Cx) (e : Payload)
      → rc.poll_receiver rx cx ≡ (ready (some e), rx', cx')
      → poll_error (new inner rx) cx ≡ (ready (err (other e)), tripped inner, cx')
  unfolding poll_error
  received_error inner rx rx' cx cx' e h = rw h refl

  received_nothing :
      (inner : T) (rx rx' : Rx) (cx cx' : Cx)
      → rc.poll_receiver rx cx ≡ (ready none, rx', cx')
      → poll_error (new inner rx) cx ≡ (ready (err shut_down), tripped inner, cx')
  unfolding poll_error
  received_nothing inner rx rx' cx cx' h = rw h refl

  -- When the receiver of a fresh shutdowner has the error `e`: whichever of a write, a vectored
  -- write, a flush, a shutdown, a read and a filling of the buffer comes first, it returns `e` and
  -- leaves the inner object and the caller's buffer; and whichever of them comes next, at any time,
  -- returns SHUTDOWN_ERROR and leaves them too.
  pub delivered_once :
      {B : Type 0} ⦃w : AsyncWrite Cx T⦄ ⦃r : AsyncRead Cx B T⦄ ⦃br : AsyncBufRead Cx T⦄ (inner : T)
      (rx rx' : Rx) (cx cx' later : Cx) (buf : List ℕ) (bufs : List (List ℕ)) (b : B) (e : Payload)
      → rc.poll_receiver rx cx ≡ (ready (some e), rx', cx')
      → AllFail (new inner rx) cx buf bufs b (other e) (tripped inner) cx'
        × AllFail (tripped inner) later buf bufs b shut_down (tripped inner) later
  delivered_once inner rx rx' cx cx' later buf bufs b e h = (
    all_failing (new inner rx) (tripped inner) cx cx' buf bufs b (other e)
        (received_error inner rx rx' cx cx' e h),
    all_failing (tripped inner) (tripped inner) later later buf bufs b shut_down
        (still_tripped inner later),
  )

  -- The same when the sender was dropped without an error: the first operation already returns
  -- SHUTDOWN_ERROR.
  dropped_once :
      {B : Type 0} ⦃w : AsyncWrite Cx T⦄ ⦃r : AsyncRead Cx B T⦄ ⦃br : AsyncBufRead Cx T⦄ (inner : T)
      (rx rx' : Rx) (cx cx' : Cx) (buf : List ℕ) (bufs : List (List ℕ)) (b : B)
      → rc.poll_receiver rx cx ≡ (ready none, rx', cx')
      → AllFail (new inner rx) cx buf bufs b shut_down (tripped inner) cx'
  dropped_once inner rx rx' cx cx' buf bufs b h =
      all_failing (new inner rx) (tripped inner) cx cx' buf bufs b shut_down
        (received_nothing inner rx rx' cx cx' h)
