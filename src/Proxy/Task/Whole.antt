-- ===== src/Proxy/Task/Whole.antt =====
-- trixter/src/main.rs: what the adapters of a connection bring to the socket.
mod Tests
use trixter.Prelude.{ℕ, ◌≡◌, refl, subst, ◌∙◌, List, [], ◌++◌, concat}
use trixter.Tokio.{ready, ok, AsyncWrite, AsyncRead, ReadBuf, Timer, Rng, WriteContract}
use trixter.Tokio.Calls.{Preserves, ReadPreserves, WriteContractOn}
use trixter.Probability.{DynamicProbability, dynamic_threshold}
use trixter.Corrupter.{poll_write, corrupter_write, corrupter_read}
use trixter.Corrupter.Passes.{
  corrupter_write-Preserves, corrupter_read-Preserves, write_buffer-poll_read,
}
use trixter.Corrupter.Queue.{made, queue_of-made, corrupted_write-Queued}
use trixter.Drain.Sends.{left_in, QueuedOr}
use trixter.Drain.Merge.{Woven, Woven-start, Woven-Accepts, Woven-Keeps, Woven-Queued, reported}
use trixter.Terminator.{Terminator, terminator_write, terminator_read}
use trixter.Terminator.Contract.{terminator_write-WriteContractOn}
use trixter.Terminator.Passes.{terminator_write-Preserves, terminator_read-Preserves}
use trixter.Slicer.{sliced_write, sliced_read, dynamic_size}
use trixter.Slicer.Prompt.{Idle, sliced_write-Idle, sliced_read-Idle, sliced_write-WriteContractOn}
use trixter.Delayer.{DynamicDuration, dynamic_duration}
use trixter.Delayer.Writer.{DelayedWriter, delayed_write, delayed_writer_read}
use trixter.Delayer.Writer as DelayWriter
use trixter.Throttler.{DynamicRate, dynamic_rate}
use trixter.Throttler.Writer.{ThrottledWriter, poll_flush, throttled_write, throttled_writer_read}
use trixter.Throttler.Writer as RateWriter
use trixter.Proxy.Stack.{Shaped, shape, on_socket, shaped-WriteContract}
use trixter.Proxy.Task.{Knobs, Faulty, Seedable, faulty}
use trixter.Proxy.Task.Limit.{set_knobs}

-- The slicer of the adapters owes no flush.
abbrev pub FaultyIdle : {T Sleep G : Type 0} → Faulty T Sleep G → Type 0
FaultyIdle this = Idle this.inner.inner

module _ (Cx B : Type 0) {T Sleep G : Type 0} ⦃tm : Timer Cx Sleep⦄ ⦃rn : Rng G⦄
    ⦃w : AsyncWrite Cx T⦄ ⦃rb : ReadBuf B⦄ ⦃r : AsyncRead Cx B T⦄ where
  -- What becomes of the adapters of a connection while they are read, written, flushed and shut down
  -- in any order and the API sets the knobs in between, with the bytes that the writes have reported
  -- and the noise that they have made.
  pub data Stream (first : Faulty T Sleep G) : Faulty T Sleep G → List ℕ → List ℕ → Type 0 where
    opened : Stream first first [] []
    write :
        {this : Faulty T Sleep G} {own noise : List ℕ}
        → Stream first this own noise
        → (cx : Cx) (buf : List ℕ)
        → Stream first
            (corrupter_write.poll_write this cx buf).1
            (own ++ reported (corrupter_write.poll_write this cx buf).0 buf)
            (noise ++ made this.write_buffer this.rng this.prob)
    write_vectored :
        {this : Faulty T Sleep G} {own noise : List ℕ}
        → Stream first this own noise
        → (cx : Cx) (bufs : List (List ℕ))
        → Stream first
            (corrupter_write.poll_write_vectored this cx bufs).1
            (own ++ reported (corrupter_write.poll_write_vectored this cx bufs).0 (concat bufs))
            noise
    flush :
        {this : Faulty T Sleep G} {own noise : List ℕ}
        → Stream first this own noise
        → (cx : Cx) → Stream first (corrupter_write.poll_flush this cx).1 own noise
    shutdown :
        {this : Faulty T Sleep G} {own noise : List ℕ}
        → Stream first this own noise
        → (cx : Cx) → Stream first (corrupter_write.poll_shutdown this cx).1 own noise
    read :
        {this : Faulty T Sleep G} {own noise : List ℕ}
        → Stream first this own noise
        → (cx : Cx) (buf : B) → Stream first (corrupter_read.poll_read this cx buf).1 own noise
    set :
        {this : Faulty T Sleep G} {own noise : List ℕ}
        → Stream first this own noise
        → (k : Knobs) → Stream first (set_knobs this k) own noise

module _ {Cx T Sleep : Type 0} ⦃tm : Timer Cx Sleep⦄ ⦃w : AsyncWrite Cx T⦄
    (prompt : (t : T) (cx : Cx) → (w.poll_flush t cx).0 ≡ ready (ok tt)) where
  throttled_flush :
      (this : ThrottledWriter (DelayedWriter T DynamicDuration Sleep) DynamicRate Sleep) (cx : Cx)
      → (throttled_write.poll_flush this cx).0 ≡ ready (ok tt)
  unfolding throttled_write poll_flush
  throttled_flush this cx = prompt this.inner.inner cx

module _ {Cx T Sleep G : Type 0} ⦃tm : Timer Cx Sleep⦄ ⦃rn : Rng G⦄ ⦃w : AsyncWrite Cx T⦄
    (prompt : (t : T) (cx : Cx) → (w.poll_flush t cx).0 ≡ ready (ok tt)) where
  faulty_write-Idle :
      Preserves
        (corrupter_write {Cx = Cx} {T = Terminator (Shaped T Sleep) DynamicProbability G}
          {P = DynamicProbability} {G = G})
        FaultyIdle
  faulty_write-Idle =
      corrupter_write-Preserves
        (terminator_write-Preserves (sliced_write-Idle (throttled_flush prompt)))

  module _ {B : Type 0} ⦃rb : ReadBuf B⦄ ⦃r : AsyncRead Cx B T⦄ where
    faulty_read-Idle :
        ReadPreserves
          (corrupter_read {Cx = Cx} {T = Terminator (Shaped T Sleep) DynamicProbability G}
            {P = DynamicProbability} {G = G} {B = B})
          FaultyIdle
    faulty_read-Idle = corrupter_read-Preserves (terminator_read-Preserves sliced_read-Idle)

    Stream-Idle :
        {first this : Faulty T Sleep G} {own noise : List ℕ}
        → FaultyIdle first
        → Stream Cx B first this own noise
        → FaultyIdle this
    Stream-Idle i opened = i
    Stream-Idle i (write {this} before cx buf) =
        faulty_write-Idle.write this cx buf (Stream-Idle i before)
    Stream-Idle i (write_vectored {this} before cx bufs) =
        faulty_write-Idle.write_vectored this cx bufs (Stream-Idle i before)
    Stream-Idle i (flush {this} before cx) = faulty_write-Idle.flush this cx (Stream-Idle i before)
    Stream-Idle i (shutdown {this} before cx) =
        faulty_write-Idle.shutdown this cx (Stream-Idle i before)
    Stream-Idle i (read {this} before cx buf) =
        faulty_read-Idle.read this cx buf (Stream-Idle i before)
    Stream-Idle i (set before k) = Stream-Idle i before

    module _ {sent : T → List ℕ} (c : WriteContract w sent)
        (silent : (t : T) (cx : Cx) (buf : B) → sent (r.poll_read t cx buf).1 ≡ sent t) where
      abbrev socket : Faulty T Sleep G → List ℕ
      socket this = on_socket sent this.inner.inner

      socket-poll_read :
          (this : Faulty T Sleep G) (cx : Cx) (buf : B)
          → socket (corrupter_read.poll_read this cx buf).1 ≡ socket this
      socket-poll_read this cx buf =
          (corrupter_read-Preserves
              {Q = λ (t : Terminator (Shaped T Sleep) DynamicProbability G).
                on_socket sent t.inner ≡ socket this}
              (terminator_read-Preserves (record {
                read = λ sliced cx' buf' p. silent sliced.inner.inner.inner cx' buf' ∙ p;
              }))).read
            this cx buf refl

      inner_contract :
          WriteContractOn
            (terminator_write {Cx = Cx} {T = Shaped T Sleep} {P = DynamicProbability} {G = G})
            (λ this. Idle this.inner)
            (λ this. on_socket sent this.inner)
      inner_contract =
          terminator_write-WriteContractOn (on_socket sent)
            (sliced_write-WriteContractOn (throttled_flush prompt) (shaped-WriteContract sent c))

      Stream-Woven :
          {first this : Faulty T Sleep G} {own noise : List ℕ}
          → FaultyIdle first
          → Stream Cx B first this own noise
          → Woven
              (left_in first.write_buffer)
              (left_in this.write_buffer)
              (on_socket sent first.inner.inner)
              (on_socket sent this.inner.inner)
              []
              noise
              own
      Stream-Woven {first} i opened = Woven-start (left_in first.write_buffer) (socket first) []
      Stream-Woven i (write {this} before cx buf) =
          let (r, this', cx') = corrupter_write.poll_write this cx buf in
          let noise = made this.write_buffer this.rng this.prob in
          Woven-Queued (Stream-Woven i before) (Unit {0}) r buf (left_in this'.write_buffer)
            (socket this') _ noise refl
            (subst
              (λ queue.
                QueuedOr (Unit {0}) r buf queue (left_in this'.write_buffer) (socket this)
                  (socket this'))
              (queue_of-made this.write_buffer this.rng this.prob)
              (corrupted_write-Queued inner_contract (Unit {0}) (λ t cx' buf' h. tt) this cx buf
                (Stream-Idle i before)))
      Stream-Woven i (write_vectored {this} before cx bufs) =
          let (r, this', cx') = corrupter_write.poll_write_vectored this cx bufs in
          Woven-Accepts (Stream-Woven i before) r (concat bufs) (socket this')
            (inner_contract.vectored_law this.inner cx bufs (Stream-Idle i before))
      Stream-Woven i (flush {this} before cx) =
          let (r, this', cx') = corrupter_write.poll_flush this cx in
          Woven-Keeps (Stream-Woven i before) r (socket this')
            (inner_contract.flush_law this.inner cx (Stream-Idle i before))
      Stream-Woven i (shutdown {this} before cx) =
          let (r, this', cx') = corrupter_write.poll_shutdown this cx in
          Woven-Keeps (Stream-Woven i before) r (socket this')
            (inner_contract.shutdown_law this.inner cx (Stream-Idle i before))
      Stream-Woven i (read {this} before cx buf) =
          rw (socket-poll_read this cx buf, write_buffer-poll_read this cx buf)
            (Stream-Woven i before)
      Stream-Woven i (set before k) = Stream-Woven i before

      -- The adapters of one direction of a connection over a socket that keeps the contract of
      -- `AsyncWrite`, whose reads send nothing, and whose flush is over at once, as that of a TCP
      -- stream is; with any clock and any timer. From when they are built they are read, written,
      -- flushed and shut down in any order, with any results, those calls included whose loops have
      -- not ended in the rounds that the model gives them; the API sets the five knobs in between; and
      -- the caller need not repeat a write that was not finished. At every time, what the socket was
      -- sent since is a merge of two sequences, each in its own order: exactly the bytes that the
      -- writes reported, and noise. The noise sent and then that which is still queued are in a row
      -- all the noise that was made.
      pub faulty-Woven :
          ⦃sg : Seedable G⦄ (line : T) (k : Knobs) (base_rng : G) (cx : Cx)
          {this : Faulty T Sleep G} {own noise : List ℕ}
          → Stream Cx B (faulty line k base_rng cx).0 this own noise
          → Woven [] (left_in this.write_buffer) (sent line) (socket this) [] noise own
      unfolding faulty shape DelayWriter.new_writer RateWriter.new_writer
      faulty-Woven line k base_rng cx stream = Stream-Woven refl stream
