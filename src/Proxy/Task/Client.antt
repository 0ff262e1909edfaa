-- ===== src/Proxy/Task/Client.antt =====
-- trixter/src/main.rs: what the stream to the client brings to its socket; a shutdowner wraps it.
mod Tests
use trixter.Prelude.{
  ℕ, ◌≡◌, refl, subst, sym, Bool, true, false, List, [], ◌++◌, append-nil, concat, if◌then◌else◌,
}
use trixter.Tokio.{
  Poll, ready, Result, ok, err, AsyncWrite, AsyncRead, ReadBuf, Timer, Rng, Receiver, WriteContract,
}
use trixter.Tokio.Calls.{ReadPreserves}
use trixter.Probability.{DynamicProbability, dynamic_threshold}
use trixter.Corrupter.{corrupter_write, corrupter_read}
use trixter.Corrupter.Queue.{made}
use trixter.Drain.Sends.{left_in}
use trixter.Drain.Merge.{Woven, reported}
use trixter.Shutdowner.{Shutdowner, put_inner, poll_error, shutdowner_write, shutdowner_read}
use trixter.Shutdowner as Shutdowner
use trixter.Shutdowner.Passes.{passes, unless_tripped_cases, shutdowner_read-Preserves}
use trixter.Terminator.{Terminator, terminator_write, terminator_read}
use trixter.Slicer.{sliced_write, sliced_read, dynamic_size}
use trixter.Delayer.{DynamicDuration, dynamic_duration}
use trixter.Delayer.Writer.{delayed_write, delayed_writer_read}
use trixter.Throttler.{DynamicRate, dynamic_rate}
use trixter.Throttler.Writer.{throttled_write, throttled_writer_read}
use trixter.Proxy.Stack.{on_socket}
use trixter.Proxy.Task.{Knobs, Faulty, Downstream, Seedable, faulty}
use trixter.Proxy.Task.Limit.{set_knobs}
use trixter.Proxy.Task.Whole.{Stream, faulty-Woven}
use trixter.Proxy.Task.Whole as Whole

module _ {Cx T Sleep G Rx : Type 0} ⦃rn : Rng G⦄ ⦃rc : Receiver Cx Rx⦄ where
  -- The noise that a write makes, if it comes to the corrupter.
  abbrev pub made_if_open : Downstream T Sleep G Rx → Cx → List ℕ
  made_if_open this cx =
      if passes (poll_error this cx).0
      then made this.inner.write_buffer this.inner.rng this.inner.prob
      else []

module _ (Cx B : Type 0) {T Sleep G Rx : Type 0} ⦃tm : Timer Cx Sleep⦄ ⦃rn : Rng G⦄
    ⦃rc : Receiver Cx Rx⦄ ⦃w : AsyncWrite Cx T⦄ ⦃rb : ReadBuf B⦄ ⦃r : AsyncRead Cx B T⦄ where
  -- As `Stream`, of the stream to the client.
  pub data ClientStream (first : Downstream T Sleep G Rx)
      : Downstream T Sleep G Rx → List ℕ → List ℕ → Type 0 where
    opened : ClientStream first first [] []
    write :
        {this : Downstream T Sleep G Rx} {own noise : List ℕ}
        → ClientStream first this own noise
        → (cx : Cx) (buf : List ℕ)
        → ClientStream first
            (shutdowner_write.poll_write this cx buf).1
            (own ++ reported (shutdowner_write.poll_write this cx buf).0 buf)
            (noise ++ made_if_open this cx)
    write_vectored :
        {this : Downstream T Sleep G Rx} {own noise : List ℕ}
        → ClientStream first this own noise
        → (cx : Cx) (bufs : List (List ℕ))
        → ClientStream first
            (shutdowner_write.poll_write_vectored this cx bufs).1
            (own ++ reported (shutdowner_write.poll_write_vectored this cx bufs).0 (concat bufs))
            noise
    flush :
        {this : Downstream T Sleep G Rx} {own noise : List ℕ}
        → ClientStream first this own noise
        → (cx : Cx) → ClientStream first (shutdowner_write.poll_flush this cx).1 own noise
    shutdown :
        {this : Downstream T Sleep G Rx} {own noise : List ℕ}
        → ClientStream first this own noise
        → (cx : Cx) → ClientStream first (shutdowner_write.poll_shutdown this cx).1 own noise
    read :
        {this : Downstream T Sleep G Rx} {own noise : List ℕ}
        → ClientStream first this own noise
        → (cx : Cx) (buf : B)
        → ClientStream first (shutdowner_read.poll_read this cx buf).1 own noise
    set :
        {this : Downstream T Sleep G Rx} {own noise : List ℕ}
        → ClientStream first this own noise
        → (k : Knobs) → ClientStream first (put_inner this (set_knobs this.inner k)) own noise

module _ {Cx B T Sleep G : Type 0} ⦃tm : Timer Cx Sleep⦄ ⦃rn : Rng G⦄ ⦃w : AsyncWrite Cx T⦄
    ⦃rb : ReadBuf B⦄ ⦃r : AsyncRead Cx B T⦄ where
  -- A step that fails reports nothing.
  nothing_more :
      {first this : Faulty T Sleep G} {own noise : List ℕ}
      → Stream Cx B first this own noise
      → Stream Cx B first this (own ++ []) noise
  nothing_more {first} {this} {own} {noise} =
      subst (λ xs. Stream Cx B first this xs noise) (sym (append-nil own))

  nothing_made :
      {first this : Faulty T Sleep G} {own noise : List ℕ}
      → Stream Cx B first this own noise
      → Stream Cx B first this own (noise ++ [])
  nothing_made {first} {this} {own} {noise} =
      subst (λ xs. Stream Cx B first this own xs) (sym (append-nil noise))

module _ {Cx B T Sleep G Rx : Type 0} ⦃tm : Timer Cx Sleep⦄ ⦃rn : Rng G⦄ ⦃rc : Receiver Cx Rx⦄
    ⦃w : AsyncWrite Cx T⦄ ⦃rb : ReadBuf B⦄ ⦃r : AsyncRead Cx B T⦄ where
  -- What the adapters under the shutdowner see is a stream.
  ClientStream-Stream :
      {first this : Downstream T Sleep G Rx} {own noise : List ℕ}
      → ClientStream Cx B first this own noise
      → Stream Cx B first.inner this.inner own noise
  ClientStream-Stream opened = Whole.opened
  ClientStream-Stream {first} (write {this} {own} {noise} before cx buf) =
      let under = ClientStream-Stream before in
      let noise' = made this.inner.write_buffer this.inner.rng this.inner.prob in
      unless_tripped_cases (λ inner cx'. corrupter_write.poll_write inner cx' buf)
        (λ passed res inner.
          Stream Cx B first.inner inner (own ++ reported res buf)
            (noise ++ (if passed then noise' else [])))
        this cx (λ e. nothing_made (nothing_more under)) (λ cx'. Whole.write under cx' buf)
  ClientStream-Stream {first} (write_vectored {this} {own} {noise} before cx bufs) =
      let under = ClientStream-Stream before in
      unless_tripped_cases (λ inner cx'. corrupter_write.poll_write_vectored inner cx' bufs)
        (λ passed res inner.
          Stream Cx B first.inner inner (own ++ reported res (concat bufs)) noise)
        this cx (λ e. nothing_more under) (λ cx'. Whole.write_vectored under cx' bufs)
  ClientStream-Stream {first} (flush {this} {own} {noise} before cx) =
      let under = ClientStream-Stream before in
      unless_tripped_cases corrupter_write.poll_flush
        (λ passed res inner. Stream Cx B first.inner inner own noise) this cx (λ e. under)
        (λ cx'. Whole.flush under cx')
  ClientStream-Stream {first} (shutdown {this} {own} {noise} before cx) =
      let under = ClientStream-Stream before in
      unless_tripped_cases corrupter_write.poll_shutdown
        (λ passed res inner. Stream Cx B first.inner inner own noise) this cx (λ e. under)
        (λ cx'. Whole.shutdown under cx')
  ClientStream-Stream {first} (read {this} {own} {noise} before cx buf) =
      let keeps : ReadPreserves corrupter_read (λ inner. Stream Cx B first.inner inner own noise) =
        record { read = λ inner cx' buf' stream. Whole.read stream cx' buf' } in
      (shutdowner_read-Preserves keeps).read this cx buf (ClientStream-Stream before)
  ClientStream-Stream (set before k) = Whole.set (ClientStream-Stream before) k

  module _ {sent : T → List ℕ} (prompt : (t : T) (cx : Cx) → (w.poll_flush t cx).0 ≡ ready (ok tt))
      (c : WriteContract w sent)
      (silent : (t : T) (cx : Cx) (buf : B) → sent (r.poll_read t cx buf).1 ≡ sent t) where
    -- The stream to the client: the adapters over a socket that keeps the contract of `AsyncWrite`,
    -- whose reads send nothing and whose flush is over at once, with any clock and any timer, and over
    -- them a shutdowner whose receiver answers with anything at any time. From when it is built it is
    -- read, written, flushed and shut down in any order, with any results, while the API sets the five
    -- knobs in between. At every time, what the socket was sent since is a merge of exactly the bytes
    -- that the writes reported, and noise, each in its own order; the noise sent and then that which
    -- is still queued are in a row all the noise made by the writes that the shutdowner lets through.
    pub downstream-Woven :
        ⦃sg : Seedable G⦄ (line : T) (k : Knobs) (base_rng : G) (cx : Cx) (rx : Rx)
        {this : Downstream T Sleep G Rx} {own noise : List ℕ}
        → ClientStream Cx B (Shutdowner.new (faulty line k base_rng cx).0 rx) this own noise
        → Woven []
            (left_in this.inner.write_buffer)
            (sent line)
            (on_socket sent this.inner.inner.inner)
            []
            noise
            own
    downstream-Woven line k base_rng cx rx stream =
        faulty-Woven prompt c silent line k base_rng cx (ClientStream-Stream stream)
