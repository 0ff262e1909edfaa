-- ===== src/Injector/Writer/Runs.antt =====
-- tokio-netem/src/injector.rs: what a run of calls of a `WriteInjector` puts on the wire.
use trixter.Prelude.{ℕ, ◌≤◌, List, [], ◌++◌, concat}
use trixter.Tokio.{AsyncWrite, WriteContract, Channel, ChannelLaws}
use trixter.Tokio.Calls.{Ends}
use trixter.Drain.Sends.{left_in}
use trixter.Drain.Merge.{Woven, Woven-start, Woven-Accepts, Woven-Keeps, Woven-Queued, reported}
use trixter.Injector.Writer.{WriteInjector, write_injector_write}
use trixter.Injector.Writer.Queue.{poll_write-Injects}

module _ {Cx T Rx : Type 0} ⦃w : AsyncWrite Cx T⦄ ⦃ch : Channel Cx Rx⦄ (budget : Cx → ℕ) where
  -- The injectors that calls of the I/O traits reach from `first`, with the bytes that the writes
  -- have reported.
  pub data Calls (first : WriteInjector T Rx) : WriteInjector T Rx → List ℕ → Type 0 where
    created : Calls first first []
    write :
        {this : WriteInjector T Rx} {own : List ℕ}
        → Calls first this own
        → (cx : Cx) (buf : List ℕ) → budget cx ≤ 128
        → Calls first
            (write_injector_write.poll_write this cx buf).1
            (own ++ reported (write_injector_write.poll_write this cx buf).0 buf)
    write_vectored :
        {this : WriteInjector T Rx} {own : List ℕ}
        → Calls first this own
        → (cx : Cx) (bufs : List (List ℕ))
        → Calls first (write_injector_write.poll_write_vectored this cx bufs).1 (
            own ++ reported (write_injector_write.poll_write_vectored this cx bufs).0 (concat bufs))
    flush :
        {this : WriteInjector T Rx} {own : List ℕ}
        → Calls first this own
        → (cx : Cx) → Calls first (write_injector_write.poll_flush this cx).1 own
    shutdown :
        {this : WriteInjector T Rx} {own : List ℕ}
        → Calls first this own
        → (cx : Cx) → Calls first (write_injector_write.poll_shutdown this cx).1 own

module _ {Cx T Rx : Type 0} ⦃w : AsyncWrite Cx T⦄ ⦃ch : Channel Cx Rx⦄ {sent : T → List ℕ}
    {log : Rx → List ℕ} {budget : Cx → ℕ} (c : WriteContract w sent) (live : Ends w)
    (laws : ChannelLaws ch log budget)
    (spends : (t : T) (cx : Cx) (buf : List ℕ) → budget (w.poll_write t cx buf).2 ≤ budget cx) where
  -- After any run of writes, vectored writes, flushes and shutdowns of an injector, under the
  -- conditions on the inner writer and on tokio's scheduling of a single write, what the inner
  -- writer was sent since is a merge of two sequences, each in its own order: exactly the bytes
  -- that the writes reported, and the injected bytes. These and what still waits in the injector
  -- are in a row what waited at first and then every message that the channel gave out since, so
  -- no message is lost, repeated or torn by another.
  pub calls-Woven :
      {first this : WriteInjector T Rx} {own : List ℕ}
      → Calls budget first this own
      → Woven
          (left_in first.buffer)
          (left_in this.buffer)
          (sent first.inner)
          (sent this.inner)
          (log first.inject_rx)
          (log this.inject_rx)
          own
  calls-Woven {first} created =
      Woven-start (left_in first.buffer) (sent first.inner) (log first.inject_rx)
  calls-Woven (write {this} {own} before cx buf enough) =
      let (r, this', cx') = write_injector_write.poll_write this cx buf in
      let step = poll_write-Injects c live laws spends this cx buf enough in
      Woven-Queued (calls-Woven before) ⊥ r buf (left_in this'.buffer) (sent this'.inner)
        (log this'.inject_rx) step.received step.logged step.queued
  calls-Woven (write_vectored {this} {own} before cx bufs) =
      let (r, inner, cx') = w.poll_write_vectored this.inner cx bufs in
      Woven-Accepts (calls-Woven before) r (concat bufs) (sent inner)
        (c.vectored_law this.inner cx bufs)
  calls-Woven (flush {this} before cx) =
      let (r, inner, cx') = w.poll_flush this.inner cx in
      Woven-Keeps (calls-Woven before) r (sent inner) (c.flush_law this.inner cx)
  calls-Woven (shutdown {this} before cx) =
      let (r, inner, cx') = w.poll_shutdown this.inner cx in
      Woven-Keeps (calls-Woven before) r (sent inner) (c.shutdown_law this.inner cx)
