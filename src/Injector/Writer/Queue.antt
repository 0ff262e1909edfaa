-- ===== src/Injector/Writer/Queue.antt =====
-- tokio-netem/src/injector.rs: received messages are written before the caller's bytes.
use native.Mathlib.Nat.{le_trans}
use trixter.Prelude.{
  ℕ, zero, suc, ◌≤◌, ◌<◌, ◌≡◌, sym, ap, subst, ◌∙◌, List, [], ◌++◌, append-nil, append_assoc,
  Option, none, some, arith,
}
use trixter.Tokio.{
  Poll, pending, ready, Result, ok, err, panic, spin, Polled, AsyncWrite, WriteContract, Channel,
  ChannelLaws, Receives,
}
use trixter.Drain.{Drained, drained, returned, drain}
use trixter.Tokio.Calls.{Ends, always}
use trixter.Drain.Sends.{left_in, Queued, Sends, drain-Sends, Queued-after, real-Queued}
use trixter.Drain.Spends.{AtMost, drain-AtMost}
use trixter.Io.{forward}
use trixter.Injector.Writer.{
  WriteInjector, Round, received, receive, after_drain, write_from, inject_loop, poll_write,
}

module _ {Cx T Rx : Type 0} ⦃w : AsyncWrite Cx T⦄ ⦃ch : Channel Cx Rx⦄ {sent : T → List ℕ}
    {log : Rx → List ℕ} {budget : Cx → ℕ} (c : WriteContract w sent) (live : Ends w)
    (laws : ChannelLaws ch log budget)
    (spends : (t : T) (cx : Cx) (buf : List ℕ) → budget (w.poll_write t cx buf).2 ≤ budget cx) where
  -- A write that found `queue` waiting received some messages, and sent `queue` and their bytes, in
  -- this order, as the queue that goes before `buf`.
  pub record Injects (queue buf old old_log : List ℕ) (p : Polled ℕ (WriteInjector T Rx) Cx)
      : Type 0 where
    pub received : List ℕ
    pub logged : log p.1.inject_rx ≡ old_log ++ received
    pub queued : Queued p.0 buf (queue ++ received) (left_in p.1.buffer) old (sent p.1.inner)

  -- What the rest of the loop does, from any state with less than `fuel` messages to come.
  abbrev Goes : ℕ → List ℕ → Round T Rx Cx → Type 0
  Goes fuel buf again =
      (this : WriteInjector T Rx) (cx : Cx)
      → budget cx < fuel
      → Injects (left_in this.buffer) buf (sent this.inner) (log this.inject_rx) (again this cx buf)

  inner-Injects :
      (inner : T) (rx : Rx) (cx : Cx) (queue buf old old_log : List ℕ)
      → sent inner ≡ old ++ queue
      → log rx ≡ old_log
      → Injects queue buf old old_log (
          forward
            (λ inner'. record { inner = inner'; buffer = none; inject_rx = rx })
            (w.poll_write inner cx buf))
  inner-Injects inner rx cx queue buf old old_log h l =
      let (r, inner', cx') = w.poll_write inner cx buf in
      record {
        received = [];
        logged = l ∙ sym (append-nil old_log);
        queued =
            real-Queued ⊥ r buf (queue ++ []) old (sent inner) (sent inner') (live inner cx buf)
              (h ∙ ap (λ xs. old ++ xs) (sym (append-nil queue))) (c.write_law inner cx buf);
      }

  received-Injects :
      (fuel : ℕ) (again : Round T Rx Cx) (message : Poll (Option (List ℕ))) (inner : T) (rx : Rx)
      (cx : Cx) (queue buf old old_log : List ℕ) (before : ℕ)
      → Goes fuel buf again
      → before ≤ fuel
      → sent inner ≡ old ++ queue
      → Receives message old_log (log rx) before (budget cx)
      → Injects queue buf old old_log
          (received again message (record { inner = inner; buffer = none; inject_rx = rx }) cx buf)
  unfolding received
  received-Injects fuel again (ready (some b)) inner rx cx queue buf old old_log before go n h l =
      let this : WriteInjector T Rx = record { inner = inner; buffer = some b; inject_rx = rx } in
      let rest = go this cx (omega arith) in
      let (r, this', cx') = again this cx buf in
      record {
        received = b ++ rest.received;
        logged =
            rest.logged ∙ ap (λ xs. xs ++ rest.received) l.0 ∙ append_assoc old_log b rest.received;
        queued =
            Queued-after r buf queue (b ++ rest.received) (left_in this'.buffer) old (sent inner)
              (sent this'.inner) h rest.queued;
      }
  received-Injects fuel again (ready none) inner rx cx queue buf old old_log before go n h l =
      inner-Injects inner rx cx queue buf old old_log h l.0
  received-Injects fuel again pending inner rx cx queue buf old old_log before go n h l =
      inner-Injects inner rx cx queue buf old old_log h l.0

  receive-Injects :
      (fuel : ℕ) (again : Round T Rx Cx) (inner : T) (rx : Rx) (cx : Cx) (queue buf old : List ℕ)
      → Goes fuel buf again
      → budget cx ≤ fuel
      → sent inner ≡ old ++ queue
      → Injects queue buf old
          (log rx)
          (receive again (record { inner = inner; buffer = none; inject_rx = rx }) cx buf)
  unfolding receive
  receive-Injects fuel again inner rx cx queue buf old go n h =
      let (message, rx', cx') = ch.poll_recv rx cx in
      received-Injects fuel again message inner rx' cx' queue buf old (log rx) (budget cx) go n h
        (laws.recv_law rx cx)

  -- A write that returns from the middle of the queue.
  returned-Injects :
      (r : Poll (Result ℕ)) (inner : T) (rx : Rx) (cx : Cx) (left queue buf old : List ℕ)
      → Queued r buf queue left old (sent inner)
      → Injects queue buf old
          (log rx)
          (r, record { inner = inner; buffer = some left; inject_rx = rx }, cx)
  returned-Injects r inner rx cx left queue buf old q = record {
    received = [];
    logged = sym (append-nil (log rx));
    queued = subst (λ xs. Queued r buf xs left old (sent inner)) (sym (append-nil queue)) q;
  }

  after_drain-Injects :
      (fuel : ℕ) (again : Round T Rx Cx) (d : Drained T Cx) (inner : T) (was : Option (List ℕ))
      (rx : Rx) (n : ℕ) (queue buf old : List ℕ)
      → Goes fuel buf again
      → n ≤ fuel
      → Sends sent d queue old
      → AtMost budget spends n d
      → Injects queue buf old
          (log rx)
          (after_drain again d (record { inner = inner; buffer = was; inject_rx = rx }) buf)
  unfolding after_drain
  after_drain-Injects fuel again (drained inner cx) _ was rx n queue buf old go m h b =
      receive-Injects fuel again inner rx cx queue buf old go (le_trans b m) h
  after_drain-Injects fuel again (returned pending inner left cx) _ was rx n queue buf old go m h
        b =
      returned-Injects pending inner rx cx left queue buf old h
  after_drain-Injects fuel again (returned (ready (err e)) inner left cx) _ was rx n queue buf old
        go m h b =
      returned-Injects (ready (err e)) inner rx cx left queue buf old h
  after_drain-Injects fuel again (returned (ready (ok k)) inner left cx) _ was rx n queue buf old go
        m h b =
      absurd h
  after_drain-Injects fuel again (returned (ready panic) inner left cx) _ was rx n queue buf old go
        m h b =
      absurd h
  after_drain-Injects fuel again (returned (ready spin) inner left cx) _ was rx n queue buf old go m
        h b =
      absurd h.1

  write_from-Injects :
      (fuel : ℕ) (again : Round T Rx Cx) (buffer : Option (List ℕ)) (inner : T) (rx : Rx) (cx : Cx)
      (buf : List ℕ)
      → Goes fuel buf again
      → budget cx ≤ fuel
      → Injects (left_in buffer) buf (sent inner) (log rx) (
          write_from again buffer
            (record { inner = inner; buffer = buffer; inject_rx = rx })
            cx
            buf)
  unfolding write_from
  write_from-Injects fuel again (some buffer) inner rx cx buf go n =
      after_drain-Injects fuel again (drain inner cx buffer) inner (some buffer) rx (budget cx)
        buffer buf (sent inner) go n (drain-Sends (always c) ⊥ live inner cx buffer tt)
        (drain-AtMost budget spends inner cx buffer)
  write_from-Injects fuel again none inner rx cx buf go n =
      receive-Injects fuel again inner rx cx [] buf (sent inner) go n
        (sym (append-nil (sent inner)))

  inject_loop-Injects : (fuel : ℕ) (buf : List ℕ) → Goes fuel buf (inject_loop fuel)
  unfolding inject_loop
  inject_loop-Injects zero buf this cx n = absurd (omega arith)
  inject_loop-Injects (suc fuel) buf this cx n =
      write_from-Injects fuel (inject_loop fuel) this.buffer this.inner this.inject_rx cx buf
        (inject_loop-Injects fuel buf) (omega arith)

  -- A write through an injector whose inner writer keeps its contract and has loops that end, in a
  -- task that tokio lets receive at most 128 messages before it yields: every message counts
  -- against that number, and an inner write does not raise it. The write ends. The bytes that
  -- waited in the injector and then those that the channel gave out meanwhile are its queue: if it
  -- reports `n` bytes, what it sent is this whole queue and then exactly the first `n` bytes of
  -- the buffer, and nothing waits any more; else no byte of the buffer was sent, and what was sent
  -- of the queue and what waits now are in a row the queue. It neither panics nor loops for ever.
  pub poll_write-Injects :
      (this : WriteInjector T Rx) (cx : Cx) (buf : List ℕ)
      → budget cx ≤ 128
      → Injects
          (left_in this.buffer)
          buf
          (sent this.inner)
          (log this.inject_rx)
          (poll_write this cx buf)
  unfolding poll_write
  poll_write-Injects this cx buf n = inject_loop-Injects 129 buf this cx (omega arith)
