-- ===== src/Delayer/Reader/Contract.antt =====
-- tokio-netem/src/delayer.rs: a delayed reader hands over the bytes that it takes off its stream.
use trixter.Prelude.{
  ℕ, zero, suc, min, ◌≤◌, ◌≡◌, refl, sym, subst, ◌∙◌, Bool, true, false, if◌then◌else◌, List, [],
  ◌++◌, append-nil, length, length-take, take, arith,
}
use trixter.Tokio.{
  Poll, pending, ready, Result, ok, err, panic, spin, PolledRead, ready_read, AsyncBufRead, ReadBuf,
  ReadBufLaws, Timer, Gives, ReadContract, Fills, BufReadContract,
}
use trixter.Delayer.Knob.{Duration}
use trixter.Delayer.Delay.{
  Action, before_delay, after_delay, Delay, Armed, unreachable, armed, maybe_delay, poll,
}
use trixter.Delayer.Reader.{
  DelayedReader, Round, deliver, after_armed, before, after_filled, on_action, read_loop, poll_read,
  delayed_read,
}

Gives-nothing :
    {B : Type 0} ⦃rb : ReadBuf B⦄ (old new : List ℕ) (buf : B)
    → new ≡ old
    → Gives rb old new buf buf
Gives-nothing ⦃rb⦄ old new buf h = record {
  chunk = [];
  taken = h ∙ sym (append-nil old);
  put = sym (append-nil (rb.filled buf));
}

module _ {Cx Sleep B T D : Type 0} ⦃tm : Timer Cx Sleep⦄ ⦃du : Duration D⦄ ⦃r : AsyncBufRead Cx T⦄
    ⦃rb : ReadBuf B⦄ {taken : T → List ℕ} (laws : ReadBufLaws rb)
    (c : BufReadContract r taken) where
  -- What a read has given by `p`, since `old` were taken off the stream and `buf` was as it is.
  abbrev GivesBy : List ℕ → B → PolledRead (DelayedReader T D Sleep) B Cx → Type 0
  GivesBy old buf p = Gives rb old (taken p.1.inner) buf p.2

  abbrev Goes : Round T D Sleep B Cx → Type 0
  Goes again =
      (this : DelayedReader T D Sleep) (buf : B) (cx : Cx)
      → GivesBy (taken this.inner) buf (again this buf cx)

  deliver-Gives :
      (rem : List ℕ) (this : DelayedReader T D Sleep) (buf : B) (cx : Cx) (old : List ℕ)
      → ((n : ℕ) → n ≤ length rem → taken (r.consume this.inner n) ≡ old ++ take n rem)
      → GivesBy old buf (deliver rem this buf cx)
  unfolding deliver
  deliver-Gives rem this buf cx old h =
      let amt = min (length rem) (rb.remaining buf) in
      record {
        chunk = take amt rem;
        taken = h amt (omega arith);
        put = laws.filled-put_slice buf (take amt rem) (omega (arith, length-take amt rem));
      }

  fill-Gives :
      (res : Poll (Result (List ℕ))) (inner : T) (cx : Cx) (this : DelayedReader T D Sleep)
      (buf : B) (old : List ℕ)
      → Fills taken r.consume res old inner
      → GivesBy old buf (after_filled (res, inner, cx) this buf)
  unfolding after_filled
  fill-Gives pending inner cx this buf old h = Gives-nothing old (taken inner) buf h
  fill-Gives (ready (ok rem)) inner cx this buf old h =
      deliver-Gives rem (record this { inner = inner }) buf cx old h.1
  fill-Gives (ready (err e)) inner cx this buf old h = Gives-nothing old (taken inner) buf h
  fill-Gives (ready panic) inner cx this buf old h = Gives-nothing old (taken inner) buf h
  fill-Gives (ready spin) inner cx this buf old h = Gives-nothing old (taken inner) buf h

  after_armed-Gives :
      (again : Round T D Sleep B Cx) (a : Armed D Sleep Cx) (rem : List ℕ)
      (this : DelayedReader T D Sleep) (buf : B) (cx : Cx) (old : List ℕ)
      → Goes again
      → Fills taken r.consume (ready (ok rem)) old this.inner
      → GivesBy old buf (after_armed again a rem this buf cx)
  unfolding after_armed
  after_armed-Gives again unreachable rem this buf cx old go h =
      Gives-nothing old (taken this.inner) buf h.0
  after_armed-Gives again (armed true delay cx') rem this buf cx old go h =
      subst (λ xs. GivesBy xs buf (again (record this { delay = delay }) buf cx')) h.0
        (go (record this { delay = delay }) buf cx')
  after_armed-Gives again (armed false delay cx') rem this buf cx old go h =
      deliver-Gives rem (record this { delay = delay }) buf cx' old h.1

  either-Gives :
      (old : List ℕ) (buf : B) (p q : PolledRead (DelayedReader T D Sleep) B Cx) (test : Bool)
      → GivesBy old buf p
      → GivesBy old buf q
      → GivesBy old buf (if test then p else q)
  either-Gives old buf p q true g h = g
  either-Gives old buf p q false g h = h

  filled-Gives :
      (again : Round T D Sleep B Cx) (res : Poll (Result (List ℕ))) (this : DelayedReader T D Sleep)
      (buf : B) (cx : Cx) (old : List ℕ)
      → Goes again
      → Fills taken r.consume res old this.inner
      → GivesBy old buf (
          ready_read res this buf cx (λ rem.
            if this.buf_empty
            then after_armed again (maybe_delay this.delay cx) rem this buf cx
            else deliver rem this buf cx))
  filled-Gives again pending this buf cx old go h = Gives-nothing old (taken this.inner) buf h
  filled-Gives again (ready (ok rem)) this buf cx old go h =
      either-Gives old buf (after_armed again (maybe_delay this.delay cx) rem this buf cx)
        (deliver rem this buf cx) this.buf_empty
        (after_armed-Gives again (maybe_delay this.delay cx) rem this buf cx old go h)
        (deliver-Gives rem this buf cx old h.1)
  filled-Gives again (ready (err e)) this buf cx old go h =
      Gives-nothing old (taken this.inner) buf h
  filled-Gives again (ready panic) this buf cx old go h = Gives-nothing old (taken this.inner) buf h
  filled-Gives again (ready spin) this buf cx old go h = Gives-nothing old (taken this.inner) buf h

  on_action-Gives :
      (again : Round T D Sleep B Cx) (action : Poll Action) (delay : Delay D Sleep) (cx : Cx)
      (this : DelayedReader T D Sleep) (buf : B)
      → Goes again
      → GivesBy (taken this.inner) buf (on_action again (action, delay, cx) this buf)
  unfolding on_action before
  on_action-Gives again pending delay cx this buf go =
      Gives-nothing (taken this.inner) (taken this.inner) buf refl
  on_action-Gives again (ready before_delay) delay cx this buf go =
      let (res, inner, cx') = r.poll_fill_buf this.inner cx in
      filled-Gives again res (record this { inner = inner; delay = delay }) buf cx'
        (taken this.inner) go (c.fill_law this.inner cx)
  on_action-Gives again (ready after_delay) delay cx this buf go =
      let (res, inner, cx') = r.poll_fill_buf this.inner cx in
      fill-Gives res inner cx' (record this { delay = delay }) buf (taken this.inner)
        (c.fill_law this.inner cx)

  read_loop-Gives : (fuel : ℕ) → Goes (read_loop fuel)
  unfolding read_loop
  read_loop-Gives zero this buf cx = Gives-nothing (taken this.inner) (taken this.inner) buf refl
  read_loop-Gives (suc fuel) this buf cx =
      let (action, delay, cx') = poll this.delay cx in
      on_action-Gives (read_loop fuel) action delay cx' this buf (read_loop-Gives fuel)

  -- A delayed reader over a buffered one whose filling and consuming keep their contract keeps the
  -- contract of a read, whatever its delay and its state: each read puts exactly the bytes that it
  -- takes off the stream behind what the caller's buffer had, also when it fails or is pending.
  pub delayed_read-ReadContract :
      ReadContract rb
        (delayed_read {Cx = Cx} {Sleep = Sleep} {B = B} {T = T} {D = D})
        (λ this. taken this.inner)
  unfolding poll_read
  delayed_read-ReadContract = record { read_law = λ this cx buf. read_loop-Gives 2 this buf cx }
