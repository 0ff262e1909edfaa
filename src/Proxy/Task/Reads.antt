-- ===== src/Proxy/Task/Reads.antt =====
-- trixter/src/main.rs: what the reads through the adapters of a connection hand over.
mod Tests
use trixter.Prelude.{
  ℕ, ◌≡◌, refl, sym, ap, subst, ◌∙◌, inl, inr, List, [], ◌++◌, append-nil, append_assoc, drop,
  drop-append, length,
}
use trixter.Tokio.{
  AsyncWrite, AsyncRead, ReadBuf, ReadBufLaws, Timer, Rng, ReadContract, PolledRead, Gives,
}
use trixter.Tokio.Calls.{Preserves, Calls, Calls-Preserves}
use trixter.Probability.{DynamicProbability, dynamic_threshold}
use trixter.Corrupter.{corrupter_write, poll_read}
use trixter.Corrupter.Passes.{corrupter_write-Preserves}
use trixter.Corrupter.Reads.{FillLaw, Noise, poll_read-corrupts}
use trixter.Drain.Merge.{Merge, nothing, injected, forwarded}
use trixter.Terminator.{Terminator, terminator_write, terminator_read}
use trixter.Terminator.Contract.{terminator_read-ReadContract}
use trixter.Terminator.Passes.{terminator_write-Preserves}
use trixter.Slicer.{sliced_write, sliced_read, dynamic_size}
use trixter.Slicer.Passes.{sliced_write-Preserves}
use trixter.Delayer.{DynamicDuration, dynamic_duration}
use trixter.Delayer.Writer.{delayed_write, delayed_writer_read}
use trixter.Delayer.Writer.Passes.{delayed_write-Preserves}
use trixter.Throttler.{DynamicRate, dynamic_rate}
use trixter.Throttler.Writer.{throttled_write, throttled_writer_read}
use trixter.Throttler.Writer.Passes.{throttled_write-Preserves_inner}
use trixter.Proxy.Stack.{Shaped, on_socket}
use trixter.Proxy.Task.{Knobs, Faulty}
use trixter.Proxy.Task.Limit.{set_knobs}

-- What a read has put into its buffer.
abbrev pub appended : {B : Type 0} → ReadBuf B → B → B → List ℕ
appended rb buf buf' = drop (length (rb.filled buf)) (rb.filled buf')

module _ (Cx B : Type 0) {T Sleep G : Type 0} ⦃tm : Timer Cx Sleep⦄ ⦃rn : Rng G⦄
    ⦃w : AsyncWrite Cx T⦄ ⦃rb : ReadBuf B⦄ ⦃r : AsyncRead Cx B T⦄ where
  -- What becomes of the adapters of a connection while they are read and the calls of the write half
  -- are made and the API sets the knobs in between, with the bytes that the reads have handed over.
  pub data Handed (first : Faulty T Sleep G) : Faulty T Sleep G → List ℕ → Type 0 where
    opened : Handed first first []
    read :
        {this : Faulty T Sleep G} {got : List ℕ}
        → Handed first this got
        → (cx : Cx) (buf : B)
        → Handed first (poll_read this cx buf).1 (got ++ appended rb buf (poll_read this cx buf).2)
    write_half :
        {this this' : Faulty T Sleep G} {got : List ℕ}
        → Handed first this got
        → Calls Cx this this'
        → Handed first this' got
    set :
        {this : Faulty T Sleep G} {got : List ℕ}
        → Handed first this got
        → (k : Knobs) → Handed first (set_knobs this k) got

-- What was handed over is a merge of the bytes taken off the socket and of noise.
pub record Noisy (old new got : List ℕ) : Type 0 where
  pub noise : List ℕ
  pub taken : List ℕ
  pub merged : Merge noise taken got
  pub grown : new ≡ old ++ taken

Noisy-taken :
    (old new got new' chunk : List ℕ)
    → new' ≡ new ++ chunk
    → Noisy old new got
    → Noisy old new' (got ++ chunk)
Noisy-taken old new got new' chunk h n = record {
  noise = n.noise;
  taken = n.taken ++ chunk;
  merged = forwarded n.merged chunk;
  grown = h ∙ ap (λ xs. xs ++ chunk) n.grown ∙ append_assoc old n.taken chunk;
}

Noisy-noise :
    (old new got new' chunk : List ℕ)
    → new' ≡ new
    → Noisy old new got
    → Noisy old new' (got ++ chunk)
Noisy-noise old new got new' chunk h n = record {
  noise = n.noise ++ chunk;
  taken = n.taken;
  merged = injected n.merged chunk;
  grown = h ∙ n.grown;
}

appended-filled :
    {B : Type 0} (rb : ReadBuf B) (buf buf' : B) (chunk : List ℕ)
    → rb.filled buf' ≡ rb.filled buf ++ chunk
    → appended rb buf buf' ≡ chunk
appended-filled rb buf buf' chunk h =
    ap (λ xs. drop (length (rb.filled buf)) xs) h ∙ drop-append (rb.filled buf) chunk

module _ {Cx B T Sleep G : Type 0} ⦃tm : Timer Cx Sleep⦄ ⦃rn : Rng G⦄ ⦃w : AsyncWrite Cx T⦄
    ⦃rb : ReadBuf B⦄ ⦃r : AsyncRead Cx B T⦄ {given : T → List ℕ} (c : ReadContract rb r given)
    (quiet : (taken : List ℕ) → Preserves w (λ t. given t ≡ taken)) (fills : FillLaw rn)
    (laws : ReadBufLaws rb) where
  abbrev off_socket : Faulty T Sleep G → List ℕ
  off_socket this = on_socket given this.inner.inner

  faulty_write-quiet :
      (taken : List ℕ)
      → Preserves
          (corrupter_write {Cx = Cx} {T = Terminator (Shaped T Sleep) DynamicProbability G}
            {P = DynamicProbability} {G = G})
          (λ this. off_socket this ≡ taken)
  faulty_write-quiet taken = corrupter_write-Preserves (
      terminator_write-Preserves (
        sliced_write-Preserves
          (throttled_write-Preserves_inner (delayed_write-Preserves (quiet taken)))))

  inner_read-ReadContract :
      ReadContract rb
        (terminator_read {Cx = Cx} {T = Shaped T Sleep} {P = DynamicProbability} {G = G} {B = B})
        (λ this. on_socket given this.inner)
  inner_read-ReadContract =
      terminator_read-ReadContract
        (record { read_law = λ this cx buf. c.read_law this.inner.inner.inner cx buf })

  read-Noisy :
      (old got : List ℕ) (this : Faulty T Sleep G) (cx : Cx) (buf : B)
      → Noisy old (off_socket this) got
      → let (res, this', buf', cx') = poll_read this cx buf in
        Noisy old (off_socket this') (got ++ appended rb buf buf')
  read-Noisy old got this cx buf n =
      let (res, this', buf', cx') = poll_read this cx buf in
      let put_by = λ (chunk : List ℕ) (put : rb.filled buf' ≡ rb.filled buf ++ chunk).
        subst (λ xs. Noisy old (off_socket this') (got ++ xs))
          (sym (appended-filled rb buf buf' chunk put)) in
      elim (poll_read-corrupts fills laws this cx buf) [
        | inl (hit, noise) ↦ put_by noise.noise noise.put (
            Noisy-noise old (off_socket this) got (off_socket this') noise.noise
              (ap
                (λ (t : Terminator (Shaped T Sleep) DynamicProbability G). on_socket given t.inner)
                noise.untouched.0)
              n)
        | inr (miss, (same, kept)) ↦
            let gives =
              subst
                (λ (p : PolledRead (Terminator (Shaped T Sleep) DynamicProbability G) B Cx).
                  Gives rb (off_socket this) (on_socket given p.1.inner) buf p.2)
                (sym same) (inner_read-ReadContract.read_law this.inner cx buf) in
            put_by gives.chunk gives.put
              (Noisy-taken old (off_socket this) got (off_socket this') gives.chunk gives.taken n)
      ]

  -- The adapters of one direction of a connection over a socket whose reads keep the contract of
  -- `AsyncRead` and whose write half takes nothing off it. They are read into any buffers, and in
  -- between the calls of the write half are made and the API sets the five knobs. At every time what
  -- the reads have put into their buffers is a merge of two sequences, each in its own order: exactly
  -- the bytes that came off the socket since, and noise.
  pub Handed-Noisy :
      {first this : Faulty T Sleep G} {got : List ℕ}
      → Handed Cx B first this got
      → Noisy (off_socket first) (off_socket this) got
  Handed-Noisy {first} opened = record {
    noise = [];
    taken = [];
    merged = nothing;
    grown = sym (append-nil (off_socket first));
  }
  Handed-Noisy {first} (read {this} {got} before cx buf) =
      read-Noisy (off_socket first) got this cx buf (Handed-Noisy before)
  Handed-Noisy {first} (write_half {this} {this'} {got} before calls) =
      subst (λ xs. Noisy (off_socket first) xs got)
        (sym (Calls-Preserves (faulty_write-quiet (off_socket this)) refl calls))
        (Handed-Noisy before)
  Handed-Noisy (set before k) = Handed-Noisy before
