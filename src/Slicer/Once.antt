-- ===== src/Slicer/Once.antt =====
-- tokio-netem/src/slicer.rs: one `write`, polled until it finishes, whatever happens in between.
use trixter.Prelude.{ℕ, ◌≤◌, ◌≡◌, subst, false, List, ◌++◌, arith, length, take, is_empty}
use trixter.Tokio.{Poll, pending, ready, Result, ok, err, panic, spin, AsyncWrite, WriteContract}
use trixter.Slicer.{writing, SlicedWriter, Size, poll_write, poll_flush}
use trixter.Slicer.Writes.{Owes, Written, poll_write-Written}

abbrev pub Unfinished : Poll (Result ℕ) → Type 0
Unfinished (ready (ok n)) = ⊥
Unfinished _ = Unit {0}

module _ (Cx : Type 0) {T S : Type 0} ⦃w : AsyncWrite Cx T⦄ ⦃sz : Size S⦄ where
  -- What may happen between the first poll of a write and its last: polls of the same buffer that do
  -- not finish, made while the slice size is not 0, flushes in between, and the slice size set anew.
  pub data Retries (buf : List ℕ) (first : SlicedWriter T S) : SlicedWriter T S → Type 0 where
    start : Retries buf first first
    polled :
        {t : SlicedWriter T S}
        → Retries buf first t
        → (cx : Cx) → sz.is_zero t.size ≡ false
        → Unfinished (poll_write t cx buf).0
        → Retries buf first (poll_write t cx buf).1
    flushed :
        {t : SlicedWriter T S}
        → Retries buf first t
        → (cx : Cx) → Retries buf first (poll_flush t cx).1
    resized :
        {t : SlicedWriter T S}
        → Retries buf first t
        → (size : S) → Retries buf first (record t { size = size })

module _ {Cx T S : Type 0} ⦃w : AsyncWrite Cx T⦄ ⦃sz : Size S⦄ {sent : T → List ℕ}
    (c : WriteContract w sent) where
  poll_flush-Owes :
      (this : SlicedWriter T S) (cx : Cx) (past buf : List ℕ)
      → Owes sent this past buf
      → Owes sent (poll_flush this cx).1 past buf
  unfolding poll_flush
  poll_flush-Owes this cx past buf o = ground (arith, c.flush_law this.inner cx)

  Owes-of_Unfinished :
      (r : Poll (Result ℕ)) (this : SlicedWriter T S) (past buf : List ℕ)
      → Unfinished r
      → Written sent r this past buf
      → Owes sent this past buf
  Owes-of_Unfinished pending this past buf u h = h
  Owes-of_Unfinished (ready (ok n)) this past buf u h = absurd u
  Owes-of_Unfinished (ready (err e)) this past buf u h = h
  Owes-of_Unfinished (ready panic) this past buf u h = absurd h
  Owes-of_Unfinished (ready spin) this past buf u h = h

  Retries-Owes :
      (past buf : List ℕ) {first t : SlicedWriter T S}
      → is_empty buf ≡ false
      → Owes sent first past buf
      → Retries Cx buf first t
      → Owes sent t past buf
  Retries-Owes past buf e o start = o
  Retries-Owes past buf e o (polled {t = t} rs cx z u) =
      Owes-of_Unfinished _ _ past buf u
        (poll_write-Written c t cx past buf z e (Retries-Owes past buf e o rs))
  Retries-Owes past buf e o (flushed {t = t} rs cx) =
      poll_flush-Owes t cx past buf (Retries-Owes past buf e o rs)
  Retries-Owes past buf e o (resized rs size) = Retries-Owes past buf e o rs

  -- Over an inner writer that keeps its contract, from a state that has sent `past` and owes no
  -- flush: a write of a buffer that is not empty, polled with the same bytes until it finishes, and
  -- only while the slice size is not 0, has sent exactly the bytes that it reports, once, after
  -- `past`, and owes no flush again.
  pub Retries-poll_write :
      {first t : SlicedWriter T S} (cx : Cx) (past buf : List ℕ) (n : ℕ)
      → first.phase ≡ writing
      → sent first.inner ≡ past
      → is_empty buf ≡ false
      → Retries Cx buf first t
      → sz.is_zero t.size ≡ false
      → (poll_write t cx buf).0 ≡ ready (ok n)
      → (n ≤ length buf)
        × ((poll_write t cx buf).1.phase ≡ writing)
        × (sent (poll_write t cx buf).1.inner ≡ past ++ take n buf)
  Retries-poll_write {first} {t} cx past buf n p o e rs z done =
      let owes : Owes sent first past buf = ground arith in
      subst (λ r. Written sent r (poll_write t cx buf).1 past buf) done
        (poll_write-Written c t cx past buf z e (Retries-Owes past buf e owes rs))
