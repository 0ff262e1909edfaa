-- ===== src/Tokio/Calls.antt =====
-- The calls that a holder of an I/O object makes, and what they cannot change.
use trixter.Prelude.{ℕ, ◌≢◌, List, concat}
use trixter.Tokio.Task.{Poll, pending, ready, Result, ok, err, panic, spin, Polled, ready_ok}
use trixter.Tokio.Traits.{AsyncWrite, AsyncRead}
use trixter.Tokio.Contract.{WriteContract, Accepts, Keeps}

module _ (Cx : Type 0) {T : Type 0} ⦃w : AsyncWrite Cx T⦄ where
  -- The objects that calls of the write half reach, in any order and at any times.
  pub data Calls (first : T) : T → Type 0 where
    created : Calls first first
    write :
        {t : T} → Calls first t → (cx : Cx) (buf : List ℕ) → Calls first (w.poll_write t cx buf).1
    write_vectored :
        {t : T}
        → Calls first t
        → (cx : Cx) (bufs : List (List ℕ)) → Calls first (w.poll_write_vectored t cx bufs).1
    flush : {t : T} → Calls first t → (cx : Cx) → Calls first (w.poll_flush t cx).1
    shutdown : {t : T} → Calls first t → (cx : Cx) → Calls first (w.poll_shutdown t cx).1

-- Each call of the write half keeps `P`, also one that is pending or fails.
pub record Preserves {Cx T : Type 0} (w : AsyncWrite Cx T) (P : T → Type 0) : Type 0 where
  pub write : (t : T) (cx : Cx) (buf : List ℕ) → P t → P (w.poll_write t cx buf).1
  pub write_vectored :
      (t : T) (cx : Cx) (bufs : List (List ℕ)) → P t → P (w.poll_write_vectored t cx bufs).1
  pub flush : (t : T) (cx : Cx) → P t → P (w.poll_flush t cx).1
  pub shutdown : (t : T) (cx : Cx) → P t → P (w.poll_shutdown t cx).1

module _ {Cx T : Type 0} ⦃w : AsyncWrite Cx T⦄ {P : T → Type 0} (keeps : Preserves w P) where
  pub Calls-Preserves : {first t : T} → P first → Calls Cx first t → P t
  Calls-Preserves p created = p
  Calls-Preserves p (write {t} before cx buf) = keeps.write t cx buf (Calls-Preserves p before)
  Calls-Preserves p (write_vectored {t} before cx bufs) =
      keeps.write_vectored t cx bufs (Calls-Preserves p before)
  Calls-Preserves p (flush {t} before cx) = keeps.flush t cx (Calls-Preserves p before)
  Calls-Preserves p (shutdown {t} before cx) = keeps.shutdown t cx (Calls-Preserves p before)

-- The calls of both halves.
module _ (Cx B : Type 0) {T : Type 0} ⦃w : AsyncWrite Cx T⦄ ⦃r : AsyncRead Cx B T⦄ where
  pub data Uses (first : T) : T → Type 0 where
    opened : Uses first first
    call : {t t' : T} → Uses first t → Calls Cx t t' → Uses first t'
    read : {t : T} → Uses first t → (cx : Cx) (buf : B) → Uses first (r.poll_read t cx buf).1

pub record ReadPreserves {Cx B T : Type 0} (r : AsyncRead Cx B T) (P : T → Type 0) : Type 0 where
  pub read : (t : T) (cx : Cx) (buf : B) → P t → P (r.poll_read t cx buf).1

module _ {Cx B T : Type 0} ⦃w : AsyncWrite Cx T⦄ ⦃r : AsyncRead Cx B T⦄ {P : T → Type 0}
    (keeps : Preserves w P) (read_keeps : ReadPreserves r P) where
  pub Uses-Preserves : {first t : T} → P first → Uses Cx B first t → P t
  Uses-Preserves p opened = p
  Uses-Preserves p (call before calls) = Calls-Preserves keeps (Uses-Preserves p before) calls
  Uses-Preserves p (read {t} before cx buf) = read_keeps.read t cx buf (Uses-Preserves p before)

-- `ready!(e?)` leaves what the value's continuation leaves, or what stood before it.
module _ {A B T Cx : Type 0} (P : T → Type 0) where
  pub ready_ok-holds :
      (r : Poll (Result A)) (t : T) (cx : Cx) (k : A → Polled B T Cx)
      → P t
      → ((a : A) → P (k a).1)
      → P (ready_ok r t cx k).1
  ready_ok-holds pending t cx k p q = p
  ready_ok-holds (ready (ok a)) t cx k p q = q a
  ready_ok-holds (ready (err e)) t cx k p q = p
  ready_ok-holds (ready panic) t cx k p q = p
  ready_ok-holds (ready spin) t cx k p q = p

-- The contract of a writer in the states that are `Good`, which the calls of the write half keep.
pub record WriteContractOn {Cx T : Type 0} (w : AsyncWrite Cx T) (Good : T → Type 0)
    (sent : T → List ℕ) : Type 0 where
  pub keeps : Preserves w Good
  pub write_law :
      (t : T) (cx : Cx) (buf : List ℕ)
      → Good t
      → Accepts (w.poll_write t cx buf).0 buf (sent t) (sent (w.poll_write t cx buf).1)
  pub flush_law :
      (t : T) (cx : Cx) → Good t → Keeps (w.poll_flush t cx).0 (sent t) (sent (w.poll_flush t cx).1)
  pub shutdown_law :
      (t : T) (cx : Cx)
      → Good t
      → Keeps (w.poll_shutdown t cx).0 (sent t) (sent (w.poll_shutdown t cx).1)
  pub vectored_law :
      (t : T) (cx : Cx) (bufs : List (List ℕ))
      → Good t
      → Accepts
          (w.poll_write_vectored t cx bufs).0
          (concat bufs)
          (sent t)
          (sent (w.poll_write_vectored t cx bufs).1)

pub always :
    {Cx T : Type 0} {w : AsyncWrite Cx T} {sent : T → List ℕ}
    → WriteContract w sent
    → WriteContractOn w (λ t. Unit {0}) sent
always c = record {
  keeps = record {
    write = λ t cx buf g. tt;
    write_vectored = λ t cx bufs g. tt;
    flush = λ t cx g. tt;
    shutdown = λ t cx g. tt;
  };
  write_law = λ t cx buf g. c.write_law t cx buf;
  flush_law = λ t cx g. c.flush_law t cx;
  shutdown_law = λ t cx g. c.shutdown_law t cx;
  vectored_law = λ t cx bufs g. c.vectored_law t cx bufs;
}

-- The loops of a write end.
abbrev pub Ends : {Cx T : Type 0} → AsyncWrite Cx T → Type 0
Ends {Cx} {T} w = (t : T) (cx : Cx) (buf : List ℕ) → (w.poll_write t cx buf).0 ≢ ready spin
