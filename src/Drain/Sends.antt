-- ===== src/Drain/Sends.antt =====
-- tokio-netem/src/corrupter.rs and tokio-netem/src/injector.rs: a queued buffer is sent whole and
-- in order, and before the caller's bytes.
use native.Mathlib.Nat.{le_refl}
use trixter.Prelude.{
  ℕ, zero, suc, ◌≤◌, ◌<◌, ◌≡◌, refl, sym, ap, subst, ◌∙◌, inl, inr, true, false, ◌==◌, ltb,
  Bool-cases, List, [], ◌∷◌, ◌++◌, append-nil, append_assoc, Option, none, some, arith, length,
  is_empty, take, drop, length-drop, take-append-drop,
}
use trixter.Tokio.{Poll, pending, ready, Result, ok, err, panic, spin, AsyncWrite, Accepts}
use trixter.Tokio.Calls.{WriteContractOn}
use trixter.Drain.{Drained, drained, returned, advance, drain_loop, drain}

abbrev pub left_in : Option (List ℕ) → List ℕ
left_in none = []
left_in (some buffer) = buffer

-- Of the queue, a first part was sent and the rest is left.
pub record Partly (queue left old new : List ℕ) : Type 0 where
  pub part : List ℕ
  pub kept : part ++ left ≡ queue
  pub added : new ≡ old ++ part

-- A write came to `r`: if it reports `n` bytes, all the queue and then the first `n` bytes of the
-- buffer were sent, and none is left; else a first part of the queue was sent, and the rest is left.
-- `Spin` tells of a write whose loop has not ended; what it has sent so far is such a part too.
abbrev pub QueuedOr : Type 0 → Poll (Result ℕ) → List ℕ → List ℕ → List ℕ → List ℕ → List ℕ → Type 0
QueuedOr Spin (ready (ok n)) buf queue left old new =
    (n ≤ length buf) × (left ≡ []) × (new ≡ (old ++ queue) ++ take n buf)
QueuedOr Spin pending buf queue left old new = Partly queue left old new
QueuedOr Spin (ready (err e)) buf queue left old new = Partly queue left old new
QueuedOr Spin (ready panic) buf queue left old new = ⊥
QueuedOr Spin (ready spin) buf queue left old new = Partly queue left old new × Spin

-- The same of a write that ends.
abbrev pub Queued : Poll (Result ℕ) → List ℕ → List ℕ → List ℕ → List ℕ → List ℕ → Type 0
Queued r buf queue left old new = QueuedOr ⊥ r buf queue left old new

-- The same of the loop that sends the queue.
abbrev pub SendsOr :
    {Cx T : Type 0} → Type 0 → (T → List ℕ) → Drained T Cx → List ℕ → List ℕ → Type 0
SendsOr Spin sent (drained inner cx) queue old = sent inner ≡ old ++ queue
SendsOr Spin sent (returned (ready (ok n)) inner left cx) queue old = ⊥
SendsOr Spin sent (returned (ready panic) inner left cx) queue old = ⊥
SendsOr Spin sent (returned (ready spin) inner left cx) queue old =
    Partly queue left old (sent inner) × Spin
SendsOr Spin sent (returned (ready (err e)) inner left cx) queue old =
    Partly queue left old (sent inner)
SendsOr Spin sent (returned pending inner left cx) queue old = Partly queue left old (sent inner)

abbrev pub Sends : {Cx T : Type 0} → (T → List ℕ) → Drained T Cx → List ℕ → List ℕ → Type 0
Sends sent d queue old = SendsOr ⊥ sent d queue old

empty_of : (xs : List ℕ) → is_empty xs ≡ true → xs ≡ []
empty_of [] h = refl
empty_of (x ∷ xs) h = cc

empty_of_short : (xs : List ℕ) → length xs ≤ 0 → xs ≡ []
empty_of_short [] h = refl
empty_of_short (x ∷ xs) h = absurd (omega arith)

-- Nothing of the queue was sent.
unsent : (queue old new : List ℕ) → new ≡ old → Partly queue queue old new
unsent queue old new h = record { part = []; kept = refl; added = h ∙ sym (append-nil old) }

-- All of it was.
pub all_sent : (queue old new : List ℕ) → new ≡ old ++ queue → Partly queue [] old new
all_sent queue old new h = record { part = queue; kept = append-nil queue; added = h }

-- The queue is `first` and then `queue`; `first` was sent before.
pub sent_after :
    (first queue old old' new : List ℕ)
    → old' ≡ old ++ first
    → new ≡ old' ++ queue
    → new ≡ old ++ (first ++ queue)
sent_after first queue old old' new e h =
    h ∙ ap (λ xs. xs ++ queue) e ∙ append_assoc old first queue

Partly-after :
    (first queue left old old' new : List ℕ)
    → old' ≡ old ++ first
    → Partly queue left old' new
    → Partly (first ++ queue) left old new
Partly-after first queue left old old' new e p = record {
  part = first ++ p.part;
  kept = append_assoc first p.part left ∙ ap (λ xs. first ++ xs) p.kept;
  added = sent_after first p.part old old' new e p.added;
}

pub Queued-after :
    (r : Poll (Result ℕ)) (buf first queue left old old' new : List ℕ)
    → old' ≡ old ++ first
    → Queued r buf queue left old' new
    → Queued r buf (first ++ queue) left old new
Queued-after pending buf first queue left old old' new e h =
    Partly-after first queue left old old' new e h
Queued-after (ready (ok n)) buf first queue left old old' new e h = (
  h.0,
  h.1,
  h.2 ∙ ap (λ xs. xs ++ take n buf) (sent_after first queue old old' (old' ++ queue) e refl),
)
Queued-after (ready (err x)) buf first queue left old old' new e h =
    Partly-after first queue left old old' new e h
Queued-after (ready panic) buf first queue left old old' new e h = h
Queued-after (ready spin) buf first queue left old old' new e h = absurd h.1

module _ {Cx T : Type 0} ⦃w : AsyncWrite Cx T⦄ {Good : T → Type 0} {sent : T → List ℕ}
    (c : WriteContractOn w Good sent) (Spin : Type 0)
    (ends : (t : T) (cx : Cx) (buf : List ℕ) → (w.poll_write t cx buf).0 ≡ ready spin → Spin) where
  Sends-after :
      (d : Drained T Cx) (first queue old old' : List ℕ)
      → old' ≡ old ++ first
      → SendsOr Spin sent d queue old'
      → SendsOr Spin sent d (first ++ queue) old
  Sends-after (drained inner cx) first queue old old' e h =
      sent_after first queue old old' (sent inner) e h
  Sends-after (returned pending inner left cx) first queue old old' e h =
      Partly-after first queue left old old' (sent inner) e h
  Sends-after (returned (ready (err x)) inner left cx) first queue old old' e h =
      Partly-after first queue left old old' (sent inner) e h
  Sends-after (returned (ready (ok n)) inner left cx) first queue old old' e h = h
  Sends-after (returned (ready panic) inner left cx) first queue old old' e h = h
  Sends-after (returned (ready spin) inner left cx) first queue old old' e h =
      (Partly-after first queue left old old' (sent inner) e h.0, h.1)

  advance-Sends :
      (again : T → Cx → List ℕ → Drained T Cx) (r : Poll (Result ℕ)) (inner : T) (cx : Cx)
      (queue old : List ℕ)
      → (r ≡ ready spin → Spin)
      → Accepts r queue old (sent inner)
      → ((n : ℕ)
          → 0 < n
          → n ≤ length queue
          → SendsOr Spin sent (again inner cx (drop n queue)) (drop n queue) (sent inner))
      → SendsOr Spin sent (advance again (r, inner, cx) queue) queue old
  unfolding advance
  advance-Sends again pending inner cx queue old ns a k = unsent queue old (sent inner) a
  advance-Sends again (ready (ok n)) inner cx queue old ns a k = elim (Bool-cases (n == 0)) [
    | inl z ↦
        let none_sent : n ≡ 0 = ground arith in
        rw z (
          unsent queue old (sent inner)
            (a.1 ∙ ap (λ m. old ++ take m queue) none_sent ∙ append-nil old))
    | inr nz ↦
        let fits : ltb (length queue) n ≡ false = ground arith in
        rw (nz, fits)
          (subst (λ xs. SendsOr Spin sent (again inner cx (drop n queue)) xs old)
            (take-append-drop n queue)
            (Sends-after (again inner cx (drop n queue)) (take n queue) (drop n queue) old
              (sent inner) a.1 (k n (ground arith) a.0)))
  ]
  advance-Sends again (ready (err e)) inner cx queue old ns a k = unsent queue old (sent inner) a
  advance-Sends again (ready panic) inner cx queue old ns a k = a
  advance-Sends again (ready spin) inner cx queue old ns a k =
      (unsent queue old (sent inner) a, ns refl)

  drain_loop-Sends :
      (fuel : ℕ) (inner : T) (cx : Cx) (queue : List ℕ)
      → length queue ≤ fuel
      → Good inner
      → SendsOr Spin sent (drain_loop fuel inner cx queue) queue (sent inner)
  unfolding drain_loop
  drain_loop-Sends zero inner cx queue h g =
      rw (empty_of_short queue h) (sym (append-nil (sent inner)))
  drain_loop-Sends (suc fuel) inner cx queue h g = elim (Bool-cases (is_empty queue)) [
    | inl e ↦ rw (empty_of queue e) (sym (append-nil (sent inner)))
    | inr ne ↦
        let (r, inner', cx') = w.poll_write inner cx queue in
        rw ne (
          advance-Sends (drain_loop fuel) r inner' cx' queue (sent inner) (ends inner cx queue)
            (c.write_law inner cx queue g)
            (λ n pos short.
              drain_loop-Sends fuel inner' cx' (drop n queue) (omega (arith, length-drop n queue))
                (c.keeps.write inner cx queue g)))
  ]

  pub drain-Sends :
      (inner : T) (cx : Cx) (queue : List ℕ)
      → Good inner
      → SendsOr Spin sent (drain inner cx queue) queue (sent inner)
  unfolding drain
  drain-Sends inner cx queue g =
      drain_loop-Sends (length queue) inner cx queue (le_refl (length queue)) g

-- The buffer's own write, once the queue is sent.
pub real-Queued :
    (Spin : Type 0) (r : Poll (Result ℕ)) (buf queue old mid new : List ℕ)
    → (r ≡ ready spin → Spin)
    → mid ≡ old ++ queue
    → Accepts r buf mid new
    → QueuedOr Spin r buf queue [] old new
real-Queued Spin pending buf queue old mid new ns e a = all_sent queue old new (a ∙ e)
real-Queued Spin (ready (ok n)) buf queue old mid new ns e a =
    (a.0, refl, a.1 ∙ ap (λ xs. xs ++ take n buf) e)
real-Queued Spin (ready (err x)) buf queue old mid new ns e a = all_sent queue old new (a ∙ e)
real-Queued Spin (ready panic) buf queue old mid new ns e a = a
real-Queued Spin (ready spin) buf queue old mid new ns e a =
    (all_sent queue old new (a ∙ e), ns refl)
