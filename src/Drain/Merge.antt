-- ===== src/Drain/Merge.antt =====
-- tokio-netem/src/injector.rs and tokio-netem/src/corrupter.rs: what a stream looks like into which
-- queued bytes are put, messages or noise.
use trixter.Prelude.{
  ℕ, ◌≡◌, refl, sym, ap, subst, ◌∙◌, List, [], ◌++◌, take, append-nil, append_assoc,
}
use trixter.Tokio.{Poll, pending, ready, Result, ok, err, panic, spin, Accepts, Keeps}
use trixter.Drain.Sends.{Partly, QueuedOr, all_sent, sent_after}

-- The third sequence has the bytes of the first two, each in its own order.
pub data Merge : List ℕ → List ℕ → List ℕ → Type 0 where
  nothing : Merge [] [] []
  injected :
      {xs ys zs : List ℕ} → Merge xs ys zs → (chunk : List ℕ) → Merge (xs ++ chunk) ys (zs ++ chunk)
  forwarded :
      {xs ys zs : List ℕ} → Merge xs ys zs → (chunk : List ℕ) → Merge xs (ys ++ chunk) (zs ++ chunk)

-- `old` grew to `new` by a merge of `own` and of injected bytes. With those that are left, the
-- injected bytes are first those that were waiting and then the messages by which the log grew.
pub record Woven (waiting left old new old_log new_log own : List ℕ) : Type 0 where
  pub sent_first : List ℕ
  pub messages : List ℕ
  pub wire : List ℕ
  pub merged : Merge sent_first own wire
  pub grown : new ≡ old ++ wire
  pub logged : new_log ≡ old_log ++ messages
  pub kept : sent_first ++ left ≡ waiting ++ messages

pub Woven-start : (waiting old old_log : List ℕ) → Woven waiting waiting old old old_log old_log []
Woven-start waiting old old_log = record {
  sent_first = [];
  messages = [];
  wire = [];
  merged = nothing;
  grown = sym (append-nil old);
  logged = sym (append-nil old_log);
  kept = sym (append-nil waiting);
}

module _ {waiting left old new old_log new_log own : List ℕ}
    (so_far : Woven waiting left old new old_log new_log own) where
  -- A part of the queue is sent, the messages received just now included.
  pub Woven-inject :
      (left' new' new_log' received : List ℕ)
      → new_log' ≡ new_log ++ received
      → Partly (left ++ received) left' new new'
      → Woven waiting left' old new' old_log new_log' own
  Woven-inject left' new' new_log' received l p = record {
    sent_first = so_far.sent_first ++ p.part;
    messages = so_far.messages ++ received;
    wire = so_far.wire ++ p.part;
    merged = injected so_far.merged p.part;
    grown = sent_after so_far.wire p.part old new new' so_far.grown p.added;
    logged = sent_after so_far.messages received old_log new_log new_log' so_far.logged l;
    kept =
        append_assoc so_far.sent_first p.part left'
        ∙ ap (λ xs. so_far.sent_first ++ xs) p.kept
        ∙ sym (append_assoc so_far.sent_first left received)
        ∙ ap (λ xs. xs ++ received) so_far.kept
        ∙ append_assoc waiting so_far.messages received;
  }

  -- Bytes of the stream itself go on.
  pub Woven-forward :
      (new' chunk : List ℕ)
      → new' ≡ new ++ chunk
      → Woven waiting left old new' old_log new_log (own ++ chunk)
  Woven-forward new' chunk h = record {
    sent_first = so_far.sent_first;
    messages = so_far.messages;
    wire = so_far.wire ++ chunk;
    merged = forwarded so_far.merged chunk;
    grown = sent_after so_far.wire chunk old new new' so_far.grown h;
    logged = so_far.logged;
    kept = so_far.kept;
  }

-- The bytes of `buf` that a write reports.
abbrev pub reported : Poll (Result ℕ) → List ℕ → List ℕ
reported (ready (ok n)) buf = take n buf
reported (ready (err e)) buf = []
reported (ready panic) buf = []
reported (ready spin) buf = []
reported pending buf = []

kept_bytes : (r : Poll (Result (Unit {0}))) (old new : List ℕ) → Keeps r old new → new ≡ old
kept_bytes pending old new k = k
kept_bytes (ready (ok a)) old new k = k
kept_bytes (ready (err e)) old new k = k
kept_bytes (ready panic) old new k = absurd k
kept_bytes (ready spin) old new k = k

module _ {waiting left old new old_log new_log own : List ℕ}
    (so_far : Woven waiting left old new old_log new_log own) where
  Woven-still :
      (new' : List ℕ) → new' ≡ new → Woven waiting left old new' old_log new_log (own ++ [])
  Woven-still new' h = Woven-forward so_far new' [] (h ∙ sym (append-nil new))

  pub Woven-Accepts :
      (r : Poll (Result ℕ)) (buf new' : List ℕ)
      → Accepts r buf new new'
      → Woven waiting left old new' old_log new_log (own ++ reported r buf)
  Woven-Accepts pending buf new' a = Woven-still new' a
  Woven-Accepts (ready (ok n)) buf new' a = Woven-forward so_far new' (take n buf) a.1
  Woven-Accepts (ready (err e)) buf new' a = Woven-still new' a
  Woven-Accepts (ready panic) buf new' a = absurd a
  Woven-Accepts (ready spin) buf new' a = Woven-still new' a

  pub Woven-Keeps :
      (r : Poll (Result (Unit {0}))) (new' : List ℕ)
      → Keeps r new new'
      → Woven waiting left old new' old_log new_log own
  Woven-Keeps r new' k =
      subst (λ xs. Woven waiting left old new' old_log new_log xs) (append-nil own)
        (Woven-still new' (kept_bytes r new new' k))

  pub Woven-Queued :
      (Spin : Type 0) (r : Poll (Result ℕ)) (buf left' new' new_log' received : List ℕ)
      → new_log' ≡ new_log ++ received
      → QueuedOr Spin r buf (left ++ received) left' new new'
      → Woven waiting left' old new' old_log new_log' (own ++ reported r buf)
  Woven-Queued Spin pending buf left' new' new_log' received l q =
      Woven-forward (Woven-inject so_far left' new' new_log' received l q) new' []
        (sym (append-nil new'))
  Woven-Queued Spin (ready (ok n)) buf left' new' new_log' received l q =
      Woven-forward
        (Woven-inject so_far left' (new ++ (left ++ received)) new_log' received l (
          subst (λ xs. Partly (left ++ received) xs new (new ++ (left ++ received))) (sym q.1)
            (all_sent (left ++ received) new (new ++ (left ++ received)) refl)))
        new' (take n buf) q.2
  Woven-Queued Spin (ready (err e)) buf left' new' new_log' received l q =
      Woven-forward (Woven-inject so_far left' new' new_log' received l q) new' []
        (sym (append-nil new'))
  Woven-Queued Spin (ready panic) buf left' new' new_log' received l q = absurd q
  Woven-Queued Spin (ready spin) buf left' new' new_log' received l q =
      Woven-forward (Woven-inject so_far left' new' new_log' received l q.0) new' []
        (sym (append-nil new'))
