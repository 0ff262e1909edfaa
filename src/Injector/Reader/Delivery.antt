-- ===== src/Injector/Reader/Delivery.antt =====
-- tokio-netem/src/injector.rs: what the reads of a `ReadInjector` hand over.
use trixter.Prelude.{
  ℕ, min, ◌≡◌, refl, sym, ap, subst, ◌∙◌, List, [], ◌∷◌, ◌++◌, append-nil, Option, none, some,
  arith, length, take, drop, length-take, is_empty, drop-append, take-append-drop, if◌then◌else◌,
}
use trixter.Tokio.{
  Poll, pending, ready, AsyncRead, ReadBuf, ReadBufLaws, Channel, ChannelLaws, Receives,
  ReadContract,
}
use trixter.Drain.Sends.{left_in, sent_after}
use trixter.Drain.Merge.{Woven, Woven-start, Woven-inject, Woven-forward}
use trixter.Injector.Reader.{ReadInjector, hand_out, read_received, read_from, poll_read}

-- The bytes that a call put in the caller's buffer.
abbrev pub fresh : {B : Type 0} → ReadBuf B → B → B → List ℕ
fresh rb buf buf' = drop (length (rb.filled buf)) (rb.filled buf')

fresh-chunk :
    {B : Type 0} (rb : ReadBuf B) (buf buf' : B) (chunk : List ℕ)
    → rb.filled buf' ≡ rb.filled buf ++ chunk
    → fresh rb buf buf' ≡ chunk
fresh-chunk rb buf buf' chunk h =
    ap (λ xs. drop (length (rb.filled buf)) xs) h ∙ drop-append (rb.filled buf) chunk

left_in-rest : (xs : List ℕ) → left_in (if is_empty xs then none else some xs) ≡ xs
left_in-rest [] = refl
left_in-rest (x ∷ xs) = refl

module _ (Cx B : Type 0) {T Rx : Type 0} ⦃rb : ReadBuf B⦄ ⦃r : AsyncRead Cx B T⦄
    ⦃ch : Channel Cx Rx⦄ where
  -- The injectors that reads reach from `first`, with the bytes that the readers were handed.
  pub data Reads (first : ReadInjector T Rx) : ReadInjector T Rx → List ℕ → Type 0 where
    created : Reads first first []
    read :
        {this : ReadInjector T Rx} {seen : List ℕ}
        → Reads first this seen
        → (cx : Cx) (buf : B)
        → Reads first (poll_read this cx buf).1 (seen ++ fresh rb buf (poll_read this cx buf).2)

module _ {Cx T Rx B : Type 0} ⦃rb : ReadBuf B⦄ ⦃r : AsyncRead Cx B T⦄ ⦃ch : Channel Cx Rx⦄
    {log : Rx → List ℕ} {budget : Cx → ℕ} {given : T → List ℕ} (laws : ReadBufLaws rb)
    (messages : ChannelLaws ch log budget) (c : ReadContract rb r given) where
  -- What reads have handed over since an injector was `first`: `own` came from the inner reader.
  pub record Handed (first this : ReadInjector T Rx) (seen : List ℕ) : Type 0 where
    pub own : List ℕ
    pub own_given : given this.inner ≡ given first.inner ++ own
    pub woven :
        Woven
          (left_in first.buffer)
          (left_in this.buffer)
          []
          seen
          (log first.inject_rx)
          (log this.inject_rx)
          own

  module _ {first this : ReadInjector T Rx} {seen : List ℕ} (so_far : Handed first this seen) where
    hand_out-Handed :
        (buffer received : List ℕ) (rx : Rx) (was : Option (List ℕ)) (cx : Cx) (buf : B)
        → left_in this.buffer ++ received ≡ buffer
        → log rx ≡ log this.inject_rx ++ received
        → let (res, this', buf', cx') =
            hand_out buffer (record { inner = this.inner; buffer = was; inject_rx = rx }) cx buf in
          Handed first this' (seen ++ fresh rb buf buf')
    unfolding hand_out
    hand_out-Handed buffer received rx was cx buf e l =
        let n = min (rb.remaining buf) (length buffer) in
        let chunk = take n buffer in
        let rest = drop n buffer in
        let fits = laws.filled-put_slice buf chunk (omega (arith, length-take n buffer)) in
        record {
          own = so_far.own;
          own_given = so_far.own_given;
          woven =
              Woven-inject so_far.woven (left_in (if is_empty rest then none else some rest))
                (seen ++ fresh rb buf (rb.put_slice buf chunk)) (log rx) received l
                (record {
                  part = chunk;
                  kept =
                      ap (λ xs. chunk ++ xs) (left_in-rest rest)
                      ∙ take-append-drop n buffer
                      ∙ sym e;
                  added =
                      ap (λ xs. seen ++ xs)
                        (fresh-chunk rb buf (rb.put_slice buf chunk) chunk fits);
                });
        }

    inner-Handed :
        (rx : Rx) (cx : Cx) (buf : B)
        → log rx ≡ log this.inject_rx
        → left_in this.buffer ≡ []
        → let (res, inner, buf', cx') = r.poll_read this.inner cx buf in
          Handed first
            (record { inner = inner; buffer = none; inject_rx = rx })
            (seen ++ fresh rb buf buf')
    inner-Handed rx cx buf l e =
        let (res, inner, buf', cx') = r.poll_read this.inner cx buf in
        let g = c.read_law this.inner cx buf in
        let still =
          Woven-inject so_far.woven [] seen (log rx) [] (l ∙ sym (append-nil (log this.inject_rx)))
            (record {
              part = [];
              kept = ap (λ xs. xs ++ []) (sym e);
              added = sym (append-nil seen);
            }) in
        record {
          own = so_far.own ++ g.chunk;
          own_given =
              sent_after so_far.own g.chunk (given first.inner) (given this.inner) (given inner)
                so_far.own_given g.taken;
          woven =
              Woven-forward still (seen ++ fresh rb buf buf') g.chunk
                (ap (λ xs. seen ++ xs) (fresh-chunk rb buf buf' g.chunk g.put));
        }

    read_received-Handed :
        (message : Poll (Option (List ℕ))) (rx : Rx) (before after : ℕ) (cx : Cx) (buf : B)
        → this.buffer ≡ none
        → Receives message (log this.inject_rx) (log rx) before after
        → let (res, this', buf', cx') =
            read_received message
              (record { inner = this.inner; buffer = none; inject_rx = rx })
              cx
              buf in
          Handed first this' (seen ++ fresh rb buf buf')
    unfolding read_received
    read_received-Handed (ready (some b)) rx before after cx buf e l =
        hand_out-Handed b b rx (some b) cx buf (ap (λ q. left_in q ++ b) e) l.0
    read_received-Handed (ready none) rx before after cx buf e l =
        inner-Handed rx cx buf l.0 (ap left_in e)
    read_received-Handed pending rx before after cx buf e l =
        inner-Handed rx cx buf l.0 (ap left_in e)

    read_from-Handed :
        (found : Option (List ℕ)) (cx : Cx) (buf : B)
        → this.buffer ≡ found
        → let (res, this', buf', cx') = read_from found this cx buf in
          Handed first this' (seen ++ fresh rb buf buf')
    unfolding read_from
    read_from-Handed (some buffer) cx buf e =
        hand_out-Handed buffer [] this.inject_rx this.buffer cx buf
          (ap (λ q. left_in q ++ []) e ∙ append-nil buffer) (sym (append-nil (log this.inject_rx)))
    read_from-Handed none cx buf e =
        let (message, rx, cx') = ch.poll_recv this.inject_rx cx in
        subst
          (λ was.
            let (res, this', buf', cx'') =
              read_received message (record { inner = this.inner; buffer = was; inject_rx = rx })
                cx' buf in
            Handed first this' (seen ++ fresh rb buf buf'))
          (sym e)
          (read_received-Handed message rx (budget cx) (budget cx') cx' buf e
            (messages.recv_law this.inject_rx cx))

  -- After any run of reads through an injector, whose inner reader puts the bytes that it takes from
  -- its stream behind what the caller's buffer had, the bytes that all the reads together handed
  -- over are a merge of two sequences, each in its own order: exactly the bytes that the inner
  -- reader gave out since, and the injected bytes. These and what still waits in the injector are in
  -- a row what waited at first and then every message that the channel gave out since.
  pub Reads-Handed :
      {first this : ReadInjector T Rx} {seen : List ℕ}
      → Reads Cx B first this seen
      → Handed first this seen
  unfolding poll_read
  Reads-Handed {first} created = record {
    own = [];
    own_given = sym (append-nil (given first.inner));
    woven = Woven-start (left_in first.buffer) [] (log first.inject_rx);
  }
  Reads-Handed (read {this} before cx buf) =
      read_from-Handed (Reads-Handed before) this.buffer cx buf refl
