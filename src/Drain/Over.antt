-- ===== src/Drain/Over.antt =====
-- The loop that writes a queued buffer out, over a writer that does not keep its contract.
use trixter.Prelude.{
  ℕ, suc, ◌<◌, ◌≡◌, refl, true, false, ◌==◌, ltb, List, [], ◌∷◌, arith, length, is_empty,
}
use trixter.Tokio.{ready, ok, panic, AsyncWrite}
use trixter.Drain.{returned, advance, drain_loop, drain}

-- The first write of the loop reports more bytes than it was given.
module _ {Cx T : Type 0} ⦃w : AsyncWrite Cx T⦄ where
  pub drain-panics :
      (inner : T) (cx : Cx) (queue : List ℕ) (n : ℕ)
      → is_empty queue ≡ false
      → length queue < n
      → (w.poll_write inner cx queue).0 ≡ ready (ok n)
      → drain inner cx queue
        ≡ returned
            (ready panic)
            (w.poll_write inner cx queue).1
            queue
            (w.poll_write inner cx queue).2
  unfolding drain drain_loop advance
  drain-panics inner cx [] n e short h = absurd cc
  drain-panics inner cx (x ∷ queue) n e short h =
      let some : (n == 0) ≡ false = ground arith in
      let over : ltb (suc (length queue)) n ≡ true = ground arith in rw (h, some, over) refl
