-- ===== src/Fixtures/Drip.antt =====
-- A buffered stream that has come in as far as it will: its end is seen at any time but one, at which
-- the task may not go on.
use trixter.Prelude.{
  ℕ, ◌≡◌, ◌≢◌, inl, inr, false, ◌==◌, Bool-cases, if◌then◌else◌, List, [], ◌∷◌, is_empty, drop,
  arith,
}
use trixter.Tokio.{Poll, pending, ready, Result, ok, AsyncBufRead}
use trixter.Delayer.Reader.Full.{Fulfilled, FullLaws}

pub record Drip : Type 0 where
  pub to_come : List ℕ

abbrev pub budget_spent : ℕ
budget_spent = 40

abbrev fill_drip : List ℕ → ℕ → Poll (Result (List ℕ))
fill_drip [] cx = if cx == budget_spent then pending else ready (ok [])
fill_drip (x ∷ xs) cx = ready (ok (x ∷ xs))

instance abbrev pub drip : AsyncBufRead ℕ Drip
drip = record {
  poll_fill_buf = λ t cx. (fill_drip t.to_come cx, t, cx);
  consume = λ t amt. record { to_come = drop amt t.to_come };
}

abbrev pub HasBytes : Drip → Type 0
HasBytes t = is_empty t.to_come ≡ false

fill_drip-Fulfilled :
    (xs : List ℕ) (cx : ℕ) → Fulfilled HasBytes (fill_drip xs cx) (record { to_come = xs })
fill_drip-Fulfilled [] cx = elim (Bool-cases (cx == budget_spent)) [
  | inl spent ↦ rw spent tt
  | inr free ↦ rw free tt
]
fill_drip-Fulfilled (x ∷ xs) cx = ground arith

fill_drip-ready : (xs : List ℕ) (cx : ℕ) → is_empty xs ≡ false → fill_drip xs cx ≢ pending
fill_drip-ready [] cx some h = ground arith
fill_drip-ready (x ∷ xs) cx some h = cc

pub drip_full : FullLaws drip HasBytes
drip_full = record {
  fulfilled = λ t cx. fill_drip-Fulfilled t.to_come cx;
  full_ready = λ t cx some. fill_drip-ready t.to_come cx some;
}
