-- ===== src/Throttler/Bucket/Naps.antt =====
-- tokio-netem/src/throttler.rs: the arithmetic of the waits in `poll_acquire`.
use native.Mathlib.Nat.{div-lt_iff_lt-mul}
use trixter.Prelude.{
  ℕ, suc, ◌+◌, ◌-◌, ◌*◌, ◌/◌, ◌≤◌, ◌<◌, ◌≡◌, inl, inr, arith, leb, ◌==◌, Bool-cases, ==_iff, subst,
}
use trixter.Throttler.Knob.{usize_rate}
use trixter.Throttler.Bucket.{nanos_per_sec, nanos_per_milli, wake_up_ms}

pub mul_mono : (a b r : ℕ) → a ≤ b → a * r ≤ b * r
mul_mono a b r h = grind arith

div_small : (r : ℕ) → 0 < r → 1_024_000 / r < 100 → 10_240 ≤ r
div_small r pos h = omega (arith, (div-lt_iff_lt-mul {x = 1_024_000} {y = 100} pos).0 h)

pub long_enough : (w now last : ℕ) → last + w ≤ now → w ≤ now - last
long_enough w now last h = omega arith

pub few_left :
    (k wait last now budget : ℕ)
    → k ≤ 10
    → last + k * wait ≤ now
    → (last + 10 * wait ≤ now → 0 < budget)
    → budget ≡ 0
    → suc k ≤ 10
few_left k wait last now budget few waited pays none_left = elim (Bool-cases (k == 10)) [
  | inl ten ↦
      let k-ten = (==_iff k 10).0 ten in
      let paid : 0 < budget = pays (subst (λ n. last + n * wait ≤ now) k-ten waited) in
      absurd (omega arith)
  | inr fewer ↦ ground arith
]

pub next_round :
    (k wait last now last' now' : ℕ)
    → last + k * wait ≤ now
    → last' ≡ last
    → now + wait ≤ now'
    → last' + suc k * wait ≤ now'
next_round k wait last now last' now' h e later = omega arith

-- Ten wake-up times are worth a token, at every rate.
pub ten_naps : (r e : ℕ) → 0 < r → 10 * (wake_up_ms r * nanos_per_milli) ≤ e → nanos_per_sec ≤ e * r
ten_naps r e pos h = elim (Bool-cases (leb 100 (1024 * 1000 / r))) [
  | inl slow ↦
      let long : nanos_per_sec ≤ e = ground arith in omega (arith, mul_mono nanos_per_sec e r long)
  | inr fast ↦
      let short : 10_000_000 ≤ e = ground arith in
      let high : 10_240 ≤ r = div_small r pos (ground arith) in
      omega (arith, mul_mono 10_000_000 e r short)
]
