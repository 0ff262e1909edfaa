-- ===== src/Throttler/Writer/Trim.antt =====
-- tokio-netem/src/throttler.rs: the list of slices that a vectored write is trimmed to.
use trixter.Prelude.{
  ℕ, ◌-◌, ◌≤◌, min, ◌≡◌, refl, sym, inl, inr, List, [], ◌∷◌, arith, leb, ◌==◌, ==_iff, Bool-cases,
  length, take, concat, take-nil, take-append_left, take-append_right, take_all, length-append,
  append-nil,
}
use trixter.Throttler.Writer.{trim_slices, total_len}

trim_slices-zero : (bufs : List (List ℕ)) → trim_slices 0 bufs ≡ []
unfolding trim_slices
trim_slices-zero [] = refl
trim_slices-zero (s ∷ bufs) = refl

-- The trimmed list holds exactly the first `remaining` bytes of the caller's buffers, in their order.
pub concat-trim_slices :
    (remaining : ℕ) (bufs : List (List ℕ))
    → concat (trim_slices remaining bufs) ≡ take remaining (concat bufs)
unfolding trim_slices
concat-trim_slices remaining [] = sym (take-nil remaining)
concat-trim_slices remaining (s ∷ bufs) = elim (Bool-cases (remaining == 0)) [
  | inl z ↦ let none_left = (==_iff remaining 0).0 z in rw (z, none_left)
  | inr p ↦ rw p (elim (Bool-cases (leb (length s) remaining)) [
    | inl fits ↦
        let whole : min (length s) remaining ≡ length s = ground arith in
        rw
          (
            whole,
            take_all (length s) s (omega arith),
            concat-trim_slices (remaining - length s) bufs,
          )
          (sym (take-append_right remaining s (concat bufs) (ground arith)))
    | inr over ↦
        let part : min (length s) remaining ≡ remaining = ground arith in
        let short : remaining ≤ length s = ground arith in
        let spent : remaining - remaining ≡ 0 = omega arith in
        rw (part, spent, trim_slices-zero bufs, append-nil)
          (sym (take-append_left remaining s (concat bufs) short))
  ])
]

pub total_len-concat : (bufs : List (List ℕ)) → total_len bufs ≡ length (concat bufs)
unfolding total_len
total_len-concat [] = refl
total_len-concat (s ∷ bufs) = omega (arith, length-append s (concat bufs), total_len-concat bufs)
