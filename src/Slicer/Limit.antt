-- ===== src/Slicer/Limit.antt =====
-- tokio-netem/src/slicer.rs: the list of slices that a vectored write is cut down to.
use trixter.Prelude.{
  ℕ, ◌-◌, ◌≤◌, ◌≡◌, refl, sym, false, inl, inr, List, [], ◌∷◌, arith, leb, ◌==◌, ==_iff, Bool-cases,
  length, take, concat, take-nil, take-append_left, take-append_right, append-nil,
}
use trixter.Slicer.{limit_slices}

limit_slices-zero : (bufs : List (List ℕ)) → limit_slices 0 bufs ≡ []
unfolding limit_slices
limit_slices-zero [] = refl
limit_slices-zero (s ∷ bufs) = refl

le_of_fits : (s : List ℕ) (remaining : ℕ) → leb (length s) remaining ≡ false → remaining ≤ length s
le_of_fits s remaining h = ground arith

-- The limited list holds exactly the first `remaining` bytes of the caller's buffers, in their order.
pub concat-limit_slices :
    (remaining : ℕ) (bufs : List (List ℕ))
    → concat (limit_slices remaining bufs) ≡ take remaining (concat bufs)
unfolding limit_slices
concat-limit_slices remaining [] = sym (take-nil remaining)
concat-limit_slices remaining (s ∷ bufs) = elim (Bool-cases (remaining == 0)) [
  | inl z ↦ let none_left = (==_iff remaining 0).0 z in rw (z, none_left)
  | inr p ↦ rw p (elim (Bool-cases (leb (length s) remaining)) [
    | inl fits ↦
        rw (fits, concat-limit_slices (remaining - length s) bufs)
          (sym (take-append_right remaining s (concat bufs) (ground arith)))
    | inr over ↦
        rw (over, limit_slices-zero bufs, append-nil)
          (sym (take-append_left remaining s (concat bufs) (le_of_fits s remaining over)))
  ])
]
