-- ===== src/Fixtures/Noise.antt =====
-- A generator that counts, and fills a buffer with nines.
use trixter.Prelude.{ℕ, zero, suc, ◌≡◌, refl, ap, List, [], ◌∷◌, length}
use trixter.Tokio.{Rng}
use trixter.Corrupter.Reads.{FillLaw}

unfoldable pub nines : ℕ → List ℕ
nines zero = []
nines (suc n) = 9 ∷ nines n

pub length-nines : (n : ℕ) → length (nines n) ≡ n
unfolding nines
length-nines zero = refl
length-nines (suc n) = ap suc (length-nines n)

instance abbrev pub source_of_nines : Rng ℕ
source_of_nines = record {
  next_u64 = λ g. (g, suc g);
  fill_bytes = λ g n. (nines n, g);
  random_range = λ g low high. (low, g);
}

pub fills_with_nines : FillLaw source_of_nines
fills_with_nines = record { length-fill_bytes = λ g n. length-nines n }
