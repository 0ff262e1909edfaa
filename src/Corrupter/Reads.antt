-- ===== src/Corrupter/Reads.antt =====
-- tokio-netem/src/corrupter.rs: what a read through a corrupter hands over.
use native.Mathlib.Nat.{le_of_eq}
use trixter.Prelude.{
  ℕ, ◌≡◌, refl, ◌⊎◌, inl, inr, true, false, ltb, Bool-cases, List, [], ◌++◌, append-nil, sym,
  length, arith,
}
use trixter.Tokio.{ready, ok, PolledRead, AsyncRead, ReadBuf, ReadBufLaws, Rng}
use trixter.Probability.{Probability}
use trixter.Corrupter.{Corrupter, should_corrupt, random_data_size, poll_read}

-- `fill_bytes` fills the whole buffer that it is given.
pub record FillLaw {G : Type 0} (rn : Rng G) : Type 0 where
  pub length-fill_bytes : (g : G) (n : ℕ) → length (rn.fill_bytes g n).0 ≡ n

-- Noise alone filled the buffer, and the inner reader was not called.
pub record Noise {Cx T P G B : Type 0} (rb : ReadBuf B) (this : Corrupter T P G) (cx : Cx) (buf : B)
    (p : PolledRead (Corrupter T P G) B Cx) : Type 0 where
  pub noise : List ℕ
  pub as_long : length noise ≡ rb.remaining buf
  pub put : rb.filled p.2 ≡ rb.filled buf ++ noise
  pub succeeds : p.0 ≡ ready (ok tt)
  pub untouched : (p.1.inner ≡ this.inner) × (p.3 ≡ cx) × (p.1.write_buffer ≡ this.write_buffer)

module _ {Cx T P G B : Type 0} ⦃pr : Probability P⦄ ⦃rn : Rng G⦄ ⦃rb : ReadBuf B⦄
    ⦃r : AsyncRead Cx B T⦄ (fills : FillLaw rn) (laws : ReadBufLaws rb) where
  -- A read through a corrupter. If the draw hits, it succeeds with noise alone, exactly as many bytes
  -- as the caller's buffer has room for, and takes nothing off the inner stream; else it is the inner
  -- read. Either way the noise that waits for a write stays.
  pub poll_read-corrupts :
      (this : Corrupter T P G) (cx : Cx) (buf : B)
      → (((should_corrupt this.rng this.prob).0 ≡ true)
          × Noise rb this cx buf (poll_read this cx buf))
        ⊎ (((should_corrupt this.rng this.prob).0 ≡ false)
            × (let (res, this', buf', cx') = poll_read this cx buf in
                ((res, this'.inner, buf', cx') ≡ r.poll_read this.inner cx buf)
                × (this'.write_buffer ≡ this.write_buffer)))
  unfolding poll_read
  poll_read-corrupts this cx buf = elim (Bool-cases (should_corrupt this.rng this.prob).0) [
    | inl hit ↦
        let rng = (should_corrupt this.rng this.prob).1 in
        let room = rb.remaining buf in
        let (noise, rng') = random_data_size rng room in
        rw hit (
          inl (
            refl,
            elim (Bool-cases (ltb 0 room)) [
              | inl some_room ↦ rw some_room record {
                noise = noise;
                as_long = fills.length-fill_bytes rng room;
                put = laws.filled-put_slice buf noise (le_of_eq (fills.length-fill_bytes rng room));
                succeeds = refl;
                untouched = (refl, refl, refl);
              }
              | inr no_room ↦ rw no_room record {
                noise = [];
                as_long = ground arith;
                put = sym (append-nil (rb.filled buf));
                succeeds = refl;
                untouched = (refl, refl, refl);
              }
            ],
          ))
    | inr miss ↦ rw miss (inr (refl, (refl, refl)))
  ]
