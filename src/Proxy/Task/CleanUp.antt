-- ===== src/Proxy/Task/CleanUp.antt =====
-- trixter/src/main.rs: what a task leaves behind when its copy is over.
use trixter.Prelude.{ℕ, ◌*◌, ◌<◌, ◌≡◌, refl, ◌⊎◌, inl, inr, true, false, ltb, none, some, arith}
use trixter.Tokio.{
  Result, ok, err, panic, spin, IoError, other, invalid_input, terminated_error, timeout_error,
  DashMap, DashMapLaws,
}
use trixter.Io.{ResetLinger}
use trixter.Proxy.Settings.{Config}
use trixter.Proxy.Finish.{Copy, Ended, needs_reset, clean_up, reset_streams, run_copy, timed}
use trixter.Proxy.Task.Startup.{Orderly}

-- The copy ended with an error that carries `TerminatedError` or `TimeoutError`.
abbrev pub Fault : Result (ℕ × ℕ) → Type 0
Fault res =
    (res ≡ err (other terminated_error))
    ⊎ (res ≡ err (other timeout_error))
    ⊎ (res ≡ err (invalid_input terminated_error))
    ⊎ (res ≡ err (invalid_input timeout_error))

ok_not-Fault : (n : ℕ × ℕ) → Fault (ok n) → ⊥
ok_not-Fault n h = elim h [
  | inl a ↦ cc
  | inr h' ↦ elim h' [ inl b ↦ cc | inr h'' ↦ elim h'' [ inl c ↦ cc | inr d ↦ cc ] ]
]

reset_cases :
    (e : IoError)
    → (Fault (err e) × (needs_reset e ≡ true)) ⊎ ((Fault (err e) → ⊥) × (needs_reset e ≡ false))
unfolding needs_reset
reset_cases (other terminated_error) = inl (inl refl, refl)
reset_cases (other timeout_error) = inl (inr (inl refl), refl)
reset_cases (invalid_input terminated_error) = inl (inr (inr (inl refl)), refl)
reset_cases (invalid_input timeout_error) = inl (inr (inr (inr refl)), refl)
reset_cases e = inr (
  λ h. elim h [
    | inl a ↦ cc
    | inr h' ↦ elim h' [ inl b ↦ cc | inr h'' ↦ elim h'' [ inl c ↦ cc | inr d ↦ cc ] ]
  ],
  refl,
)

module _ {K M D U : Type 0} (V : Type 0) ⦃dm : DashMap K V M⦄ ⦃ld : ResetLinger D⦄
    ⦃lu : ResetLinger U⦄ where
  -- How the task ends when the copy has left the streams as `d` and `u` and the table as `m`.
  pub record CleanedUp {Cx : Type 0} (id : K) (res : Result (ℕ × ℕ)) (d : D) (u : U) (m : M)
      (e : Ended D U M Cx) : Type 0 where
    pub returned : e.result ≡ ok tt
    pub removed : dm.get e.connections id ≡ none
    pub others_kept :
        (another : K) → (another ≡ id) ⊎ (dm.get e.connections another ≡ dm.get m another)
    pub streams_left :
        (Fault res × (e.streams ≡ some ((ld.set_reset_linger d).1, (lu.set_reset_linger u).1)))
        ⊎ ((Fault res → ⊥) × (e.streams ≡ some (d, u)))

  -- However the copy ends, unless it panics, the task returns, the connection is no longer in the
  -- table, and every other connection is there as the copy left it. Both streams are set to reset
  -- the connection when they close if the copy ended with an error that carries TerminatedError or
  -- TimeoutError, and in no other case.
  pub clean_up-CleanedUp :
      {Cx : Type 0} (laws : DashMapLaws dm) (id : K) (res : Result (ℕ × ℕ)) (d : D) (u : U) (m : M)
      (cx : Cx)
      → Orderly res
      → CleanedUp id res d u m (clean_up V id (res, d, u, m, cx))
  unfolding clean_up reset_streams
  clean_up-CleanedUp laws id (ok copied) d u m cx h = record {
    returned = refl;
    removed = laws.get-remove m id;
    others_kept = laws.get-remove_other m id;
    streams_left = inr (ok_not-Fault copied, refl);
  }
  clean_up-CleanedUp laws id (err e) d u m cx h = record {
    returned = refl;
    removed = laws.get-remove m id;
    others_kept = laws.get-remove_other m id;
    streams_left = elim (reset_cases e) [
      | inl hit ↦ rw hit.1 (inl (hit.0, refl))
      | inr miss ↦ rw miss.1 (inr (miss.0, refl))
    ];
  }
  clean_up-CleanedUp laws id panic d u m cx h = absurd h
  clean_up-CleanedUp laws id spin d u m cx h = absurd h

  -- A connection whose duration is limited, and whose copy is not over by then: it is removed from
  -- the table, every other connection stays, and both streams are set to reset.
  pub timed_out :
      {Cx Addr F : Type 0} ⦃cp : Copy D U M Cx⦄ (laws : DashMapLaws dm) (config : Config Addr F)
      (id another : K) (d d' : D) (u u' : U) (m m' : M) (cx cx' : Cx)
      → 0 < config.connection_duration_ms
      → cp.timeout (config.connection_duration_ms * 1_000_000) d u m cx ≡ (none, d', u', m', cx')
      → let e = clean_up V id (run_copy config d u m cx) in
        (dm.get e.connections id ≡ none)
        × ((another ≡ id) ⊎ (dm.get e.connections another ≡ dm.get m' another))
        × (e.streams ≡ some ((ld.set_reset_linger d').1, (lu.set_reset_linger u').1))
  unfolding run_copy timed
  timed_out laws config id another d d' u u' m m' cx cx' pos h =
      let limited : ltb 0 config.connection_duration_ms ≡ true = ground arith in
      let done = clean_up-CleanedUp laws id (err (other timeout_error)) d' u' m' cx' tt in
      rw (limited, h)
        (
          done.removed,
          done.others_kept another,
          elim done.streams_left [
            | inl reset ↦ reset.1
            | inr kept ↦ absurd (kept.0 (inr (inl refl)))
          ],
        )
