-- ===== src/Proxy/Task/Startup.antt =====
-- trixter/src/main.rs: a checked configuration starts every connection without a panic.
use trixter.Prelude.{
  ℕ, ◌*◌, ◌≡◌, refl, ◌∙◌, inl, inr, true, Bool-cases, ltb, Option, none, some, arith,
}
use trixter.Tokio.{Result, ok, err, panic, spin, AsyncWrite, Timer, Float, DashMap}
use trixter.Io.{ResetLinger}
use trixter.Probability as Knob
use trixter.Probability.{DynamicProbability}
use trixter.Probability.Checked.{InUnit}
use trixter.Proxy.Settings.{Config, validate, valid, with_seed, seed_or}
use trixter.Proxy.Api.{ConnectionState}
use trixter.Shutdowner
use trixter.Shutdowner.{Shutdowner, shutdowner_linger}
use trixter.Corrupter.{corrupter_linger}
use trixter.Terminator.{terminator_linger}
use trixter.Slicer.{sliced_linger}
use trixter.Throttler.Writer.{throttled_writer_linger}
use trixter.Delayer.Writer.{delayed_writer_linger}
use trixter.Proxy.Finish.{Copy, Ended, clean_up, run_copy, timed}
use trixter.Proxy.Task.{
  Host, Seedable, Knobs, Faulty, Downstream, knobs, faulty, entry, with_knobs, connected, seeded,
  serve, handle_connection,
}

-- The call neither panicked nor ran on for ever.
abbrev pub Orderly : {A : Type 0} → Result A → Type 0
Orderly (ok a) = Unit {0}
Orderly (err e) = Unit {0}
Orderly panic = ⊥
Orderly spin = ⊥

-- The same of a future under `timeout`.
abbrev OrderlyIfAny : {A : Type 0} → Option (Result A) → Type 0
OrderlyIfAny none = Unit {0}
OrderlyIfAny (some r) = Orderly r

module _ {F : Type 0} ⦃fl : Float F⦄ where
  new_in_range : (x : F) → InUnit fl x → (p : DynamicProbability) × (Knob.new x ≡ ok p)
  unfolding Knob.new
  new_in_range x h = rw h (_, refl)

module _ {Addr F : Type 0} ⦃fl : Float F⦄ where
  validate-InUnit :
      (config : Config Addr F)
      → validate config ≡ valid
      → InUnit fl config.terminate_probability_rate × InUnit fl config.corrupt_probability_rate
  unfolding validate
  validate-InUnit config h = (ground arith, ground arith)

  validate-with_seed :
      (config : Config Addr F) (drawn : ℕ) → validate (with_seed config drawn) ≡ validate config
  unfolding validate
  validate-with_seed config drawn = refl

  knobs-valid :
      (config : Config Addr F) → validate config ≡ valid → (k : Knobs) × (knobs config ≡ ok k)
  unfolding knobs
  knobs-valid config h =
      let (p, e) = new_in_range config.terminate_probability_rate (validate-InUnit config h).0 in
      let (q, e') = new_in_range config.corrupt_probability_rate (validate-InUnit config h).1 in
      rw (e, e') (_, refl)

timed-Orderly : (res : Option (Result (ℕ × ℕ))) → OrderlyIfAny res → Orderly (timed res)
unfolding timed
timed-Orderly none h = h
timed-Orderly (some res) h = h

-- Whatever the copy does, it ends without a panic, and so it does under `timeout`.
pub record OrderlyCopy {D U M Cx : Type 0} (cp : Copy D U M Cx) : Type 0 where
  pub copies : (d : D) (u : U) (m : M) (cx : Cx) → Orderly (cp.copy_bidirectional d u m cx).0
  pub limited :
      (nanos : ℕ) (d : D) (u : U) (m : M) (cx : Cx) → OrderlyIfAny (cp.timeout nanos d u m cx).0

module _ {D U M Cx Addr F : Type 0} ⦃cp : Copy D U M Cx⦄ where
  run_copy-Orderly :
      (laws : OrderlyCopy cp) (config : Config Addr F) (d : D) (u : U) (m : M) (cx : Cx)
      → Orderly (run_copy config d u m cx).0
  unfolding run_copy
  run_copy-Orderly laws config d u m cx = elim (Bool-cases (ltb 0 config.connection_duration_ms)) [
    | inl limit ↦
        let nanos = config.connection_duration_ms * 1_000_000 in
        rw limit (timed-Orderly (cp.timeout nanos d u m cx).0 (laws.limited nanos d u m cx))
    | inr free ↦ rw free (laws.copies d u m cx)
  ]

abbrev pub Returns : {D U M Cx : Type 0} → Ended D U M Cx → Type 0
Returns e = e.result ≡ ok tt

module _ {D U M Cx K : Type 0} (V : Type 0) ⦃ld : ResetLinger D⦄ ⦃lu : ResetLinger U⦄
    ⦃dm : DashMap K V M⦄ where
  clean_up-Returns :
      (id : K) (res : Result (ℕ × ℕ)) (d : D) (u : U) (m : M) (cx : Cx)
      → Orderly res
      → Returns (clean_up V id (res, d, u, m, cx))
  unfolding clean_up
  clean_up-Returns id (ok copied) d u m cx h = refl
  clean_up-Returns id (err e) d u m cx h = refl
  clean_up-Returns id panic d u m cx h = absurd h
  clean_up-Returns id spin d u m cx h = absurd h

-- The same at the types of the task.
abbrev pub TaskReturns :
    {T M Cx : Type 0} (Sleep G Rx : Type 0)
    → Ended (Downstream T Sleep G Rx) (Faulty T Sleep G) M Cx
    → Type 0
TaskReturns Sleep G Rx e = Returns e

module _ (K Tx : Type 0) {Cx Sleep T G Addr F Rx M : Type 0} ⦃fl : Float F⦄ ⦃tm : Timer Cx Sleep⦄
    ⦃w : AsyncWrite Cx T⦄ ⦃ln : ResetLinger T⦄ ⦃sg : Seedable G⦄ ⦃host : Host Cx T K Addr Tx Rx⦄
    ⦃dm : DashMap K (ConnectionState K Addr Tx) M⦄
    ⦃cp : Copy (Downstream T Sleep G Rx) (Faulty T Sleep G) M Cx⦄ (laws : OrderlyCopy cp) where
  serve-Returns :
      (downstream upstream : T) (addr : Addr) (config : Config Addr F) (k : Knobs) (seed : ℕ)
      (tx : Tx) (rx : Rx) (m : M) (cx : Cx)
      → TaskReturns Sleep G Rx (serve K Tx downstream upstream addr config k seed tx rx m cx)
  unfolding serve
  serve-Returns downstream upstream addr config k seed tx rx m cx =
      let (downstream', base_rng, cx₁) = faulty downstream k (sg.seed_from_u64 seed) cx in
      let (upstream', base_rng', cx₂) = faulty upstream k base_rng cx₁ in
      let (id, cx₃) = host.nanoid cx₂ in
      let connections = dm.insert m id (entry id addr config.upstream k tx) in
      let d = Shutdowner.new downstream' rx in
      let (res, d', u', m', cx') = run_copy config d upstream' connections cx₃ in
      clean_up-Returns (ConnectionState K Addr Tx) id res d' u' m' cx'
        (run_copy-Orderly laws config d upstream' connections cx₃)

  seeded-Returns :
      (seed : Option ℕ) (drawn : ℕ) (downstream upstream : T) (addr : Addr) (config : Config Addr F)
      (k : Knobs) (tx : Tx) (rx : Rx) (m : M) (cx : Cx)
      → TaskReturns Sleep G Rx
          (seeded K Tx (seed_or drawn seed) downstream upstream addr config k tx rx m cx)
  unfolding seeded
  seeded-Returns none drawn downstream upstream addr config k tx rx m cx =
      serve-Returns downstream upstream addr config k drawn tx rx m cx
  seeded-Returns (some seed) drawn downstream upstream addr config k tx rx m cx =
      serve-Returns downstream upstream addr config k seed tx rx m cx

  connected-Returns :
      (stream : Result T) (cx : Cx) (downstream : T) (addr : Addr) (config : Config Addr F) (m : M)
      (drawn : ℕ)
      → validate config ≡ valid
      → Orderly stream
      → TaskReturns Sleep G Rx
          (connected K Tx (stream, cx) downstream addr (with_seed config drawn) m)
  unfolding connected with_knobs
  connected-Returns (ok upstream) cx downstream addr config m drawn v h =
      let (ignored, downstream', cx₁) = host.set_nodelay downstream true cx in
      let (ignored', upstream', cx₂) = host.set_nodelay upstream true cx₁ in
      let (k, e) = knobs-valid (with_seed config drawn) (validate-with_seed config drawn ∙ v) in
      let (tx, rx, cx₃) = host.channel cx₂ in
      rw e (
        seeded-Returns config.random_seed drawn downstream' upstream' addr (with_seed config drawn)
          k tx rx m cx₃)
  connected-Returns (err e) cx downstream addr config m drawn v h = refl
  connected-Returns panic cx downstream addr config m drawn v h = absurd h
  connected-Returns spin cx downstream addr config m drawn v h = absurd h

  -- With a configuration that `validate` has accepted, and the seed that `main` draws if none was
  -- given, the task of a connection returns and does not panic, so none of its three `expect`s
  -- fails. Assumed: connecting the upstream and copying end without a panic.
  pub handle_connection-Returns :
      (downstream : T) (addr : Addr) (config : Config Addr F) (drawn : ℕ) (m : M) (cx : Cx)
      → validate config ≡ valid
      → Orderly (host.connect config.upstream cx).0
      → TaskReturns Sleep G Rx
          (handle_connection K Tx downstream addr (with_seed config drawn) m cx)
  unfolding handle_connection
  handle_connection-Returns downstream addr config drawn m cx v h =
      let (stream, cx') = host.connect config.upstream cx in
      connected-Returns stream cx' downstream addr config m drawn v h
