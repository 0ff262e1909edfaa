-- ===== src/Proxy/Task.antt =====
-- trixter/src/main.rs: `handle_connection`, the task of one connection.
pub mod Startup
pub mod CleanUp
pub mod Faults
pub mod Table
pub mod Limit
pub mod Whole
pub mod Client
pub mod Reads
mod Tests
use trixter.Prelude.{ℕ, ◌*◌, Bool, true, false, ltb, Option, none, some, if◌then◌else◌}
use trixter.Tokio.{Result, ok, err, panic, spin, ◌>>=◌, AsyncWrite, Timer, Float, DashMap}
use trixter.Io.{ResetLinger}
use trixter.Slicer
use trixter.Throttler
use trixter.Delayer
use trixter.Probability
use trixter.Corrupter
use trixter.Terminator
use trixter.Shutdowner
use trixter.Slicer.{DynamicSize, sliced_linger}
use trixter.Throttler.{DynamicRate}
use trixter.Delayer.{DynamicDuration}
use trixter.Probability.{DynamicProbability}
use trixter.Corrupter.{Corrupter, corrupter_linger}
use trixter.Terminator.{Terminator, terminator_linger}
use trixter.Shutdowner.{Shutdowner, shutdowner_linger}
use trixter.Throttler.Writer.{throttled_writer_linger}
use trixter.Delayer.Writer.{delayed_writer_linger}
use trixter.Proxy.Stack.{Shaped, shape}
use trixter.Proxy.Settings.{Config}
use trixter.Proxy.Finish.{Copy, Ended, clean_up, run_copy}
use trixter.Proxy.Api.{ConnectionInfo, ConnectionState}

-- What the task uses of tokio's sockets and channels, of `SmallRng`, and of `nanoid`.
pub record Host (Cx T K Addr Tx Rx : Type 0) : Type 0 where
  pub connect : Addr → Cx → Result T × Cx
  pub set_nodelay : T → Bool → Cx → Result (Unit {0}) × T × Cx
  pub channel : Cx → Tx × Rx × Cx
  pub nanoid : Cx → K × Cx

pub record Seedable (G : Type 0) : Type 0 where
  pub seed_from_u64 : ℕ → G
  pub from_rng : G → G × G

-- The knobs of a connection, which both of its directions and its entry in the table share.
pub record Knobs : Type 0 where
  pub delay : DynamicDuration
  pub throttle_rate : DynamicRate
  pub slice_size : DynamicSize
  pub terminate_probability_rate : DynamicProbability
  pub corrupt_probability_rate : DynamicProbability

-- `Result::expect`
unfoldable pub expect : {A : Type 0} → Result A → Result A
expect (ok a) = ok a
expect (err e) = panic
expect panic = panic
expect spin = spin

module _ {Addr F : Type 0} ⦃fl : Float F⦄ where
  unfoldable pub knobs : Config Addr F → Result Knobs
  unfolding expect
  knobs config = do
    terminate ← expect (Probability.new config.terminate_probability_rate)
    corrupt ← expect (Probability.new config.corrupt_probability_rate)
    ok record {
      delay = Delayer.new (config.delay_ms * 1_000_000);
      throttle_rate = Throttler.new config.throttle_rate_bytes;
      slice_size = Slicer.new config.slice_size_bytes;
      terminate_probability_rate = terminate;
      corrupt_probability_rate = corrupt;
    }

-- A socket under the adapters that both directions have.
abbrev pub Faulty : Type 0 → Type 0 → Type 0 → Type 0
Faulty T Sleep G = Corrupter (Terminator (Shaped T Sleep) DynamicProbability G) DynamicProbability G

module _ {Cx Sleep T G : Type 0} ⦃tm : Timer Cx Sleep⦄ ⦃w : AsyncWrite Cx T⦄ ⦃sg : Seedable G⦄ where
  -- One direction's adapters; each takes a generator off `base_rng`.
  unfoldable pub faulty : T → Knobs → G → Cx → Faulty T Sleep G × G × Cx
  faulty socket k base_rng cx =
      let (shaped, cx') = shape socket k.delay k.throttle_rate k.slice_size cx in
      let (rng, base_rng') = sg.from_rng base_rng in
      let (rng', base_rng'') = sg.from_rng base_rng' in
      (
        Corrupter.with_rng (Terminator.with_rng shaped k.terminate_probability_rate rng)
            k.corrupt_probability_rate rng',
        base_rng'',
        cx',
      )

module _ {K Addr Tx : Type 0} where
  -- The entry of a connection in the table.
  abbrev pub entry : K → Addr → Addr → Knobs → Tx → ConnectionState K Addr Tx
  entry id addr upstream k tx = record {
    conn_info = record { id = id; downstream = addr; upstream = upstream };
    delay = k.delay;
    throttle_rate = k.throttle_rate;
    slice_size = k.slice_size;
    terminate_probability = k.terminate_probability_rate;
    corrupt_probability = k.corrupt_probability_rate;
    tx = tx;
  }

-- The task panics before it has built its streams.
abbrev pub unwound : {D U M Cx : Type 0} → Result (Unit {0}) → M → Cx → Ended D U M Cx
unwound r m cx = record { result = r; streams = none; connections = m; context = cx }

abbrev pub Downstream : Type 0 → Type 0 → Type 0 → Type 0 → Type 0
Downstream T Sleep G Rx = Shutdowner (Faulty T Sleep G) Rx

module _ (K Tx : Type 0) {Cx Sleep T G Addr F Rx M : Type 0} ⦃fl : Float F⦄ ⦃tm : Timer Cx Sleep⦄
    ⦃w : AsyncWrite Cx T⦄ ⦃ln : ResetLinger T⦄ ⦃sg : Seedable G⦄ ⦃host : Host Cx T K Addr Tx Rx⦄
    ⦃dm : DashMap K (ConnectionState K Addr Tx) M⦄
    ⦃cp : Copy (Downstream T Sleep G Rx) (Faulty T Sleep G) M Cx⦄ where
  -- The task from the adapters on.
  serve :
      T
      → T
      → Addr
      → Config Addr F
      → Knobs
      → ℕ
      → Tx
      → Rx
      → M
      → Cx
      → Ended (Downstream T Sleep G Rx) (Faulty T Sleep G) M Cx
  serve downstream upstream addr config k seed tx rx m cx =
      let base_rng = sg.seed_from_u64 seed in
      let (downstream', base_rng', cx₁) = faulty downstream k base_rng cx in
      let (upstream', base_rng'', cx₂) = faulty upstream k base_rng' cx₁ in
      let (id, cx₃) = host.nanoid cx₂ in
      let connections = dm.insert m id (entry id addr config.upstream k tx) in
      clean_up (ConnectionState K Addr Tx) id
        (run_copy config (Shutdowner.new downstream' rx) upstream' connections cx₃)

  -- `config.random_seed.expect(..)`
  seeded :
      Option ℕ
      → T
      → T
      → Addr
      → Config Addr F
      → Knobs
      → Tx
      → Rx
      → M
      → Cx
      → Ended (Downstream T Sleep G Rx) (Faulty T Sleep G) M Cx
  unfolding serve
  seeded none downstream upstream addr config k tx rx m cx = unwound panic m cx
  seeded (some seed) downstream upstream addr config k tx rx m cx =
      serve downstream upstream addr config k seed tx rx m cx

  with_knobs :
      Result Knobs
      → T
      → T
      → Addr
      → Config Addr F
      → M
      → Cx
      → Ended (Downstream T Sleep G Rx) (Faulty T Sleep G) M Cx
  unfolding seeded
  with_knobs (ok k) downstream upstream addr config m cx =
      let (tx, rx, cx') = host.channel cx in
      seeded config.random_seed downstream upstream addr config k tx rx m cx'
  with_knobs (err e) downstream upstream addr config m cx = unwound (err e) m cx
  with_knobs panic downstream upstream addr config m cx = unwound panic m cx
  with_knobs spin downstream upstream addr config m cx = unwound spin m cx

  -- `TcpStream::connect(config.upstream).await`: without an upstream the task returns.
  connected :
      Result T × Cx
      → T
      → Addr
      → Config Addr F
      → M
      → Ended (Downstream T Sleep G Rx) (Faulty T Sleep G) M Cx
  unfolding with_knobs
  connected (ok upstream, cx) downstream addr config m =
      let (ignored, downstream', cx₁) = host.set_nodelay downstream true cx in
      let (ignored', upstream', cx₂) = host.set_nodelay upstream true cx₁ in
      with_knobs (knobs config) downstream' upstream' addr config m cx₂
  connected (err e, cx) downstream addr config m = unwound (ok tt) m cx
  connected (panic, cx) downstream addr config m = unwound panic m cx
  connected (spin, cx) downstream addr config m = unwound spin m cx

  unfoldable pub handle_connection :
      T → Addr → Config Addr F → M → Cx → Ended (Downstream T Sleep G Rx) (Faulty T Sleep G) M Cx
  unfolding connected
  handle_connection downstream addr config m cx =
      connected (host.connect config.upstream cx) downstream addr config m
