-- ===== src/Proxy/Api.antt =====
-- trixter/src/main.rs: the table of connections behind the HTTP API, and the handlers. The table is
-- a `DashMap`; each knob is the cell that the connection's adapters read.
mod Tests
pub mod Shutdown
pub mod Frame
pub mod Handlers
pub mod Every
pub mod Rates
pub mod Others
use trixter.Prelude.{
  ℕ, ◌*◌, Bool, true, false, not, ◌||◌, List, [], ◌∷◌, map, Option, none, some, if◌then◌else◌,
}
use Prim.Native.String.{String}
use trixter.Tokio.{
  Result, ok, err, panic, spin, IoError, other, Payload, message, io_error, DashMap, Sender, Float,
}
use trixter.Slicer
use trixter.Throttler
use trixter.Delayer
use trixter.Probability
use trixter.Slicer.{DynamicSize}
use trixter.Throttler.{DynamicRate}
use trixter.Delayer.{DynamicDuration}
use trixter.Probability.{DynamicProbability}

pub record ConnectionInfo (K Addr : Type 0) : Type 0 where
  pub id : K
  pub downstream : Addr
  pub upstream : Addr

pub record ConnectionState (K Addr Tx : Type 0) : Type 0 where
  pub conn_info : ConnectionInfo K Addr
  pub delay : DynamicDuration
  pub throttle_rate : DynamicRate
  pub slice_size : DynamicSize
  pub terminate_probability : DynamicProbability
  pub corrupt_probability : DynamicProbability
  pub tx : Tx

pub record ConnectionStatus (K Addr F : Type 0) : Type 0 where
  pub conn_info : ConnectionInfo K Addr
  pub delay : ℕ
  pub throttle_rate : ℕ
  pub slice_size : ℕ
  pub terminate_probability_rate : F
  pub corrupt_probability_rate : F

pub data ApiError : Type 0 where
  not_found bad_probability internal : ApiError

pub data ApiResult {ℓ} (A : Type ℓ) : Type ℓ where
  accepted : A → ApiResult A
  refused : ApiError → ApiResult A

-- `into_response`, by its status.
abbrev pub into_response : ApiError → ℕ
into_response not_found = 404
into_response bad_probability = 400
into_response internal = 500

-- `.map_err(|_| ApiError::BadProbability)` on what `DynamicProbability::set` returns.
abbrev pub bad_rate : Result (Unit {0}) → ApiResult (Unit {0})
bad_rate (ok _) = accepted tt
bad_rate _ = refused bad_probability

module _ {K Addr Tx F : Type 0} ⦃fl : Float F⦄ where
  status : ConnectionState K Addr Tx → ConnectionStatus K Addr F
  status c = record {
    conn_info = c.conn_info;
    delay = c.delay.cell;
    throttle_rate = c.throttle_rate.size;
    slice_size = c.slice_size.cell;
    terminate_probability_rate = fl.from_bits c.terminate_probability.probability_rate_bits;
    corrupt_probability_rate = fl.from_bits c.corrupt_probability.probability_rate_bits;
  }

-- The second and third parameters are those of the connections in the map.
pub record ApiState (K Addr Tx M : Type 0) : Type 0 where
  pub connections : M

module _ {K Addr Tx : Type 0} where
  found : Option (ConnectionState K Addr Tx) → ApiResult (ConnectionState K Addr Tx)
  found none = refused not_found
  found (some c) = accepted c

  prepend :
      Option (ConnectionState K Addr Tx)
      → List (ConnectionState K Addr Tx)
      → List (ConnectionState K Addr Tx)
  prepend none rest = rest
  prepend (some c) rest = c ∷ rest

-- `Box::new(io::Error::other(reason))`
abbrev pub boxed : String → Payload
boxed reason = io_error (other (message reason))

module _ {K Addr Tx Cx : Type 0} ⦃sd : Sender Cx Tx⦄ where
  -- The connection was removed; its sender is told.
  notify : ApiResult (ConnectionState K Addr Tx) → String → Cx → ApiResult ℕ × Cx
  notify (refused e) reason cx = (refused e, cx)
  notify (accepted c) reason cx =
      let (sent, cx') = sd.send c.tx (boxed reason) cx in
      if sent then (accepted 202, cx') else (refused internal, cx')

  -- The loop over the removed connections, with `send_failed` so far.
  unfoldable pub send_each : List (ConnectionState K Addr Tx) → String → Bool → Cx → Bool × Cx
  send_each [] reason send_failed cx = (send_failed, cx)
  send_each (c ∷ rest) reason send_failed cx =
      let (sent, cx') = sd.send c.tx (boxed reason) cx in
      send_each rest reason (send_failed || not sent) cx'

module _ {K Addr Tx M : Type 0} ⦃d : DashMap K (ConnectionState K Addr Tx) M⦄ where
  -- The list of every connection's status.
  unfoldable pub all :
      {F : Type 0} ⦃fl : Float F⦄ → ApiState K Addr Tx M → List (ConnectionStatus K Addr F)
  unfolding status
  all this = map (λ (e : K × ConnectionState K Addr Tx). status e.1) (d.entries this.connections)

  unfoldable pub remove_connection :
      ApiState K Addr Tx M → K → ApiResult (ConnectionState K Addr Tx) × ApiState K Addr Tx M
  unfolding found
  remove_connection this id =
      let (c, connections) = d.remove this.connections id in
      (found c, record { connections = connections })

  -- The second pass of `remove_all`, over the ids that the first has collected.
  remove_ids :
      List K → ApiState K Addr Tx M → List (ConnectionState K Addr Tx) × ApiState K Addr Tx M
  unfolding prepend
  remove_ids [] this = ([], this)
  remove_ids (id ∷ ids) this =
      let (c, connections) = d.remove this.connections id in
      let (rest, this') = remove_ids ids (record { connections = connections }) in
      (prepend c rest, this')

  unfoldable pub remove_all :
      ApiState K Addr Tx M → List (ConnectionState K Addr Tx) × ApiState K Addr Tx M
  unfolding remove_ids
  remove_all this =
      remove_ids (map (λ (e : K × ConnectionState K Addr Tx). e.0) (d.entries this.connections))
        this

  -- `get_mut(id).ok_or(NotFound)?`, then a knob of the connection set by `f`.
  with_connection :
      (ConnectionState K Addr Tx → ApiResult (Unit {0}) × ConnectionState K Addr Tx)
      → K
      → ApiState K Addr Tx M
      → Option (ConnectionState K Addr Tx)
      → ApiResult (Unit {0}) × ApiState K Addr Tx M
  with_connection f id this none = (refused not_found, this)
  with_connection f id this (some c) =
      let (r, c') = f c in (r, record { connections = d.update this.connections id c' })

  unfoldable pub set_connection :
      (ConnectionState K Addr Tx → ApiResult (Unit {0}) × ConnectionState K Addr Tx)
      → ApiState K Addr Tx M
      → K
      → ApiResult (Unit {0}) × ApiState K Addr Tx M
  unfolding with_connection
  set_connection f this id = with_connection f id this (d.get this.connections id)

  -- The handler's request is in milliseconds.
  unfoldable pub set_delay :
      ApiState K Addr Tx M → K → ℕ → ApiResult (Unit {0}) × ApiState K Addr Tx M
  set_delay this id delay_ms =
      set_connection
        (λ c. (accepted tt, record c { delay = Delayer.set c.delay (delay_ms * 1_000_000) })) this
        id

  unfoldable pub set_throttle_rate :
      ApiState K Addr Tx M → K → ℕ → ApiResult (Unit {0}) × ApiState K Addr Tx M
  set_throttle_rate this id rate =
      set_connection
        (λ c. (accepted tt, record c { throttle_rate = Throttler.set c.throttle_rate rate })) this
        id

  unfoldable pub set_slice_size :
      ApiState K Addr Tx M → K → ℕ → ApiResult (Unit {0}) × ApiState K Addr Tx M
  set_slice_size this id size =
      set_connection (λ c. (accepted tt, record c { slice_size = Slicer.set c.slice_size size }))
        this id

  unfoldable pub set_terminate_probability_rate :
      {F : Type 0} ⦃fl : Float F⦄
      → ApiState K Addr Tx M
      → K
      → F
      → ApiResult (Unit {0}) × ApiState K Addr Tx M
  set_terminate_probability_rate this id rate =
      set_connection
        (λ c.
          let (r, p) = Probability.set c.terminate_probability rate in
          (bad_rate r, record c { terminate_probability = p }))
        this id

  unfoldable pub set_corrupt_probability_rate :
      {F : Type 0} ⦃fl : Float F⦄
      → ApiState K Addr Tx M
      → K
      → F
      → ApiResult (Unit {0}) × ApiState K Addr Tx M
  set_corrupt_probability_rate this id rate =
      set_connection
        (λ c.
          let (r, p) = Probability.set c.corrupt_probability rate in
          (bad_rate r, record c { corrupt_probability = p }))
        this id

  module _ {Cx : Type 0} ⦃sd : Sender Cx Tx⦄ where
    unfoldable pub shutdown_connection :
        ApiState K Addr Tx M → K → String → Cx → ApiResult ℕ × ApiState K Addr Tx M × Cx
    unfolding notify
    shutdown_connection this id reason cx =
        let (c, this') = remove_connection this id in
        let (r, cx') = notify c reason cx in (r, this', cx')

    unfoldable pub shutdown_all_connections :
        ApiState K Addr Tx M → String → Cx → ApiResult ℕ × ApiState K Addr Tx M × Cx
    shutdown_all_connections this reason cx =
        let (connections, this') = remove_all this in
        let (send_failed, cx') = send_each connections reason false cx in
        if send_failed then (refused internal, this', cx') else (accepted 202, this', cx')
