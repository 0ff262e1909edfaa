-- ===== src/Proxy/Api/Others.antt =====
-- trixter/src/main.rs: a request for one connection leaves the others alone.
use trixter.Prelude.{◌≡◌, refl, inl, inr, Option, none, some}
use trixter.Tokio.{DashMap, DashMapLaws, Sender, Float}
use trixter.Proxy.Api.{
  ConnectionState, ApiState, ApiResult, with_connection, set_connection, set_delay,
  set_throttle_rate, set_slice_size, set_terminate_probability_rate, set_corrupt_probability_rate,
  remove_connection, shutdown_connection,
}
use trixter.Proxy.Api.Handlers.{
  Request, health, connections, shutdown, delay, throttle, slice, termination, corruption,
  shutdown_all, route,
}

-- The connections that a request is for.
abbrev pub IsFor : {K F : Type 0} → Request K F → K → Type 0
IsFor health another = ⊥
IsFor connections another = ⊥
IsFor (shutdown id reason) another = another ≡ id
IsFor (delay id n) another = another ≡ id
IsFor (throttle id n) another = another ≡ id
IsFor (slice id n) another = another ≡ id
IsFor (termination id rate) another = another ≡ id
IsFor (corruption id rate) another = another ≡ id
IsFor (shutdown_all reason) another = Unit {0}

module _ {K Addr Tx M : Type 0} ⦃d : DashMap K (ConnectionState K Addr Tx) M⦄
    (laws : DashMapLaws d) where
  with_connection-other :
      (f : ConnectionState K Addr Tx → ApiResult (Unit {0}) × ConnectionState K Addr Tx)
      (looked_up : Option (ConnectionState K Addr Tx)) (this : ApiState K Addr Tx M)
      (id another : K)
      → (another ≡ id → ⊥)
      → d.get (with_connection f id this looked_up).1.connections another
        ≡ d.get this.connections another
  unfolding with_connection
  with_connection-other f none this id another ne = refl
  with_connection-other f (some c) this id another ne =
      laws.get-update_other this.connections id another (f c).1 ne

  set_connection-other :
      (f : ConnectionState K Addr Tx → ApiResult (Unit {0}) × ConnectionState K Addr Tx)
      (this : ApiState K Addr Tx M) (id another : K)
      → (another ≡ id → ⊥)
      → d.get (set_connection f this id).1.connections another ≡ d.get this.connections another
  unfolding set_connection
  set_connection-other f this id another ne =
      with_connection-other f (d.get this.connections id) this id another ne

  remove-other :
      (m : M) (id another : K)
      → (another ≡ id → ⊥)
      → d.get (d.remove m id).1 another ≡ d.get m another
  remove-other m id another ne = elim (laws.get-remove_other m id another) [
    | inl e ↦ absurd (ne e)
    | inr kept ↦ kept
  ]

  module _ {F Cx : Type 0} ⦃fl : Float F⦄ ⦃sd : Sender Cx Tx⦄ where
    -- Whatever request comes, a connection that it is not for is in the table after it exactly as it
    -- was before, with its five knobs and its sender, or still is not there. The health check and the
    -- listing are for no connection, and shutting all down is for every one.
    pub route-others_kept :
        (request : Request K F) (state : ApiState K Addr Tx M) (cx : Cx) (another : K)
        → (IsFor request another → ⊥)
        → d.get (route request state cx).1.connections another ≡ d.get state.connections another
    unfolding route set_delay set_throttle_rate set_slice_size set_terminate_probability_rate
        set_corrupt_probability_rate shutdown_connection remove_connection
    route-others_kept health state cx another ne = refl
    route-others_kept connections state cx another ne = refl
    route-others_kept (shutdown id reason) state cx another ne =
        remove-other state.connections id another ne
    route-others_kept (delay id n) state cx another ne = set_connection-other _ state id another ne
    route-others_kept (throttle id n) state cx another ne =
        set_connection-other _ state id another ne
    route-others_kept (slice id n) state cx another ne = set_connection-other _ state id another ne
    route-others_kept (termination id rate) state cx another ne =
        set_connection-other _ state id another ne
    route-others_kept (corruption id rate) state cx another ne =
        set_connection-other _ state id another ne
    route-others_kept (shutdown_all reason) state cx another ne = absurd (ne tt)
