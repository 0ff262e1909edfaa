-- ===== src/Proxy/Api/Frame.antt =====
-- trixter/src/main.rs: what the requests that set a knob change.
use trixter.Prelude.{ℕ, ◌*◌, ◌≡◌, ◌≢◌, refl, ap, ◌∙◌, false, ◌&&◌, none, some, ◌%◌, ◌^◌}
use trixter.Tokio.{Result, DashMap, DashMapLaws, Float}
use trixter.Probability.{DynamicProbability}
use trixter.Probability.Checked.{set_out_of_range}
use trixter.Proxy.Api.{
  ConnectionState, ApiState, ApiResult, accepted, refused, not_found, bad_probability, bad_rate,
  set_connection, with_connection, set_delay, set_throttle_rate, set_slice_size,
  set_terminate_probability_rate, set_corrupt_probability_rate,
}

module _ {K Addr Tx M : Type 0} ⦃d : DashMap K (ConnectionState K Addr Tx) M⦄ where
  not_found_lem :
      (f : ConnectionState K Addr Tx → ApiResult (Unit {0}) × ConnectionState K Addr Tx)
      (this : ApiState K Addr Tx M) (id : K)
      → d.get this.connections id ≡ none
      → set_connection f this id ≡ (refused not_found, this)
  unfolding set_connection with_connection
  not_found_lem f this id h = rw h refl

  -- A request to set any of the five knobs of a connection that is not in the table is refused as
  -- not found, and the table stays.
  pub knobs_not_found :
      {F : Type 0} ⦃fl : Float F⦄ (this : ApiState K Addr Tx M) (id : K) (n : ℕ) (rate : F)
      → d.get this.connections id ≡ none
      → (set_delay this id n ≡ (refused not_found, this))
        × (set_throttle_rate this id n ≡ (refused not_found, this))
        × (set_slice_size this id n ≡ (refused not_found, this))
        × (set_terminate_probability_rate this id rate ≡ (refused not_found, this))
        × (set_corrupt_probability_rate this id rate ≡ (refused not_found, this))
  unfolding set_delay set_throttle_rate set_slice_size set_terminate_probability_rate
      set_corrupt_probability_rate
  knobs_not_found this id n rate h = (
    not_found_lem _ this id h,
    not_found_lem _ this id h,
    not_found_lem _ this id h,
    not_found_lem _ this id h,
    not_found_lem _ this id h,
  )

  module _ (laws : DashMapLaws d) where
    found_lem :
        (f : ConnectionState K Addr Tx → ApiResult (Unit {0}) × ConnectionState K Addr Tx)
        (this : ApiState K Addr Tx M) (id other : K) (c : ConnectionState K Addr Tx)
        → d.get this.connections id ≡ some c
        → other ≢ id
        → let (r, this') = set_connection f this id in
          (r ≡ (f c).0)
          × (d.get this'.connections id ≡ some (f c).1)
          × (d.get this'.connections other ≡ d.get this.connections other)
    unfolding set_connection with_connection
    found_lem f this id other c h ne = rw h (
      refl,
      laws.get-update this.connections id (f c).1,
      laws.get-update_other this.connections id other (f c).1 ne,
    )

    -- A request to set the delay of a connection in the table is accepted. Its delay is then the
    -- milliseconds in nanoseconds, as far as 64 bits hold them; nothing else of it and no other
    -- connection changes.
    pub set_delay-found :
        (this : ApiState K Addr Tx M) (id other : K) (ms : ℕ) (c : ConnectionState K Addr Tx)
        → d.get this.connections id ≡ some c
        → other ≢ id
        → let (r, this') = set_delay this id ms in
          (r ≡ accepted tt)
          × (d.get this'.connections id
              ≡ some (record c { delay = record { cell = ms * 1_000_000 % 2 ^ 64 } }))
          × (d.get this'.connections other ≡ d.get this.connections other)
    unfolding set_delay
    set_delay-found this id other ms c h ne = found_lem _ this id other c h ne

    -- A request to set the termination or the corruption probability of a connection in the table
    -- to a rate that is not between 0 and 1 is refused as a bad probability, and changes neither that
    -- connection nor any other.
    pub bad_probability_lem :
        {F : Type 0} ⦃fl : Float F⦄ (this : ApiState K Addr Tx M) (id other : K) (rate : F)
        (c : ConnectionState K Addr Tx)
        → (fl.at_least_zero rate && fl.at_most_one rate) ≡ false
        → d.get this.connections id ≡ some c
        → other ≢ id
        → let (r, this') = set_terminate_probability_rate this id rate in
          let (r', this'') = set_corrupt_probability_rate this id rate in
          ((r ≡ refused bad_probability) × (r' ≡ refused bad_probability))
          × ((d.get this'.connections id ≡ some c) × (d.get this''.connections id ≡ some c))
          × ((d.get this'.connections other ≡ d.get this.connections other)
              × (d.get this''.connections other ≡ d.get this.connections other))
    unfolding set_terminate_probability_rate set_corrupt_probability_rate
    bad_probability_lem this id other rate c bad h ne =
        let refused_terminate = (set_out_of_range c.terminate_probability rate bad).1 in
        let refused_corrupt = (set_out_of_range c.corrupt_probability rate bad).1 in
        let (r, same, rest) = found_lem _ this id other c h ne in
        let (r', same', rest') = found_lem _ this id other c h ne in
        (
          (
            r ∙ ap (λ (x : Result (Unit {0}) × DynamicProbability). bad_rate x.0) refused_terminate,
            r' ∙ ap (λ (x : Result (Unit {0}) × DynamicProbability). bad_rate x.0) refused_corrupt,
          ),
          (
            same
                ∙ ap
                    (λ (x : Result (Unit {0}) × DynamicProbability).
                      some (record c { terminate_probability = x.1 }))
                    refused_terminate,
            same'
                ∙ ap
                    (λ (x : Result (Unit {0}) × DynamicProbability).
                      some (record c { corrupt_probability = x.1 }))
                    refused_corrupt,
          ),
          (rest, rest'),
        )
