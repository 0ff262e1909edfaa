-- ===== src/Proxy/Api/Every.antt =====
-- trixter/src/main.rs: what is true of every connection in the table, and stays so.
use Prim.Native.String.{String}
use trixter.Prelude.{
  ℕ, ◌≡◌, ◌≢◌, refl, sym, ap, subst, ◌∙◌, inl, inr, Bool-cases, Option, none, some, false,
}
use trixter.Tokio.{DashMap, DashMapLaws, Sender, Float}
use trixter.Slicer
use trixter.Throttler
use trixter.Delayer
use trixter.Probability
use trixter.Proxy.Api.{
  ConnectionState, ApiState, ApiResult, with_connection, set_connection, set_delay,
  set_throttle_rate, set_slice_size, set_terminate_probability_rate, set_corrupt_probability_rate,
  remove_connection, remove_all, send_each, shutdown_connection, shutdown_all_connections,
}
use trixter.Proxy.Api.Shutdown.{remove_all-none}
use trixter.Proxy.Api.Handlers.{
  Request, health, connections, shutdown, delay, throttle, slice, termination, corruption,
  shutdown_all, route,
}

shutdown_all-state :
    {K Addr Tx M Cx : Type 0} ⦃d : DashMap K (ConnectionState K Addr Tx) M⦄ ⦃sd : Sender Cx Tx⦄
    (state : ApiState K Addr Tx M) (reason : String) (cx : Cx)
    → (shutdown_all_connections state reason cx).1 ≡ (remove_all state).1
unfolding shutdown_all_connections
shutdown_all-state state reason cx =
    elim (Bool-cases (send_each (remove_all state).0 reason false cx).0) [
      | inl failed ↦ rw failed refl
      | inr sent ↦ rw sent refl
    ]

module _ {K Addr Tx : Type 0} (P : K → ConnectionState K Addr Tx → Type 0) where
  abbrev pub IfAny : K → Option (ConnectionState K Addr Tx) → Type 0
  IfAny id none = Unit {0}
  IfAny id (some c) = P id c

  -- `P` of every connection in the table, at its id.
  abbrev pub Every :
      {M : Type 0} ⦃d : DashMap K (ConnectionState K Addr Tx) M⦄ → ApiState K Addr Tx M → Type 0
  Every ⦃d⦄ this = (id : K) → IfAny id (d.get this.connections id)

  -- `P` does not depend on the knobs, or holds of them however they are set.
  pub record KnobsKeep {F : Type 0} (fl : Float F) : Type 0 where
    pub delay_keeps :
        (id : K) (c : ConnectionState K Addr Tx) (n : ℕ)
        → P id c
        → P id (record c { delay = Delayer.set c.delay n })
    pub throttle_keeps :
        (id : K) (c : ConnectionState K Addr Tx) (n : ℕ)
        → P id c
        → P id (record c { throttle_rate = Throttler.set c.throttle_rate n })
    pub slice_keeps :
        (id : K) (c : ConnectionState K Addr Tx) (n : ℕ)
        → P id c
        → P id (record c { slice_size = Slicer.set c.slice_size n })
    pub termination_keeps :
        (id : K) (c : ConnectionState K Addr Tx) (rate : F)
        → P id c
        → P id (record c {
          terminate_probability = (Probability.set ⦃fl = fl⦄ c.terminate_probability rate).1;
        })
    pub corruption_keeps :
        (id : K) (c : ConnectionState K Addr Tx) (rate : F)
        → P id c
        → P id (record c {
          corrupt_probability = (Probability.set ⦃fl = fl⦄ c.corrupt_probability rate).1;
        })

module _ {K Addr Tx M : Type 0} ⦃d : DashMap K (ConnectionState K Addr Tx) M⦄
    (P : K → ConnectionState K Addr Tx → Type 0) (laws : DashMapLaws d) where
  pub remove-Every :
      (this : ApiState K Addr Tx M) (id : K)
      → Every P this
      → Every P (record { connections = (d.remove this.connections id).1 })
  remove-Every this id v another = elim (laws.get-remove_other this.connections id another) [
    | inl e ↦
        subst (λ x. IfAny P another x)
          (sym
            (ap (d.get (d.remove this.connections id).1) e ∙ laws.get-remove this.connections id))
          tt
    | inr kept ↦ subst (λ x. IfAny P another x) (sym kept) (v another)
  ]

  module _ (same : (a b : K) → Dec (a ≡ b)) where
    -- A table that differs at `id` alone.
    pub changed-Every :
        (this : ApiState K Addr Tx M) (id : K) (c' : ConnectionState K Addr Tx) (m : M)
        → d.get m id ≡ some c'
        → ((another : K) → another ≢ id → d.get m another ≡ d.get this.connections another)
        → P id c'
        → Every P this
        → Every P {M = M} (record { connections = m })
    changed-Every this id c' m at kept valid v another = elim (same another id) [
      | yes e ↦
          subst (λ k. IfAny P k (d.get m k)) (sym e) (subst (λ x. IfAny P id x) (sym at) valid)
      | no ne ↦ subst (λ x. IfAny P another x) (sym (kept another ne)) (v another)
    ]

    pub insert-Every :
        (this : ApiState K Addr Tx M) (id : K) (c : ConnectionState K Addr Tx)
        → P id c
        → Every P this
        → Every P {M = M} (record { connections = d.insert this.connections id c })
    insert-Every this id c holds v =
        changed-Every this id c (d.insert this.connections id c)
          (laws.get-insert this.connections id c)
          (λ another ne. laws.get-insert_other this.connections id another c ne) holds v

    module _ (f : ConnectionState K Addr Tx → ApiResult (Unit {0}) × ConnectionState K Addr Tx)
        (keeps : (id : K) (c : ConnectionState K Addr Tx) → P id c → P id (f c).1) where
      with_connection-Every :
          (looked_up : Option (ConnectionState K Addr Tx)) (id : K) (this : ApiState K Addr Tx M)
          → d.get this.connections id ≡ looked_up
          → Every P this
          → Every P (with_connection f id this looked_up).1
      unfolding with_connection
      with_connection-Every none id this h v = v
      with_connection-Every (some c) id this h v =
          changed-Every this id (f c).1 (d.update this.connections id (f c).1)
            (laws.get-update this.connections id (f c).1)
            (λ another ne. laws.get-update_other this.connections id another (f c).1 ne)
            (keeps id c (subst (λ x. IfAny P id x) h (v id))) v

      -- A request that sets a knob by `f`.
      set_connection-Every :
          (this : ApiState K Addr Tx M) (id : K)
          → Every P this
          → Every P (set_connection f this id).1
      unfolding set_connection
      set_connection-Every this id v =
          with_connection-Every (d.get this.connections id) id this refl v

    module _ {F Cx : Type 0} ⦃fl : Float F⦄ ⦃sd : Sender Cx Tx⦄ (keep : KnobsKeep P fl) where
      -- Whatever request comes, what is true of every connection in the table stays so, if setting a
      -- knob keeps it.
      pub route-Every :
          (request : Request K F) (state : ApiState K Addr Tx M) (cx : Cx)
          → Every P state
          → Every P (route request state cx).1
      unfolding route set_delay set_throttle_rate set_slice_size set_terminate_probability_rate
          set_corrupt_probability_rate shutdown_connection remove_connection
          shutdown_all_connections
      route-Every health state cx v = v
      route-Every connections state cx v = v
      route-Every (shutdown id reason) state cx v = remove-Every state id v
      route-Every (delay id n) state cx v =
          set_connection-Every _ (λ k c p. keep.delay_keeps k c _ p) state id v
      route-Every (throttle id n) state cx v =
          set_connection-Every _ (λ k c p. keep.throttle_keeps k c n p) state id v
      route-Every (slice id n) state cx v =
          set_connection-Every _ (λ k c p. keep.slice_keeps k c n p) state id v
      route-Every (termination id rate) state cx v =
          set_connection-Every _ (λ k c p. keep.termination_keeps k c rate p) state id v
      route-Every (corruption id rate) state cx v =
          set_connection-Every _ (λ k c p. keep.corruption_keeps k c rate p) state id v
      route-Every (shutdown_all reason) state cx v =
          subst (λ s. Every P s) (sym (shutdown_all-state state reason cx))
            (λ id. subst (λ x. IfAny P id x) (sym (remove_all-none laws state id)) tt)
