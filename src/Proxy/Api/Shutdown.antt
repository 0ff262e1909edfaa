-- ===== src/Proxy/Api/Shutdown.antt =====
-- trixter/src/main.rs: shutting down connections over the API.
use Prim.Native.String.{String}
use trixter.Prelude.{
  ◌≡◌, refl, sym, ◌∙◌, ap, inl, inr, Bool, true, false, not, Bool-cases, ℕ, ◌||◌, List, [], ◌∷◌,
  Memᴰ, if◌then◌else◌, map, Option, none, some,
}
use trixter.Tokio.{DashMap, DashMapLaws, Sender}
use trixter.Proxy.Api.{
  ConnectionState, ApiState, ApiResult, accepted, refused, internal, boxed, prepend, remove_ids,
  remove_all, send_each, shutdown_all_connections, remove_connection, found, notify,
  shutdown_connection,
}

module _ {K Addr Tx M : Type 0} ⦃d : DashMap K (ConnectionState K Addr Tx) M⦄
    (laws : DashMapLaws d) where
  abbrev ids_of : ApiState K Addr Tx M → List K
  ids_of this = map (λ (e : K × ConnectionState K Addr Tx). e.0) (d.entries this.connections)

  remove_ids-none :
      (ids : List K) (this : ApiState K Addr Tx M) (k : K)
      → d.get this.connections k ≡ none
      → d.get (remove_ids ids this).1.connections k ≡ none
  unfolding remove_ids
  remove_ids-none [] this k h = h
  remove_ids-none (id ∷ ids) this k h =
      remove_ids-none ids (record { connections = (d.remove this.connections id).1 }) k
        (laws.get-remove_none this.connections id k h)

  remove_ids-removes :
      (ids : List K) (this : ApiState K Addr Tx M) (k : K)
      → Memᴰ k ids
      → d.get (remove_ids ids this).1.connections k ≡ none
  unfolding remove_ids
  remove_ids-removes [] this k at = elim at [ ]
  remove_ids-removes (id ∷ ids) this k (Memᴰ.head e) =
      remove_ids-none ids (record { connections = (d.remove this.connections id).1 }) k
        (ap (d.get (d.remove this.connections id).1) e ∙ laws.get-remove this.connections id)
  remove_ids-removes (id ∷ ids) this k (Memᴰ.tail at) =
      remove_ids-removes ids (record { connections = (d.remove this.connections id).1 }) k at

  -- After `remove_all` the table has no connection.
  pub remove_all-none :
      (this : ApiState K Addr Tx M) (k : K) → d.get (remove_all this).1.connections k ≡ none
  unfolding remove_all
  remove_all-none this k = elim (laws.entries_all this.connections k) [
    | inl at ↦ remove_ids-removes (ids_of this) this k at
    | inr gone ↦ remove_ids-none (ids_of this) this k gone
  ]

  Mem-prepend :
      (c : ConnectionState K Addr Tx) (o : Option (ConnectionState K Addr Tx))
      (rest : List (ConnectionState K Addr Tx))
      → Memᴰ c rest
      → Memᴰ c (prepend o rest)
  unfolding prepend
  Mem-prepend c none rest at = at
  Mem-prepend c (some c') rest at = Memᴰ.tail at

  Mem-prepend_some :
      (c : ConnectionState K Addr Tx) (o : Option (ConnectionState K Addr Tx))
      (rest : List (ConnectionState K Addr Tx))
      → o ≡ some c
      → Memᴰ c (prepend o rest)
  unfolding prepend
  Mem-prepend_some c none rest h = cc
  Mem-prepend_some c (some c') rest h = Memᴰ.head cc

  remove_ids-gets :
      (ids : List K) (this : ApiState K Addr Tx M) (k : K) (c : ConnectionState K Addr Tx)
      → Memᴰ k ids
      → d.get this.connections k ≡ some c
      → Memᴰ c (remove_ids ids this).0
  unfolding remove_ids
  remove_ids-gets [] this k c at h = elim at [ ]
  remove_ids-gets (id ∷ ids) this k c (Memᴰ.head e) h =
      Mem-prepend_some c _ _
        (laws.remove_gets this.connections id ∙ ap (d.get this.connections) (sym e) ∙ h)
  remove_ids-gets (id ∷ ids) this k c (Memᴰ.tail at) h =
      elim (laws.get-remove_other this.connections id k) [
        | inl e ↦
            Mem-prepend_some c _ _
              (laws.remove_gets this.connections id ∙ ap (d.get this.connections) (sym e) ∙ h)
        | inr kept ↦ Mem-prepend c _ _ (
            remove_ids-gets ids (record { connections = (d.remove this.connections id).1 }) k c at
              (kept ∙ h))
      ]

  remove_all-gets :
      (this : ApiState K Addr Tx M) (k : K) (c : ConnectionState K Addr Tx)
      → d.get this.connections k ≡ some c
      → Memᴰ c (remove_all this).0
  unfolding remove_all
  remove_all-gets this k c h = elim (laws.entries_all this.connections k) [
    | inl at ↦ remove_ids-gets (ids_of this) this k c at h
    | inr gone ↦ absurd cc
  ]

-- The senders told, one after the other, each with its own success.
module _ {K Addr Tx Cx : Type 0} ⦃sd : Sender Cx Tx⦄ where
  abbrev pub send_outcomes : List (ConnectionState K Addr Tx) → String → Cx → List Bool × Cx
  send_outcomes [] reason cx = ([], cx)
  send_outcomes (c ∷ rest) reason cx =
      let (sent, cx') = sd.send c.tx (boxed reason) cx in
      let (outcomes, cx'') = send_outcomes rest reason cx' in (sent ∷ outcomes, cx'')

abbrev pub any_failed : List Bool → Bool
any_failed [] = false
any_failed (sent ∷ outcomes) = not sent || any_failed outcomes

or_assoc : (a b c : Bool) → (a || b) || c ≡ a || (b || c)
or_assoc true b c = refl
or_assoc false b c = refl

module _ {K Addr Tx Cx : Type 0} ⦃sd : Sender Cx Tx⦄ where
  send_each-outcomes :
      (cs : List (ConnectionState K Addr Tx)) (reason : String) (send_failed : Bool) (cx : Cx)
      → let (outcomes, cx') = send_outcomes cs reason cx in
        send_each cs reason send_failed cx ≡ (send_failed || any_failed outcomes, cx')
  unfolding send_each
  send_each-outcomes [] reason true cx = refl
  send_each-outcomes [] reason false cx = refl
  send_each-outcomes (c ∷ rest) reason send_failed cx =
      let (sent, cx') = sd.send c.tx (boxed reason) cx in
      let (outcomes, cx'') = send_outcomes rest reason cx' in
      send_each-outcomes rest reason (send_failed || not sent) cx'
      ∙ ap (λ b. (b, cx'')) (or_assoc send_failed (not sent) (any_failed outcomes))

module _ {K Addr Tx M Cx : Type 0} ⦃d : DashMap K (ConnectionState K Addr Tx) M⦄ ⦃sd : Sender Cx Tx⦄
    (laws : DashMapLaws d) where
  -- Shutting down all connections, over a map that keeps its laws: every connection that the table
  -- had, here the one at `k`, is among those removed, the table has none after it, all the removed
  -- are told also when an earlier one could not be, and the answer is an internal error exactly if
  -- one could not.
  pub shutdown_all_connections-lem :
      (this : ApiState K Addr Tx M) (reason : String) (cx : Cx) (k : K)
      (c : ConnectionState K Addr Tx)
      → d.get this.connections k ≡ some c
      → let (removed, left) = remove_all this in
        let (outcomes, cx') = send_outcomes removed reason cx in
        Memᴰ c removed
        × (d.get left.connections k ≡ none)
        × (shutdown_all_connections this reason cx
            ≡ ((if any_failed outcomes then refused internal else accepted 202), left, cx'))
  unfolding shutdown_all_connections
  shutdown_all_connections-lem this reason cx k c h = (
    remove_all-gets laws this k c h,
    remove_all-none laws this k,
    answer (remove_all this).0 (remove_all this).1,
  )
    where
      answer :
          (removed : List (ConnectionState K Addr Tx)) (left : ApiState K Addr Tx M)
          → ◌≡◌ {A = ApiResult ℕ × ApiState K Addr Tx M × Cx}
              (let (send_failed, cx') = send_each removed reason false cx in
                if send_failed then (refused internal, left, cx') else (accepted 202, left, cx'))
              (
                (if any_failed (send_outcomes removed reason cx).0
                    then refused internal
                    else accepted 202),
                left,
                (send_outcomes removed reason cx).1,
              )
      answer removed left =
          rw (send_each-outcomes removed reason false cx)
            (elim (Bool-cases (any_failed (send_outcomes removed reason cx).0)) [
              | inl e ↦ rw e refl
              | inr e ↦ rw e refl
            ])

module _ {K Addr Tx M Cx : Type 0} ⦃d : DashMap K (ConnectionState K Addr Tx) M⦄ ⦃sd : Sender Cx Tx⦄
    (laws : DashMapLaws d) where
  -- Shutting down a connection that is in the table removes it and sends the reason to its sender.
  pub shutdown_connection-found :
      (this : ApiState K Addr Tx M) (id : K) (reason : String) (cx : Cx)
      (c : ConnectionState K Addr Tx)
      → d.get this.connections id ≡ some c
      → let (sent, cx') = sd.send c.tx (boxed reason) cx in
        shutdown_connection this id reason cx ≡ (
          if sent then accepted 202 else refused internal,
          record { connections = (d.remove this.connections id).1 },
          cx',
        )
  unfolding shutdown_connection remove_connection found notify
  shutdown_connection-found this id reason cx c h =
      rw (laws.remove_gets this.connections id, h)
        (elim (Bool-cases (sd.send c.tx (boxed reason) cx).0) [
          | inl sent ↦ rw sent refl
          | inr gone ↦ rw gone refl
        ])
