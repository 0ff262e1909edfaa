-- ===== src/Proxy/Api/Handlers.antt =====
-- trixter/src/main.rs: the HTTP handlers and the routes to them. A request is what axum has parsed.
use trixter.Prelude.{ℕ, List}
use Prim.Native.String.{String}
use trixter.Tokio.{DashMap, Sender, Float}
use trixter.Proxy.Api as Api
use trixter.Proxy.Api.{
  ConnectionState, ConnectionStatus, ApiState, ApiResult, accepted, refused, all,
  shutdown_connection, shutdown_all_connections, set_throttle_rate, set_slice_size,
  set_terminate_probability_rate, set_corrupt_probability_rate,
}

-- The routes, with the path's id and the body.
pub data Request (K F : Type 0) : Type 0 where
  health : Request K F
  connections : Request K F
  shutdown : K → String → Request K F
  delay throttle slice : K → ℕ → Request K F
  termination corruption : K → F → Request K F
  shutdown_all : String → Request K F

-- A status, the list that `/connections` gives, or a text.
pub data Response (K Addr F : Type 0) : Type 0 where
  status_code : ℕ → Response K Addr F
  listing : List (ConnectionStatus K Addr F) → Response K Addr F
  plain_text : String → Response K Addr F

-- `..?; Ok(StatusCode::ACCEPTED)`
abbrev status_accepted : ApiResult (Unit {0}) → ApiResult ℕ
status_accepted (accepted _) = accepted 202
status_accepted (refused e) = refused e

abbrev then_accepted : {S : Type 0} → ApiResult (Unit {0}) × S → ApiResult ℕ × S
then_accepted (r, this) = (status_accepted r, this)

module _ {K Addr Tx M : Type 0} ⦃d : DashMap K (ConnectionState K Addr Tx) M⦄ where
  abbrev set_delay : ApiState K Addr Tx M → K → ℕ → ApiResult ℕ × ApiState K Addr Tx M
  set_delay state id delay_ms = then_accepted (Api.set_delay state id delay_ms)

  abbrev set_throttle : ApiState K Addr Tx M → K → ℕ → ApiResult ℕ × ApiState K Addr Tx M
  set_throttle state id rate_bytes = then_accepted (set_throttle_rate state id rate_bytes)

  abbrev set_slice : ApiState K Addr Tx M → K → ℕ → ApiResult ℕ × ApiState K Addr Tx M
  set_slice state id size_bytes = then_accepted (set_slice_size state id size_bytes)

  module _ {F : Type 0} ⦃fl : Float F⦄ where
    abbrev list_connections : ApiState K Addr Tx M → ApiResult (List (ConnectionStatus K Addr F))
    list_connections state = accepted (all state)

    abbrev set_termination : ApiState K Addr Tx M → K → F → ApiResult ℕ × ApiState K Addr Tx M
    set_termination state id probability_rate =
        then_accepted (set_terminate_probability_rate state id probability_rate)

    abbrev set_corruption : ApiState K Addr Tx M → K → F → ApiResult ℕ × ApiState K Addr Tx M
    set_corruption state id probability_rate =
        then_accepted (set_corrupt_probability_rate state id probability_rate)

-- `into_response` of a handler's result.
abbrev respond : {K Addr F : Type 0} → ApiResult ℕ → Response K Addr F
respond (accepted code) = status_code code
respond (refused e) = status_code (Api.into_response e)

abbrev respond_listing :
    {K Addr F : Type 0} → ApiResult (List (ConnectionStatus K Addr F)) → Response K Addr F
respond_listing (accepted xs) = listing xs
respond_listing (refused e) = status_code (Api.into_response e)

-- A response without a call of a sender.
abbrev answer : {K Addr F S Cx : Type 0} → ApiResult ℕ × S → Cx → Response K Addr F × S × Cx
answer (r, state) cx = (respond r, state, cx)

abbrev answer_told : {K Addr F S Cx : Type 0} → ApiResult ℕ × S × Cx → Response K Addr F × S × Cx
answer_told (r, state, cx) = (respond r, state, cx)

module _ {K Addr Tx M F Cx : Type 0} ⦃d : DashMap K (ConnectionState K Addr Tx) M⦄ ⦃fl : Float F⦄
    ⦃sd : Sender Cx Tx⦄ where
  -- The `Router` of `main`.
  unfoldable pub route :
      Request K F → ApiState K Addr Tx M → Cx → Response K Addr F × ApiState K Addr Tx M × Cx
  route health state cx = (plain_text "ok", state, cx)
  route connections state cx = (respond_listing (list_connections state), state, cx)
  route (shutdown id reason) state cx = answer_told (shutdown_connection state id reason cx)
  route (delay id delay_ms) state cx = answer (set_delay state id delay_ms) cx
  route (throttle id rate_bytes) state cx = answer (set_throttle state id rate_bytes) cx
  route (slice id size_bytes) state cx = answer (set_slice state id size_bytes) cx
  route (termination id probability_rate) state cx =
      answer (set_termination state id probability_rate) cx
  route (corruption id probability_rate) state cx =
      answer (set_corruption state id probability_rate) cx
  route (shutdown_all reason) state cx = answer_told (shutdown_all_connections state reason cx)
