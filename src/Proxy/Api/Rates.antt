-- ===== src/Proxy/Api/Rates.antt =====
-- trixter/src/main.rs: the probabilities of the connections in the table.
use trixter.Prelude.{◌≡◌, sym, ap, subst, inl, inr, ◌&&◌, Bool-cases}
use trixter.Tokio.{DashMap, DashMapLaws, Sender, Float}
use trixter.Probability.{DynamicProbability, f64_probability, set}
use trixter.Probability.Checked.{FloatLaws, InUnit, set_in_range, set_out_of_range}
use trixter.Proxy.Api.{ConnectionState, ApiState}
use trixter.Proxy.Api.Every.{Every, KnobsKeep, route-Every}
use trixter.Proxy.Api.Handlers.{Request, route}

-- A knob that shows a rate between 0 and 1, with the threshold that this rate stands for.
pub record ValidRate {F : Type 0} (fl : Float F) (p : DynamicProbability) : Type 0 where
  pub rate : F
  pub in_unit : InUnit fl rate
  pub shown : fl.from_bits p.probability_rate_bits ≡ rate
  pub stands_for : p.probability_threshold ≡ fl.scale_u64 (f64_probability ⦃fl = fl⦄ rate)

module _ {F : Type 0} ⦃fl : Float F⦄ (laws : FloatLaws fl) where
  set-ValidRate : (p : DynamicProbability) (rate : F) → ValidRate fl p → ValidRate fl (set p rate).1
  set-ValidRate p rate v = elim (Bool-cases (fl.at_least_zero rate && fl.at_most_one rate)) [
    | inl h ↦
        let (taken, shown, stands) = set_in_range laws p rate h in
        record { rate = rate; in_unit = h; shown = shown; stands_for = stands }
    | inr h ↦ subst (λ q. ValidRate fl q) (sym (ap (λ r. r.1) (set_out_of_range p rate h).1)) v
  ]

pub record ValidRates {K Addr Tx F : Type 0} (fl : Float F) (c : ConnectionState K Addr Tx)
    : Type 0 where
  pub terminate : ValidRate fl c.terminate_probability
  pub corrupt : ValidRate fl c.corrupt_probability

module _ {F : Type 0} (fl : Float F) where
  -- Both probabilities of every connection in the table.
  abbrev pub AllValid :
      {K Addr Tx M : Type 0} ⦃d : DashMap K (ConnectionState K Addr Tx) M⦄
      → ApiState K Addr Tx M
      → Type 0
  AllValid this = Every (λ id c. ValidRates fl c) this

module _ {K Addr Tx F : Type 0} ⦃fl : Float F⦄ (numbers : FloatLaws fl) where
  KnobsKeep-ValidRates : KnobsKeep {K = K} {Addr = Addr} {Tx = Tx} (λ id c. ValidRates fl c) fl
  KnobsKeep-ValidRates = record {
    delay_keeps = λ id c n k. record { terminate = k.terminate; corrupt = k.corrupt };
    throttle_keeps = λ id c n k. record { terminate = k.terminate; corrupt = k.corrupt };
    slice_keeps = λ id c n k. record { terminate = k.terminate; corrupt = k.corrupt };
    termination_keeps = λ id c rate k. record {
      terminate = set-ValidRate numbers c.terminate_probability rate k.terminate;
      corrupt = k.corrupt;
    };
    corruption_keeps = λ id c rate k. record {
      terminate = k.terminate;
      corrupt = set-ValidRate numbers c.corrupt_probability rate k.corrupt;
    };
  }

  -- Whatever request comes, both probabilities of every connection in the table show a rate between
  -- 0 and 1 and have its threshold, if they did before. Keys can be told apart.
  pub route-AllValid :
      {M Cx : Type 0} ⦃d : DashMap K (ConnectionState K Addr Tx) M⦄ ⦃sd : Sender Cx Tx⦄
      (laws : DashMapLaws d) (same : (a b : K) → Dec (a ≡ b)) (request : Request K F)
      (state : ApiState K Addr Tx M) (cx : Cx)
      → AllValid fl state
      → AllValid fl (route request state cx).1
  route-AllValid laws same request state cx v =
      route-Every (λ id c. ValidRates fl c) laws same KnobsKeep-ValidRates request state cx v
