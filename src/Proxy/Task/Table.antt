-- ===== src/Proxy/Task/Table.antt =====
-- trixter/src/main.rs: the table of connections, which the tasks of the connections and the API
-- share.
use trixter.Prelude.{◌≡◌, refl, sym, ap, subst, ◌∙◌, ◌&&◌, Bool-cases, inl, inr, none}
use trixter.Tokio.{Result, ok, err, panic, spin, ◌>>=◌, DashMap, DashMapLaws, Sender, Float}
use trixter.Probability.{DynamicProbability, new, set}
use trixter.Probability.Checked.{FloatLaws, InUnit, set_in_range, set_out_of_range}
use trixter.Proxy.Settings.{Config}
use trixter.Proxy.Api.{ConnectionState, ApiState}
use trixter.Proxy.Api.Handlers.{Request, route}
use trixter.Proxy.Api.Every.{IfAny, insert-Every, remove-Every}
use trixter.Proxy.Api.Rates.{ValidRate, ValidRates, AllValid, route-AllValid}
use trixter.Proxy.Task.{Knobs, knobs, entry, expect}

module _ (Cx F : Type 0) {K Addr Tx M : Type 0} ⦃fl : Float F⦄
    ⦃d : DashMap K (ConnectionState K Addr Tx) M⦄ ⦃sd : Sender Cx Tx⦄ where
  -- The tables that the tasks and the requests reach, in any order: a task enters its connection and
  -- removes it when it ends.
  pub data Tables : ApiState K Addr Tx M → Type 0 where
    empty : (m : M) → ((id : K) → d.get m id ≡ none) → Tables (record { connections = m })
    connect :
        {state : ApiState K Addr Tx M}
        → Tables state
        → (config : Config Addr F) (k : Knobs) (id : K) (addr : Addr) (tx : Tx)
        → knobs config ≡ ok k
        → Tables (record {
          connections = d.insert state.connections id (entry id addr config.upstream k tx);
        })
    request :
        {state : ApiState K Addr Tx M}
        → Tables state
        → (req : Request K F) (cx : Cx) → Tables (route req state cx).1
    disconnect :
        {state : ApiState K Addr Tx M}
        → Tables state
        → (id : K) → Tables (record { connections = (d.remove state.connections id).1 })

panic-ne-ok : {A : Type 0} (a : A) → panic ≡ ok a → ⊥
panic-ne-ok a h = cc

module _ {F : Type 0} ⦃fl : Float F⦄ where
  -- A knob made with a rate in the range is as one that is set to it.
  new_as_set : (rate : F) (p : DynamicProbability) → InUnit fl rate → new rate ≡ ok (set p rate).1
  unfolding new set
  new_as_set rate p h = rw h refl

-- Two results and then a value: both are there.
both_ok :
    {A B : Type 0} (t c : Result A) (make : A → A → B) (k : B)
    → (do a ← t; b ← c; ok (make a b)) ≡ ok k
    → (a : A) × (b : A) × (t ≡ ok a) × (c ≡ ok b) × (make a b ≡ k)
both_ok (ok a) (ok b) make k h = (a, b, refl, refl, cc)
both_ok (ok a) (err e) make k h = cc
both_ok (ok a) panic make k h = cc
both_ok (ok a) spin make k h = cc
both_ok (err e) c make k h = cc
both_ok panic c make k h = cc
both_ok spin c make k h = cc

module _ {F : Type 0} ⦃fl : Float F⦄ (numbers : FloatLaws fl) where
  expect-ValidRate : (rate : F) (p : DynamicProbability) → expect (new rate) ≡ ok p → ValidRate fl p
  unfolding expect
  expect-ValidRate rate p h = elim (Bool-cases (fl.at_least_zero rate && fl.at_most_one rate)) [
    | inl inside ↦
        let made : ok (set p rate).1 ≡ ok p = ap expect (sym (new_as_set rate p inside)) ∙ h in
        let (taken, shown, stands) = set_in_range numbers p rate inside in
        subst (ValidRate fl) (cc)
          (record { rate = rate; in_unit = inside; shown = shown; stands_for = stands })
    | inr outside ↦ absurd (panic-ne-ok p (ap expect (sym (set_out_of_range p rate outside).0) ∙ h))
  ]

  knobs-ValidRate :
      {Addr : Type 0} (config : Config Addr F) (k : Knobs)
      → knobs config ≡ ok k
      → ValidRate fl k.terminate_probability_rate × ValidRate fl k.corrupt_probability_rate
  unfolding knobs
  knobs-ValidRate config k h =
      let (t, c, e, e', made) =
        both_ok (expect (new config.terminate_probability_rate))
          (expect (new config.corrupt_probability_rate)) _ k h in
      (
        subst (λ x. ValidRate fl x.terminate_probability_rate) made
            (expect-ValidRate config.terminate_probability_rate t e),
        subst (λ x. ValidRate fl x.corrupt_probability_rate) made
            (expect-ValidRate config.corrupt_probability_rate c e'),
      )

module _ {Cx F K Addr Tx M : Type 0} ⦃fl : Float F⦄ ⦃d : DashMap K (ConnectionState K Addr Tx) M⦄
    ⦃sd : Sender Cx Tx⦄ (numbers : FloatLaws fl) (laws : DashMapLaws d)
    (same : (a b : K) → Dec (a ≡ b)) where
  -- In every table that the tasks and the API reach from an empty one, entering connections by their
  -- configuration, handling requests of all kinds and removing connections in any order, both
  -- probabilities of every connection show a rate between 0 and 1 and have its threshold. Keys can
  -- be told apart.
  pub Tables-AllValid : {state : ApiState K Addr Tx M} → Tables Cx F state → AllValid fl state
  Tables-AllValid (empty m none_there) =
      λ id. subst (λ x. IfAny (λ _ c. ValidRates fl c) id x) (sym (none_there id)) tt
  Tables-AllValid (connect {state} before config k id addr tx made) =
      let (t, c) = knobs-ValidRate numbers config k made in
      insert-Every (λ _ c. ValidRates fl c) laws same state id (entry id addr config.upstream k tx)
        (record { terminate = t; corrupt = c }) (Tables-AllValid before)
  Tables-AllValid (request {state} before req cx) =
      route-AllValid numbers laws same req state cx (Tables-AllValid before)
  Tables-AllValid (disconnect {state} before id) =
      remove-Every (λ _ c. ValidRates fl c) laws state id (Tables-AllValid before)
