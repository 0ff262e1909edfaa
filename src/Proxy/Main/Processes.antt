-- ===== src/Proxy/Main/Processes.antt =====
-- trixter/src/main.rs: the tasks of the connections and the API, which share the table, step by step.
use trixter.Prelude.{
  ℕ, ◌≡◌, refl, sym, ap, subst, ◌∙◌, ◌⊎◌, inl, inr, List, [], ◌∷◌, ◌++◌, Memᴰ, Option, none, some,
  if◌then◌else◌, Bool-cases,
}
use mathlib.Core.Option.{none-ne-some}
use Prim.Native.String.{String}
use trixter.Tokio.{Result, ok, err, panic, spin, DashMap, DashMapLaws, Sender, Float}
use trixter.Io.{ResetLinger}
use trixter.Proxy.Settings.{Config}
use trixter.Proxy.Finish.{clean_up}
use trixter.Proxy.Api.{ConnectionState, ApiState, boxed}
use trixter.Proxy.Api.Every.{IfAny, Every, KnobsKeep, insert-Every, route-Every}
use trixter.Proxy.Api.Shutdown.{shutdown_connection-found}
use trixter.Proxy.Api.Handlers.{Request, status_code, shutdown, route}
use trixter.Proxy.Task.{Knobs, knobs, entry}
use trixter.Proxy.Task.Startup.{Orderly}

-- A task from when it has entered its connection until it cleans up: its id, and the sender whose
-- receiver its stream polls.
pub record Running (K Tx : Type 0) : Type 0 where
  pub id : K
  pub tx : Tx

module _ (Cx F D U : Type 0) {K Addr Tx M : Type 0} ⦃fl : Float F⦄
    ⦃d : DashMap K (ConnectionState K Addr Tx) M⦄ ⦃sd : Sender Cx Tx⦄ ⦃ld : ResetLinger D⦄
    ⦃lu : ResetLinger U⦄ where
  -- The tasks that run and the table, as any interleaving of their steps with the API's reaches them.
  -- Two tasks may have drawn the same id.
  pub data Processes : List (Running K Tx) → ApiState K Addr Tx M → Type 0 where
    started : (m : M) → ((id : K) → d.get m id ≡ none) → Processes [] (record { connections = m })
    entered :
        {tasks : List (Running K Tx)} {state : ApiState K Addr Tx M}
        → Processes tasks state
        → (config : Config Addr F) (k : Knobs) (id : K) (addr : Addr) (tx : Tx)
        → knobs config ≡ ok k
        → Processes (record { id = id; tx = tx } ∷ tasks) (record {
          connections = d.insert state.connections id (entry id addr config.upstream k tx);
        })
    requested :
        {tasks : List (Running K Tx)} {state : ApiState K Addr Tx M}
        → Processes tasks state
        → (req : Request K F) (cx : Cx) → Processes tasks (route req state cx).1
    finished :
        {tasks : List (Running K Tx)} {state : ApiState K Addr Tx M}
        → Processes tasks state
        → (before after : List (Running K Tx)) (task : Running K Tx)
        → tasks ≡ before ++ task ∷ after
        → (res : Result (ℕ × ℕ)) (downstream : D) (upstream : U) (cx : Cx) → Orderly res
        → Processes (before ++ after) (record {
          connections =
              (clean_up
                (ConnectionState K Addr Tx)
                task.id
                (res, downstream, upstream, state.connections, cx)).connections;
        })

module _ {K Addr Tx : Type 0} where
  -- The entry is that of a running task, with its id and its sender.
  pub record Attended (tasks : List (Running K Tx)) (id : K) (c : ConnectionState K Addr Tx)
      : Type 0 where
    pub task : Running K Tx
    pub runs : Memᴰ task tasks
    pub its_id : task.id ≡ id
    pub its_tx : task.tx ≡ c.tx

  KnobsKeep-Attended :
      {F : Type 0} ⦃fl : Float F⦄ (tasks : List (Running K Tx)) → KnobsKeep (Attended tasks) fl
  KnobsKeep-Attended tasks =
      let same : (id : K) (c c' : ConnectionState K Addr Tx)
          → c.tx ≡ c'.tx
          → Attended tasks id c
          → Attended tasks id c' =
        λ id c c' e a. record {
          task = a.task;
          runs = a.runs;
          its_id = a.its_id;
          its_tx = a.its_tx ∙ e;
        } in
      record {
        delay_keeps = λ id c n a. same id c _ refl a;
        throttle_keeps = λ id c n a. same id c _ refl a;
        slice_keeps = λ id c n a. same id c _ refl a;
        termination_keeps = λ id c rate a. same id c _ refl a;
        corruption_keeps = λ id c rate a. same id c _ refl a;
      }

  IfAny-weaken :
      (P Q : K → ConnectionState K Addr Tx → Type 0) (id : K)
      (o : Option (ConnectionState K Addr Tx))
      → ((c : ConnectionState K Addr Tx) → P id c → Q id c)
      → IfAny P id o
      → IfAny Q id o
  IfAny-weaken P Q id none h p = tt
  IfAny-weaken P Q id (some c) h p = h c p

Mem-split :
    {A : Type 0} (before after : List A) (x y : A)
    → Memᴰ y (before ++ x ∷ after)
    → (y ≡ x) ⊎ Memᴰ y (before ++ after)
Mem-split [] after x y (Memᴰ.head e) = inl e
Mem-split [] after x y (Memᴰ.tail at) = inr at
Mem-split (b ∷ before) after x y (Memᴰ.head e) = inr (Memᴰ.head e)
Mem-split (b ∷ before) after x y (Memᴰ.tail at) = elim (Mem-split before after x y at) [
  | inl e ↦ inl e
  | inr rest ↦ inr (Memᴰ.tail rest)
]

module _ {K Addr Tx M : Type 0} ⦃d : DashMap K (ConnectionState K Addr Tx) M⦄
    (laws : DashMapLaws d) where
  some_other :
      (m : M) (id another : K) (c : ConnectionState K Addr Tx)
      → d.get (d.remove m id).1 another ≡ some c
      → (another ≡ id → ⊥) × (d.get m another ≡ some c)
  some_other m id another c h =
      let other : another ≡ id → ⊥ = λ e. absurd (
        none-ne-some c (sym (laws.get-remove m id) ∙ (ap (d.get (d.remove m id).1) (sym e) ∙ h))) in
      (
        other,
        elim (laws.get-remove_other m id another) [
          | inl e ↦ absurd (other e)
          | inr kept ↦ sym kept ∙ h
        ],
      )

  -- The entry of a task is removed, and the task runs no more.
  remove-Attended :
      (before after : List (Running K Tx)) (task : Running K Tx) (m : M)
      → Every {Addr = Addr} (Attended (before ++ task ∷ after)) {M = M} (record { connections = m })
      → (another : K) (o : Option (ConnectionState K Addr Tx))
      → d.get (d.remove m task.id).1 another ≡ o
      → IfAny (Attended (before ++ after)) another o
  remove-Attended before after task m v another none h = tt
  remove-Attended before after task m v another (some c) h =
      let (other, at) = some_other m task.id another c h in
      let a : Attended (before ++ task ∷ after) another c =
        subst (λ x. IfAny (Attended (before ++ task ∷ after)) another x) at (v another) in
      elim (Mem-split before after task a.task a.runs) [
        | inl e ↦ absurd (other (sym a.its_id ∙ ap (λ (r : Running K Tx). r.id) e))
        | inr runs ↦ record { task = a.task; runs = runs; its_id = a.its_id; its_tx = a.its_tx }
      ]

module _ {D U M Cx K : Type 0} (V : Type 0) ⦃ld : ResetLinger D⦄ ⦃lu : ResetLinger U⦄
    ⦃d : DashMap K V M⦄ where
  connections-clean_up :
      (id : K) (res : Result (ℕ × ℕ)) (downstream : D) (upstream : U) (m : M) (cx : Cx)
      → Orderly res
      → (clean_up V id (res, downstream, upstream, m, cx)).connections ≡ (d.remove m id).1
  unfolding clean_up
  connections-clean_up id (ok copied) downstream upstream m cx h = refl
  connections-clean_up id (err e) downstream upstream m cx h = refl
  connections-clean_up id panic downstream upstream m cx h = absurd h
  connections-clean_up id spin downstream upstream m cx h = absurd h

module _ {Cx F D U K Addr Tx M : Type 0} ⦃fl : Float F⦄
    ⦃d : DashMap K (ConnectionState K Addr Tx) M⦄ ⦃sd : Sender Cx Tx⦄ ⦃ld : ResetLinger D⦄
    ⦃lu : ResetLinger U⦄ (laws : DashMapLaws d) (same : (a b : K) → Dec (a ≡ b)) where
  -- However the steps of the tasks and of the API interleave, every connection in the table is that
  -- of a task which runs, with its id and its own sender: no entry outlives its task. Keys can be
  -- told apart, and no copy ends with a panic.
  pub Processes-Attended :
      {tasks : List (Running K Tx)} {state : ApiState K Addr Tx M}
      → Processes Cx F D U tasks state
      → Every (Attended tasks) state
  Processes-Attended (started m none_there) =
      λ id. subst (λ x. IfAny (Attended []) id x) (sym (none_there id)) tt
  Processes-Attended (entered {tasks} {state} so_far config k id addr tx made) =
      let task : Running K Tx = record { id = id; tx = tx } in
      let c : ConnectionState K Addr Tx = entry id addr config.upstream k tx in
      insert-Every (Attended (task ∷ tasks)) laws same state id c
        (record { task = task; runs = Memᴰ.head refl; its_id = refl; its_tx = refl })
        (λ another.
          IfAny-weaken (Attended tasks) (Attended (task ∷ tasks)) another
            (d.get state.connections another)
            (λ c' a. record {
              task = a.task;
              runs = Memᴰ.tail a.runs;
              its_id = a.its_id;
              its_tx = a.its_tx;
            })
            (Processes-Attended so_far another))
  Processes-Attended (requested {tasks} {state} so_far req cx) =
      route-Every (Attended tasks) laws same (KnobsKeep-Attended tasks) req state cx
        (Processes-Attended so_far)
  Processes-Attended (finished {tasks} {state} so_far before after task e res dn up cx h) =
      λ another.
        rw
          (connections-clean_up (ConnectionState K Addr Tx) task.id res dn up state.connections cx
            h)
          (remove-Attended laws before after task state.connections
            (subst (λ ts. Every (Attended ts) state) e (Processes-Attended so_far)) another
            (d.get (d.remove state.connections task.id).1 another) refl)

  -- A request to shut down a connection that is in the table, at any such moment: there is a running
  -- task of that id, the reason is sent to that task's sender and to no other, the connection leaves
  -- the table, and the answer is 202 if the task takes the reason, else 500.
  pub shutdown-reaches :
      {tasks : List (Running K Tx)} {state : ApiState K Addr Tx M}
      → Processes Cx F D U tasks state
      → (id : K) (reason : String) (cx : Cx) (c : ConnectionState K Addr Tx)
      → d.get state.connections id ≡ some c
      → (task : Running K Tx) × Memᴰ task tasks
        × (task.id ≡ id)
        × (let (sent, cx') = sd.send task.tx (boxed reason) cx in
            route {F = F} (shutdown id reason) state cx ≡ (
              status_code (if sent then 202 else 500),
              record { connections = (d.remove state.connections id).1 },
              cx',
            ))
  unfolding route
  shutdown-reaches {tasks} {state} reached id reason cx c h =
      let a : Attended tasks id c =
        subst (λ x. IfAny (Attended tasks) id x) h (Processes-Attended reached id) in
      (
        a.task,
        a.runs,
        a.its_id,
        rw (shutdown_connection-found laws state id reason cx c h, a.its_tx)
            (elim (Bool-cases (sd.send c.tx (boxed reason) cx).0) [
              | inl sent ↦ rw sent refl
              | inr gone ↦ rw gone refl
            ]),
      )
