-- ===== src/Proxy/Finish.antt =====
-- trixter/src/main.rs: the end of `handle_connection`, from the copy on.
use trixter.Prelude.{ℕ, ◌*◌, Bool, true, false, ltb, Option, none, some, if◌then◌else◌}
use trixter.Tokio.{
  Result, ok, err, panic, spin, IoError, other, invalid_input, write_zero, os, Payload,
  terminated_error, shutdown_error, timeout_error, dynamic_probability_error, message, io_error,
  DashMap,
}
use trixter.Io.{ResetLinger}
use trixter.Proxy.Settings.{Config}

-- `copy_bidirectional(&mut d, &mut u).await`, alone and under `timeout`, which gives none when the
-- time is over. While it runs, other tasks change the table.
pub record Copy (D U M Cx : Type 0) : Type 0 where
  pub copy_bidirectional : D → U → M → Cx → Result (ℕ × ℕ) × D × U × M × Cx
  pub timeout : ℕ → D → U → M → Cx → Option (Result (ℕ × ℕ)) × D × U × M × Cx

-- How the task ends: it returns or panics, with the two streams as it drops them, if it built any,
-- and the table as it leaves it.
pub record Ended (D U M Cx : Type 0) : Type 0 where
  pub result : Result (Unit {0})
  pub streams : Option (D × U)
  pub connections : M
  pub context : Cx

-- The payload of the error, by `get_ref`, is a `TerminatedError` or a `TimeoutError`.
is_fault : Payload → Bool
is_fault terminated_error = true
is_fault timeout_error = true
is_fault shutdown_error = false
is_fault dynamic_probability_error = false
is_fault (message m) = false
is_fault (io_error e) = false

unfoldable pub needs_reset : IoError → Bool
unfolding is_fault
needs_reset (other p) = is_fault p
needs_reset (invalid_input p) = is_fault p
needs_reset write_zero = false
needs_reset (os n) = false

module _ {D U : Type 0} ⦃ld : ResetLinger D⦄ ⦃lu : ResetLinger U⦄ where
  -- What `if let Err(err) = res` does to the streams.
  unfoldable pub reset_streams : IoError → D → U → D × U
  unfolding needs_reset
  reset_streams e d u =
      let (ignored, d') = ld.set_reset_linger d in
      let (ignored', u') = lu.set_reset_linger u in if needs_reset e then (d', u') else (d, u)

  -- After the copy; a panic of it unwinds before the entry is removed.
  unfoldable pub clean_up :
      {M Cx K : Type 0} (V : Type 0) ⦃dm : DashMap K V M⦄
      → K
      → Result (ℕ × ℕ) × D × U × M × Cx
      → Ended D U M Cx
  unfolding reset_streams
  clean_up V ⦃dm⦄ id (ok copied, d, u, m, cx) = record {
    result = ok tt;
    streams = some (d, u);
    connections = (dm.remove m id).1;
    context = cx;
  }
  clean_up V ⦃dm⦄ id (err e, d, u, m, cx) = record {
    result = ok tt;
    streams = some (reset_streams e d u);
    connections = (dm.remove m id).1;
    context = cx;
  }
  clean_up V id (panic, d, u, m, cx) = record {
    result = panic;
    streams = some (d, u);
    connections = m;
    context = cx;
  }
  clean_up V id (spin, d, u, m, cx) = record {
    result = spin;
    streams = some (d, u);
    connections = m;
    context = cx;
  }

-- `Err(_) => Err(io::Error::other(TimeoutError))`
unfoldable pub timed : Option (Result (ℕ × ℕ)) → Result (ℕ × ℕ)
timed (some res) = res
timed none = err (other timeout_error)

module _ {D U M Cx Addr F : Type 0} ⦃cp : Copy D U M Cx⦄ where
  unfoldable pub run_copy : Config Addr F → D → U → M → Cx → Result (ℕ × ℕ) × D × U × M × Cx
  unfolding timed
  run_copy config d u m cx =
      let timeout_duration = config.connection_duration_ms * 1_000_000 in
      let (res, d', u', m', cx') = cp.timeout timeout_duration d u m cx in
      if ltb 0 config.connection_duration_ms
      then (timed res, d', u', m', cx')
      else cp.copy_bidirectional d u m cx
