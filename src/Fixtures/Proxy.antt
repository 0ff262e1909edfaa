-- ===== src/Fixtures/Proxy.antt =====
-- What the proxy uses of its host, small, and a configuration.
use trixter.Prelude.{
  ℕ, suc, ◌*◌, ◌/◌, ◌-◌, ◌^◌, ◌≡◌, refl, ◌==◌, ==_iff, inl, inr, Bool, true, false, Bool-cases,
  List, [], ◌∷◌, Option, none, arith,
}
use trixter.Tokio.{Poll, Payload, ok, err, other, terminated_error, Sender, ready}
use trixter.Io.{ResetLinger, SetLinger, tcp_linger}
use trixter.Fixtures.{Tape, blank, tape, clock_timer, percent, given, counter}
use trixter.Fixtures.Table.{table, lookup}
use trixter.Probability
use trixter.Probability.{DynamicProbability, dynamic_threshold}
use trixter.Corrupter.{corrupter_write}
use trixter.Terminator.{terminator_write}
use trixter.Slicer.{sliced_write, dynamic_size}
use trixter.Throttler.{dynamic_rate}
use trixter.Throttler.Writer.{throttled_write}
use trixter.Delayer.{dynamic_duration}
use trixter.Delayer.Writer.{delayed_write}
use trixter.Proxy.Settings.{Config}
use trixter.Proxy.Api.{ConnectionState}
use trixter.Proxy.Finish.{Copy}
use trixter.Proxy.Task.{Host, Seedable, Knobs, knobs, expect}
use trixter.Proxy.Task.Startup.{OrderlyCopy}

abbrev pub tape_option : SetLinger Tape
tape_option = record { set_linger = λ t time. (ok tt, record t { flushed = false }) }

instance abbrev pub tape_linger : ResetLinger Tape
tape_linger = tcp_linger ⦃s = tape_option⦄

instance abbrev pub split : Seedable ℕ
split = record { seed_from_u64 = λ seed. seed; from_rng = λ g. (g, suc g) }

-- Slices of two bytes; a draw below `corrupt` corrupts.
abbrev pub knobs_at : ℕ → ℕ → Knobs
knobs_at rate corrupt = record {
  delay = record { cell = 0 };
  throttle_rate = record { size = rate };
  slice_size = record { cell = 2 };
  terminate_probability_rate = record { probability_rate_bits = 0; probability_threshold = 0 };
  corrupt_probability_rate = record {
    probability_rate_bits = corrupt;
    probability_threshold = corrupt;
  };
}

-- Ids and upstreams count with the clock.
instance abbrev pub local : Host ℕ Tape ℕ ℕ Bool (Poll (Option Payload))
local = record {
  connect = λ addr cx. (ok blank, cx);
  set_nodelay = λ t on cx. (ok tt, t, cx);
  channel = λ cx. (true, ready none, cx);
  nanoid = λ cx. (cx, suc cx);
}

-- A copy ends at once with an error, or never.
module _ {D U M : Type 0} where
  instance abbrev pub broken : Copy D U M ℕ
  broken = record {
    copy_bidirectional = λ d u m cx. (err (other terminated_error), d, u, m, cx);
    timeout = λ nanos d u m cx. (none, d, u, m, cx);
  }

abbrev pub broken_is_orderly : {D U M : Type 0} → OrderlyCopy (broken {D = D} {U = U} {M = M})
broken_is_orderly = record { copies = λ d u m cx. tt; limited = λ nanos d u m cx. tt }

abbrev pub config : Config ℕ ℕ
config = record {
  listen = 1;
  upstream = 2;
  api = 3;
  delay_ms = 5;
  throttle_rate_bytes = 1000;
  slice_size_bytes = 10;
  terminate_probability_rate = 50;
  corrupt_probability_rate = 100;
  connection_duration_ms = 60_000;
  random_seed = none;
}

abbrev pub Entries : Type 0
Entries = List (ℕ × ConnectionState ℕ ℕ Bool)

abbrev pub no_entries : Entries
no_entries = []

abbrev pub drawn : ℕ
drawn = 7

abbrev pub client : ℕ
client = 9

-- Two connections are open; the first ends.
abbrev pub conn : ℕ → ConnectionState ℕ ℕ Bool
conn id = record {
  conn_info = record { id = id; downstream = 80; upstream = 81 };
  delay = record { cell = 0 };
  throttle_rate = record { size = 0 };
  slice_size = record { cell = 0 };
  terminate_probability = record { probability_rate_bits = 0; probability_threshold = 0 };
  corrupt_probability = record { probability_rate_bits = 0; probability_threshold = 0 };
  tx = true;
}

abbrev pub entries : Entries
entries = (1, conn 1) ∷ (2, conn 2) ∷ []

abbrev pub one : ℕ
one = 1

abbrev pub two : ℕ
two = 2

abbrev pub config_knobs : Knobs
config_knobs = record {
  delay = record { cell = 5_000_000 };
  throttle_rate = record { size = 1000 };
  slice_size = record { cell = 10 };
  terminate_probability_rate = record {
    probability_rate_bits = 50;
    probability_threshold = 50 * (2 ^ 64 - 1) / 100;
  };
  corrupt_probability_rate = record {
    probability_rate_bits = 100;
    probability_threshold = 100 * (2 ^ 64 - 1) / 100;
  };
}

pub its_knobs : knobs config ≡ ok config_knobs
unfolding knobs expect Probability.new
its_knobs = refl

pub none_there : (id : ℕ) → table.get no_entries id ≡ none
unfolding table lookup
none_there id = refl

instance abbrev pub told : Sender ℕ Bool
told = record { send = λ tx e cx. (tx, cx) }

pub same_id : (a b : ℕ) → Dec (a ≡ b)
same_id a b = elim (Bool-cases (a == b)) [
  | inl e ↦ yes ((==_iff a b).0 e)
  | inr ne ↦ no (ground arith)
]
