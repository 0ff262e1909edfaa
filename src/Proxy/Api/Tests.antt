-- ===== src/Proxy/Api/Tests.antt =====
-- trixter/src/main.rs: examples of requests to the API.
use trixter.Prelude.{
  ℕ, suc, ◌≡◌, ◌≢◌, refl, Bool, true, false, List, [], ◌∷◌, Memᴰ, none, if◌then◌else◌, arith,
}
use trixter.Tokio.{Sender}
use trixter.Fixtures.{percent}
use trixter.Fixtures.Table.{table, table_laws, lookup, delete}
use trixter.Proxy.Api.{
  ConnectionState, ApiState, refused, internal, remove_all, remove_ids, prepend,
  shutdown_all_connections,
}
use trixter.Proxy.Api.Shutdown.{shutdown_all_connections-lem}

-- A sender that is told counts one; a dropped one does not.
instance abbrev counting : Sender ℕ Bool
counting = record { send = λ tx e cx. if tx then (true, suc cx) else (false, cx) }

abbrev conn : ℕ → Bool → ConnectionState ℕ ℕ Bool
conn id tx = record {
  conn_info = record { id = id; downstream = 80; upstream = 81 };
  delay = record { cell = 0 };
  throttle_rate = record { size = 0 };
  slice_size = record { cell = 0 };
  terminate_probability = record { probability_rate_bits = 0; probability_threshold = 0 };
  corrupt_probability = record { probability_rate_bits = 0; probability_threshold = 0 };
  tx = tx;
}

abbrev two : ApiState ℕ ℕ Bool (List (ℕ × ConnectionState ℕ ℕ Bool))
two = record { connections = (1, conn 1 false) ∷ (2, conn 2 true) ∷ [] }

abbrev one_id : ℕ
one_id = 1

abbrev no_id : ℕ
no_id = 7

abbrev too_many : ℕ
too_many = 130

abbrev nobody : ℕ
nobody = 0

two-ne-one : 2 ≢ one_id
two-ne-one = omega arith

-- The first of two senders is gone; the second is told all the same, and the answer is an error.
shutdown_all_connections-lem_example :
    Memᴰ (conn 2 true) (remove_all two).0
    × (table.get (remove_all two).1.connections 2 ≡ none)
    × (shutdown_all_connections two "stop" nobody ≡ (refused internal, (remove_all two).1, 1))
unfolding table lookup delete remove_all remove_ids prepend
shutdown_all_connections-lem_example =
    shutdown_all_connections-lem table_laws two "stop" nobody 2 (conn 2 true) refl
