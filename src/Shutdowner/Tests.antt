-- ===== src/Shutdowner/Tests.antt =====
-- tokio-netem/src/shutdowner.rs: examples.
use trixter.Prelude.{ℕ, ◌≡◌, refl, List, [], ◌∷◌, Option, none, some}
use trixter.Tokio.{Poll, ready, other, Payload, message}
use trixter.Fixtures.{Tape, blank, running, tape, tape_read, tape_buf_read, given}
use trixter.Shutdowner.{
  Shutdowner, new, shut_down, shutdowner_write, shutdowner_read, shutdowner_buf_read,
}
use trixter.Shutdowner.Tripped.{AllFail, tripped, tripped_for_good, delivered_once}

abbrev Rx : Type 0
Rx = Poll (Option Payload)

abbrev revoked : Payload
revoked = message "policy revoked"

abbrev down : Shutdowner Tape Rx
down = record { inner = blank; err_rx = none }

tripped_for_good_example :
    AllFail {Cx = ℕ} {Rx = Rx} {B = List ℕ} down running
      (1 ∷ [])
      ((1 ∷ []) ∷ [])
      (9 ∷ [])
      shut_down
      down
      running
    × ((shutdowner_buf_read {Cx = ℕ} {Rx = Rx}).consume down 0
        ≡ tripped (tape_buf_read.consume blank 0))
tripped_for_good_example = tripped_for_good blank running (1 ∷ []) ((1 ∷ []) ∷ []) (9 ∷ []) 0

delivered_once_example :
    AllFail {Cx = ℕ} {Rx = Rx} {B = List ℕ}
      (new blank (ready (some revoked)))
      1
      (1 ∷ [])
      ((1 ∷ []) ∷ [])
      (9 ∷ [])
      (other revoked)
      down
      1
    × AllFail {Cx = ℕ} {Rx = Rx} {B = List ℕ} down 2
        (1 ∷ [])
        ((1 ∷ []) ∷ [])
        (9 ∷ [])
        shut_down
        down
        2
delivered_once_example =
    delivered_once blank (ready (some revoked)) (ready (some revoked)) 1 1 2 (1 ∷ [])
      ((1 ∷ []) ∷ []) (9 ∷ []) revoked refl
