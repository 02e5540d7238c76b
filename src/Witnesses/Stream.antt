-- ===== src/Witnesses/Stream.antt =====
-- The theorem on the stream of telemetry at a concrete stream.
use fleet_tracking_system.Common.{ℕ, suc, List, [], ◌∷◌, ◌≡◌, refl, arith, Bool, false, ltb}
use fleet_tracking_system.Common.Decimal.{codes}
use fleet_tracking_system.ControlPlane.StreamBus.{
  StreamGroup, Message, Bus, Rising, start, start_with, round, read, deliver, busy_group, starts,
  rounds, stay, then_step,
}
use fleet_tracking_system.ControlPlane.StreamBus.Once.{handed_at_most_once}

-- A stream that always has the next entry; the handler throws from its second batch on.
next_entry : StreamGroup ℕ
next_entry = record {
  create = λ s. (busy_group, s);
  read_new = λ s.
      (record { id = suc s; fields = codes "imei" ∷ codes "356307042441013" ∷ [] } ∷ [], suc s);
  ack = λ ids s. s;
  append = λ fields s. s;
  last_delivered = λ s. s;
  read_rising = λ s. (omega arith, tt);
  read_moves = λ s. refl;
  ack_keeps = λ ids s. refl;
  create_keeps = λ s. omega arith;
  append_keeps = λ fields s. refl;
}

abbrev throwing : List Message → ℕ → Bool × ℕ
throwing batch h = (ltb h 1, suc h)

abbrev idle_bus : Bus ℕ ℕ
idle_bus = record {
  group = 0;
  world = 0;
  running = false;
  looping = false;
  handed = [];
  acked = [];
}

abbrev after_start : Bus ℕ ℕ
after_start = start next_entry throwing idle_bus

abbrev after_first : Bus ℕ ℕ
after_first = round next_entry throwing after_start

abbrev after_throw : Bus ℕ ℕ
after_throw = round next_entry throwing after_first

abbrev after_restart : Bus ℕ ℕ
after_restart = round next_entry throwing (start next_entry throwing after_throw)

handed_test : after_restart.handed ≡ 1 ∷ 2 ∷ 3 ∷ []
unfolding start start_with round read deliver next_entry
handed_test = refl

acked_test : after_restart.acked ≡ 1 ∷ []
unfolding start start_with round read deliver next_entry
acked_test = refl

handed_at_most_once_example : Rising 0 after_restart.handed
handed_at_most_once_example = handed_at_most_once next_entry throwing idle_bus after_restart refl (
    then_step
      (then_step
        (then_step (then_step (then_step (stay idle_bus) (starts idle_bus)) (rounds after_start))
          (rounds after_first))
        (starts after_throw))
      (rounds (start next_entry throwing after_throw)))
