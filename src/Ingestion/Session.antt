-- ===== src/Ingestion/Session.antt =====
-- services/ingestion/src/session.ts: one TCP connection of a device. A promise of `sendCommand` is
-- a number, and `settled` lists how promises ended. A drain runs to its end before the next chunk is
-- taken: chunks that arrive during an await join the buffer, which `Handlers.Drain` shows to be the
-- same.
use fleet_tracking_system.Common.{
  ℕ, suc, List, [], ◌∷◌, ◌++◌, not, true, false, Option, none, some, Text, ◌==◌, nat_eq,
  if◌then◌else◌, map,
}
use fleet_tracking_system.Common.{text_eq, contains, select}
use fleet_tracking_system.Protocol.Fault.{
  Result, ok, err, Fault, plain_error, decode_error, not_logged_in,
}
use fleet_tracking_system.Protocol.Codec8.{extract_frame}
use fleet_tracking_system.Protocol.Codec12.{type_response, decode_codec12, encode_command}
use fleet_tracking_system.Ingestion.Exec.{
  World, Exec, ◌>>=◌, ◌>>◌, pure, lift, count, send, decode_failure, downlink_sent, decode, handler,
  FailReason,
}

pub data Settled : Type 0 where
  resolved : Text → Settled
  timed_out connection_closed : Settled

pub record Session : Type 0 where
  pub imei : Option Text
  pub buffer : List ℕ
  pub pending : List ℕ
  pub next_promise : ℕ
  pub settled : List (ℕ × Settled)

abbrev pub fresh_session : Session
fresh_session = record { imei = none; buffer = []; pending = []; next_promise = 0; settled = [] }

-- A session and its world.
pub record State (S : Type 0) : Type 0 where
  pub session : Session
  pub world : World S

-- An action on the world, within a session.
unfoldable pub outside : {S A : Type 0} → Exec (World S) A → Exec (State S) A
outside m s = let (r, w) = m s.world in (r, record s { world = w })

unfoldable pub modify : {S : Type 0} → (Session → Session) → Exec (State S) (Unit {0})
modify f s = (ok tt, record s { session = f s.session })

unfoldable pub reason_of : Fault → FailReason
reason_of (decode_error r) = decode
reason_of e = handler

unfoldable pub extracted : {S : Type 0} → Exec (State S) (Option (List ℕ × List ℕ))
extracted s = (extract_frame s.session.buffer, s)

unfoldable pub set_buffer : List ℕ → Session → Session
set_buffer buf s = record s { buffer = buf }

-- A response settles the oldest pending command; with none pending it is dropped.
unfoldable pub resolve_oldest : Text → Session → Session
resolve_oldest text s = elim s.pending [
  | [] ↦ s
  | p ∷ ps ↦ record s { pending = ps; settled = s.settled ++ (p, resolved text) ∷ [] }
]

unfoldable pub handle_codec12 : {S : Type 0} → List ℕ → Exec (State S) Unit
handle_codec12 frame = do
  msg ← lift (decode_codec12 frame)
  if not (msg.type == type_response) then pure tt else modify (resolve_oldest msg.payload)

unfoldable pub fail : {S : Type 0} → Fault → State S → State S
fail e s = record s {
  world = record (s.world) {
    closed = true;
    metrics = s.world.metrics ++ decode_failure (reason_of e) ∷ [];
  };
}

unfoldable pub after : {S : Type 0} → Result (Unit {0}) × State S → State S
after (ok u, s) = s
after (err e, s) = fail e s

-- The result is the number of the promise; before the login the call throws.
unfoldable pub send_command : {S : Type 0} → Text → Exec (State S) ℕ
send_command command s = elim s.session.imei [
  | none ↦ (err (plain_error not_logged_in), s)
  | some imei ↦
      (do
        frame ← lift (encode_command command)
        outside (send frame)
        outside (count (downlink_sent imei))
        modify (λ t. record t {
          pending = t.pending ++ t.next_promise ∷ [];
          next_promise = suc t.next_promise;
        })
        pure s.session.next_promise)
        s
]

-- The timer of a promise that is still pending.
unfoldable pub time_out : {S : Type 0} → ℕ → State S → State S
time_out p s = elim (contains p s.session.pending) [
  | false ↦ s
  | true ↦ record s {
    session = record (s.session) {
      pending = select (λ q. not (q == p)) s.session.pending;
      settled = s.session.settled ++ (p, timed_out) ∷ [];
    };
  }
]

unfoldable pub handle_closed : {S : Type 0} → State S → State S
handle_closed s = record s {
  session = record (s.session) {
    pending = [];
    settled = s.session.settled ++ map (λ p. (p, connection_closed)) s.session.pending;
  };
}
