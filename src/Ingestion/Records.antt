-- ===== src/Ingestion/Records.antt =====
-- The loop over the records of a packet that session.ts and udp-server.ts of services/ingestion/src
-- share: each record is tested against the deduper, and normalized if it is new.
pub mod Laws
use fleet_tracking_system.Common.{
  ℕ, zero, suc, ◌+◌, ◌-◌, ◌*◌, ◌/◌, ◌%◌, ◌≤◌, ◌<◌, List, [], ◌∷◌, ◌++◌, ◌≡◌, ◌≢◌, refl, sym, ap,
  ◌∙◌, arith, Bool, ◌&&◌, ◌||◌, not, true, false, Option, none, some, Text, length, take, drop, ltb,
  leb, nat_beq, ◌==◌, nat_eq, if◌then◌else◌, Bool-cases, Option-cases, ◌⊎◌, inl, inr, All, map,
  length-append, length-take, length-drop, append-nil, append_assoc, take-append_le, drop-append_le,
  take-append_eq, drop-append_eq, drop_two, take-append-drop,
}
use fleet_tracking_system.Protocol.Codec8.{AvlRecord}
use fleet_tracking_system.Ingestion.AvlMap.{NormalizedTelemetry, normalize}
use fleet_tracking_system.Ingestion.Dedupe.{Deduper, dedupe_key}
use fleet_tracking_system.Ingestion.Exec.{
  World, Exec, ◌>>=◌, ◌>>◌, pure, lift, count, duplicate_dropped,
}
use fleet_tracking_system.Protocol.Fault.{Result, ok, err, ◌>>=◌ as bind_result}

module _ (d : Deduper) (sha1_hex : Text → Text) where
  open d use {State as Seen}

  unfoldable pub check_and_set : Text → Exec (World Seen) Bool
  check_and_set key w =
      let (fresh, seen) = d.check_and_set key w.seen in (fresh, record w { seen = seen })

  -- The loop over the records of a packet: those that are new, normalized.
  unfoldable pub fresh_records :
      Text → List AvlRecord → Exec (World Seen) (List NormalizedTelemetry)
  fresh_records imei [] = pure []
  fresh_records imei (rec ∷ recs) = do
    is_new ← check_and_set (dedupe_key sha1_hex imei rec)
    if is_new
        then (do t ← lift (normalize imei rec); ts ← fresh_records imei recs; pure (t ∷ ts))
        else (do count duplicate_dropped; fresh_records imei recs)
