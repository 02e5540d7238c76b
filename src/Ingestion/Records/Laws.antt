-- ===== src/Ingestion/Records/Laws.antt =====
-- What the loop over a packet's records leaves alone, and how its records are accounted for.
use fleet_tracking_system.Common.{
  ℕ, suc, ◌+◌, Bool, true, false, List, [], ◌∷◌, ◌++◌, ◌≡◌, refl, arith, Text, length, nat_eq, ◌⊎◌,
  inl, inr, append-nil, append_assoc, replicate,
}
use mathlib.Core.Path.{subst}
use fleet_tracking_system.Protocol.Fault.{Result, ok, err, Fault}
use fleet_tracking_system.Protocol.Codec8.{AvlRecord}
use fleet_tracking_system.Ingestion.AvlMap.{NormalizedTelemetry, normalize}
use fleet_tracking_system.Ingestion.Dedupe.{Deduper, dedupe_key}
use fleet_tracking_system.Ingestion.Exec.{World, duplicate_dropped, count}
use fleet_tracking_system.Ingestion.Records.{check_and_set, fresh_records}

pub Result-cases :
    {A : Type 0} (r : Result A) → ((a : A) × (r ≡ ok a)) ⊎ ((e : Fault) × (r ≡ err e))
Result-cases (ok a) = inl (a, refl)
Result-cases (err e) = inr (e, refl)

-- Nothing but the deduper's state and the counters changes.
pub record Untouched {S : Type 0} (w w' : World S) : Type 0 where
  pub durable : w'.durable ≡ w.durable
  pub sink_plan : w'.sink_plan ≡ w.sink_plan
  pub sent : w'.sent ≡ w.sent
  pub closed : w'.closed ≡ w.closed

module _ (d : Deduper) (sha1_hex : Text → Text) where
  open d use {State as Seen}

  pub fresh_records-Untouched :
      (imei : Text) (recs : List AvlRecord) (w : World Seen)
      → Untouched w (fresh_records d sha1_hex imei recs w).1
  unfolding fresh_records check_and_set count
  fresh_records-Untouched imei [] w = record {
    durable = refl;
    sink_plan = refl;
    sent = refl;
    closed = refl;
  }
  fresh_records-Untouched imei (rec ∷ recs) w =
      let checked = d.check_and_set (dedupe_key sha1_hex imei rec) w.seen in
      let w1 : World Seen = record w { seen = checked.1 } in
      let w2 : World Seen = record w1 { metrics = w1.metrics ++ duplicate_dropped ∷ [] } in
      ground (arith, fresh_records-Untouched imei recs w1, fresh_records-Untouched imei recs w2)

  -- What is to become of records under an IMEI, from the deduper's state before them to the one after them: a
  -- record whose key is new is kept, normalized, and one whose key is known is left out, in their order.
  pub data Kept (imei : Text)
      : List AvlRecord → Seen → List NormalizedTelemetry → Seen → Type 0 where
    no_more : (s : Seen) → Kept imei [] s [] s
    is_new :
        {rec : AvlRecord} {recs : List AvlRecord} {s s' s'' : Seen} {t : NormalizedTelemetry}
        {ts : List NormalizedTelemetry}
        → d.check_and_set (dedupe_key sha1_hex imei rec) s ≡ (ok true, s')
        → normalize imei rec ≡ ok t
        → Kept imei recs s' ts s''
        → Kept imei (rec ∷ recs) s (t ∷ ts) s''
    is_known :
        {rec : AvlRecord} {recs : List AvlRecord} {s s' s'' : Seen} {ts : List NormalizedTelemetry}
        → d.check_and_set (dedupe_key sha1_hex imei rec) s ≡ (ok false, s')
        → Kept imei recs s' ts s''
        → Kept imei (rec ∷ recs) s ts s''

  nothing_left :
      {ts : List NormalizedTelemetry}
      → ◌≡◌ {A = Result (List NormalizedTelemetry)} (ok []) (ok ts)
      → [] ≡ ts
  nothing_left h = cc

  checked-cases :
      (r : Result Bool × Seen)
      → ((s : Seen) × (r ≡ (ok true, s)))
        ⊎ (((s : Seen) × (r ≡ (ok false, s))) ⊎ ((e : Fault) × (s : Seen) × (r ≡ (err e, s))))
  checked-cases (ok true, s) = inl (s, refl)
  checked-cases (ok false, s) = inr (inl (s, refl))
  checked-cases (err e, s) = inr (inr (e, s, refl))

  -- Where the loop returns, each record is among the results or is counted as a duplicate, as its key is
  -- new or known.
  pub fresh_records_accounted :
      (imei : Text) (recs : List AvlRecord) (w : World Seen) {fresh : List NormalizedTelemetry}
      → (fresh_records d sha1_hex imei recs w).0 ≡ ok fresh
      → (k : ℕ) × ((fresh_records d sha1_hex imei recs w).1.metrics
          ≡ w.metrics ++ replicate k duplicate_dropped)
        × (length fresh + k ≡ length recs)
        × Kept imei recs w.seen fresh (fresh_records d sha1_hex imei recs w).1.seen
  unfolding fresh_records check_and_set count
  fresh_records_accounted imei [] w h = (
    0,
    rw append-nil refl,
    ground arith,
    subst (λ f. Kept imei [] w.seen f w.seen) (nothing_left h) (no_more w.seen),
  )
  fresh_records_accounted imei (rec ∷ recs) w {fresh} h =
      elim (checked-cases (d.check_and_set (dedupe_key sha1_hex imei rec) w.seen)) [
        | inl (seen, e) ↦
            let w1 : World Seen = record w { seen = seen } in
            elim (Result-cases (normalize imei rec)) [
              | inl (t, et) ↦ elim (Result-cases (fresh_records d sha1_hex imei recs w1).0) [
                | inl (ts, ets) ↦
                    let (k, em, el, kept) = fresh_records_accounted imei recs w1 ets in
                    let same : (t ∷ ts) ≡ fresh = ground (arith, e, et, ets, h) in
                    let after : (fresh_records d sha1_hex imei recs w1).1.seen
                        ≡ (fresh_records d sha1_hex imei (rec ∷ recs) w).1.seen =
                      ground (arith, e, et, ets) in
                    (
                      k,
                      ground (arith, em, e),
                      ground (arith, el),
                      subst
                          (λ f.
                            Kept imei (rec ∷ recs) w.seen f
                              (fresh_records d sha1_hex imei (rec ∷ recs) w).1.seen)
                          same
                          (subst (Kept imei (rec ∷ recs) w.seen (t ∷ ts)) after (is_new e et kept)),
                    )
                | inr (x, ex) ↦ absurd (ground (arith, e))
              ]
              | inr (x, ex) ↦ absurd (ground (arith, e))
            ]
        | inr (inl (seen, e)) ↦
            let w2 : World Seen = record w {
              seen = seen;
              metrics = w.metrics ++ duplicate_dropped ∷ [];
            } in
            let (k, em, el, kept) =
              fresh_records_accounted imei recs w2 {fresh = fresh} (ground (arith, e)) in
            let after : (fresh_records d sha1_hex imei recs w2).1.seen
                ≡ (fresh_records d sha1_hex imei (rec ∷ recs) w).1.seen =
              ground (arith, e) in
            (
              suc k,
              ground (
                arith,
                e,
                em,
                append_assoc w.metrics (duplicate_dropped ∷ []) (replicate k duplicate_dropped),
              ),
              ground (arith, el),
              subst (Kept imei (rec ∷ recs) w.seen fresh) after (is_known e kept),
            )
        | inr (inr (x, seen, e)) ↦ absurd (ground (arith, e))
      ]
