-- ===== src/ControlPlane/AlertStore/InRange.antt =====
-- What a report sees of a device's alerts.
use fleet_tracking_system.Common.{
  ℕ, zero, suc, ◌≤◌, List, [], ◌∷◌, ◌≡◌, refl, ap, ◌∙◌, arith, Bool, ◌&&◌, true, some, text_eq,
  length, take, leb, nat_eq,
}
use fleet_tracking_system.Common.{select}
use fleet_tracking_system.ControlPlane.Alerts.{AlertEvent}
use fleet_tracking_system.ControlPlane.AlertStore.{
  insert_newest, sort_newest, listed, list_rows, report_limit, alerts_in_range,
}
use fleet_tracking_system.ControlPlane.AlertStore.Clearing.{count}

-- Sorting keeps the numbers of rows.
count-insert_newest :
    (p : AlertEvent → Bool) (a : AlertEvent) (rows : List AlertEvent)
    → count p (insert_newest a rows) ≡ count p (a ∷ rows)
unfolding insert_newest
count-insert_newest p a [] = refl
count-insert_newest p a (b ∷ rows) = ground (arith, count-insert_newest p a rows)

count-sort_newest :
    (p : AlertEvent → Bool) (rows : List AlertEvent) → count p (sort_newest rows) ≡ count p rows
unfolding sort_newest
count-sort_newest p [] = refl
count-sort_newest p (a ∷ rows) =
    omega (arith, count-insert_newest p a (sort_newest rows), count-sort_newest p rows)

length_count : (rows : List AlertEvent) → length rows ≡ count (λ a. true) rows
length_count [] = refl
length_count (a ∷ rows) = omega (arith, length_count rows)

length-sort_newest : (rows : List AlertEvent) → length (sort_newest rows) ≡ length rows
length-sort_newest rows =
    omega (
      arith,
      length_count (sort_newest rows),
      count-sort_newest (λ a. true) rows,
      length_count rows,
    )

take_all : (n : ℕ) (rows : List AlertEvent) → length rows ≤ n → take n rows ≡ rows
unfolding take
take_all zero [] h = refl
take_all zero (a ∷ rows) h = absurd (omega (arith, h))
take_all (suc n) [] h = refl
take_all (suc n) (a ∷ rows) h = ap (λ r. a ∷ r) (take_all n rows (omega (arith, h)))

count-select :
    (p q : AlertEvent → Bool) (rows : List AlertEvent)
    → count p (select q rows) ≡ count (λ a. q a && p a) rows
count-select p q [] = refl
count-select p q (a ∷ rows) = ground (arith, count-select p q rows)

count-same :
    (p q : AlertEvent → Bool) (rows : List AlertEvent)
    → ((a : AlertEvent) → p a ≡ q a)
    → count p rows ≡ count q rows
count-same p q [] h = refl
count-same p q (a ∷ rows) h = ground (arith, count-same p q rows h, h a)

-- Where a device has no more alerts than the limit of a report, the report of a range has exactly the device's alerts in
-- this range: of any kind, as many as are stored.
pub alerts_in_range_exact :
    (tenant device from to : ℕ) (rows : List AlertEvent) (p : AlertEvent → Bool)
    → length (select (listed tenant (some device)) rows) ≤ report_limit
    → count p (alerts_in_range tenant device from to rows)
      ≡ count (λ a. listed tenant (some device) a && ((leb from a.ts && leb a.ts to) && p a)) rows
unfolding alerts_in_range list_rows
alerts_in_range_exact tenant device from to rows p few =
    let mine = select (listed tenant (some device)) rows in
    let within : AlertEvent → Bool = λ a. leb from a.ts && leb a.ts to in
    ap (λ r. count p (select within r))
      (take_all report_limit (sort_newest mine) (omega (arith, length-sort_newest mine, few)))
    ∙ count-select p within (sort_newest mine)
    ∙ count-sort_newest (λ a. within a && p a) mine
    ∙ count-select (λ a. within a && p a) (listed tenant (some device)) rows
