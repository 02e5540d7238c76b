-- ===== src/ControlPlane/Positions/Sorting.antt =====
-- The order of a history.
use fleet_tracking_system.Common.{
  ℕ, zero, suc, ◌≤◌, List, [], ◌∷◌, ◌≡◌, arith, Bool, true, text_eq, length, take, leb, nat_eq,
  Bool-cases, inl, inr, All, length-take,
}
use fleet_tracking_system.Common.{select}
use fleet_tracking_system.ControlPlane.Alerts.{Position}
use fleet_tracking_system.ControlPlane.Positions.{insert_by_ts, sort_by_ts, in_range, history}

-- Each timestamp is at most the later ones.
abbrev pub IsSorted : List Position → Type 0
IsSorted [] = Unit
IsSorted (p ∷ ps) = All (λ q. p.ts ≤ q.ts) ps × IsSorted ps

insert_by_ts-All :
    (P : Position → Type 0) (p : Position) (qs : List Position)
    → P p
    → All P qs
    → All P (insert_by_ts p qs)
unfolding insert_by_ts
insert_by_ts-All P p [] hp h = (hp, tt)
insert_by_ts-All P p (q ∷ qs) hp (hq, h) = elim (Bool-cases (leb p.ts q.ts)) [
  | inl first ↦ rw first (hp, (hq, h))
  | inr later ↦ rw later (hq, insert_by_ts-All P p qs hp h)
]

All-le : (a b : ℕ) (qs : List Position) → a ≤ b → All (λ q. b ≤ q.ts) qs → All (λ q. a ≤ q.ts) qs
All-le a b [] le h = tt
All-le a b (q ∷ qs) le (x, h) = (omega (arith, le, x), All-le a b qs le h)

insert_by_ts-IsSorted :
    (p : Position) (qs : List Position) → IsSorted qs → IsSorted (insert_by_ts p qs)
unfolding insert_by_ts
insert_by_ts-IsSorted p [] h = (tt, tt)
insert_by_ts-IsSorted p (q ∷ qs) (low, h) = elim (Bool-cases (leb p.ts q.ts)) [
  | inl first ↦
      let le : p.ts ≤ q.ts = ground arith in rw first ((le, All-le p.ts q.ts qs le low), (low, h))
  | inr later ↦
      rw later
        (insert_by_ts-All (λ r. q.ts ≤ r.ts) p qs (ground arith) low, insert_by_ts-IsSorted p qs h)
]

sort_by_ts-IsSorted : (ps : List Position) → IsSorted (sort_by_ts ps)
unfolding sort_by_ts
sort_by_ts-IsSorted [] = tt
sort_by_ts-IsSorted (p ∷ ps) = insert_by_ts-IsSorted p (sort_by_ts ps) (sort_by_ts-IsSorted ps)

sort_by_ts-All : (P : Position → Type 0) (ps : List Position) → All P ps → All P (sort_by_ts ps)
unfolding sort_by_ts
sort_by_ts-All P [] h = tt
sort_by_ts-All P (p ∷ ps) (hp, h) = insert_by_ts-All P p (sort_by_ts ps) hp (sort_by_ts-All P ps h)

select-All : (f : Position → Bool) (ps : List Position) → All (λ p. f p ≡ true) (select f ps)
select-All f [] = tt
select-All f (p ∷ ps) = elim (Bool-cases (f p)) [
  | inl yes_ ↦ rw yes_ (yes_, select-All f ps)
  | inr no_ ↦ rw no_ (select-All f ps)
]

take-All : (P : Position → Type 0) (n : ℕ) (ps : List Position) → All P ps → All P (take n ps)
unfolding take
take-All P zero ps h = tt
take-All P (suc n) [] h = tt
take-All P (suc n) (p ∷ ps) (hp, h) = (hp, take-All P n ps h)

take-IsSorted : (n : ℕ) (ps : List Position) → IsSorted ps → IsSorted (take n ps)
unfolding take
take-IsSorted zero ps h = tt
take-IsSorted (suc n) [] h = tt
take-IsSorted (suc n) (p ∷ ps) (low, h) =
    (take-All (λ q. p.ts ≤ q.ts) n ps low, take-IsSorted n ps h)

-- A history is in the order of the timestamps, has the tenant's positions of the device within the range
-- only, and no more of them than the limit.
pub history-IsSorted :
    (tenant device from to limit : ℕ) (rows : List Position)
    → IsSorted (history tenant device from to limit rows)
      × (All
            (λ p. in_range tenant device from to p ≡ true)
            (history tenant device from to limit rows)
          × (length (history tenant device from to limit rows) ≤ limit))
unfolding history
history-IsSorted tenant device from to limit rows =
    let found = select (in_range tenant device from to) rows in
    let sorted = sort_by_ts found in
    (
      take-IsSorted limit sorted (sort_by_ts-IsSorted found),
      (
        take-All _ limit sorted
            (sort_by_ts-All _ found (select-All (in_range tenant device from to) rows)),
        omega (arith, length-take limit sorted),
      ),
    )
