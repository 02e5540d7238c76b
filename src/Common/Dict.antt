-- ===== src/Common/Dict.antt =====
-- A JavaScript `Map`, and an object used as one: entries in the order of their first insertion.
-- `set` on a key that is there keeps its place; `delete` removes it.
use Prim.Native.Nat.{◌+◌, ◌≤◌}
use mathlib.Core.Path.{◌≡◌, refl, sym, subst}
use mathlib.Core.List.{List, [], ◌∷◌, ◌++◌}
use mathlib.Core.Option.{Option, none, some}
use native.Mathlib.Omega.{arith}
use fleet_tracking_system.Common.Tests.{if◌then◌else◌, Bool-cases}
use fleet_tracking_system.Common.Classes.{Eq, ◌==◌, ==_refl}
use fleet_tracking_system.Common.Lists.{length, All}
use mathlib.Core.Bool.{false}
use mathlib.Core.Logic.{inl, inr}

abbrev pub Dict {ℓ κ} : Type ℓ → Type κ → Type (ℓ ⊔ κ)
Dict K V = List (K × V)

module _ {ℓ κ} {K : Type ℓ} {V : Type κ} ⦃e : Eq K⦄ where
  unfoldable pub get : K → Dict K V → Option V
  get k [] = none
  get k ((j, v) ∷ m) = if j == k then some v else get k m

  unfoldable pub set : K → V → Dict K V → Dict K V
  set k v [] = (k, v) ∷ []
  set k v ((j, w) ∷ m) = if j == k then (j, v) ∷ m else (j, w) ∷ set k v m

  unfoldable pub delete : K → Dict K V → Dict K V
  delete k [] = []
  delete k ((j, v) ∷ m) = let rest = delete k m in if j == k then rest else (j, v) ∷ rest

  pub get-set :
      (k j : K) (v : V) (m : Dict K V) → get j (set k v m) ≡ (if k == j then some v else get j m)
  unfolding get set
  get-set k j v [] = refl
  get-set k j v ((i, w) ∷ m) =
      ground (arith, e.beq_iff k j, e.beq_iff i k, e.beq_iff i j, get-set k j v m)

  pub get-delete :
      (k j : K) (m : Dict K V) → get j (delete k m) ≡ (if k == j then none else get j m)
  unfolding get delete
  get-delete k j [] = ground arith
  get-delete k j ((i, w) ∷ m) =
      ground (arith, e.beq_iff k j, e.beq_iff i k, e.beq_iff i j, get-delete k j m)

  pub get-append_none :
      (k : K) (v : V) (m : Dict K V) → get k m ≡ none → get k (m ++ (k, v) ∷ []) ≡ some v
  unfolding get
  get-append_none k v [] h = rw (==_refl k)
  get-append_none k v ((j, w) ∷ m) h = ground (arith, get-append_none k v m)

  pub set_new : (k : K) (v : V) (m : Dict K V) → get k m ≡ none → set k v m ≡ m ++ (k, v) ∷ []
  unfolding get set
  set_new k v [] h = refl
  set_new k v ((j, w) ∷ m) h = ground (arith, set_new k v m)

  pub delete-append_ne :
      (j k : K) (v : V) (m : Dict K V)
      → (j == k) ≡ false
      → delete j (m ++ (k, v) ∷ []) ≡ delete j m ++ (k, v) ∷ []
  unfolding delete
  delete-append_ne j k v [] h = ground (arith, e.beq_iff j k, e.beq_iff k j)
  delete-append_ne j k v ((i, w) ∷ m) h = ground (arith, delete-append_ne j k v m h)

  -- A key that is there is set in its place.
  pub length-set :
      (k : K) (v w : V) (m : Dict K V) → get k m ≡ some w → length (set k v m) ≡ length m
  unfolding get set
  length-set k v w [] h = cc
  length-set k v w ((j, u) ∷ m) h = ground (arith, length-set k v w m)

  pub length-delete : (k : K) (m : Dict K V) → length (delete k m) ≤ length m
  unfolding delete
  length-delete k [] = omega arith
  length-delete k ((j, v) ∷ m) = ground (arith, length-delete k m)

  pub length-set_le : (k : K) (v : V) (m : Dict K V) → length (set k v m) ≤ length m + 1
  unfolding set
  length-set_le k v [] = omega arith
  length-set_le k v ((j, w) ∷ m) = ground (arith, length-set_le k v m)

  -- No two entries have one key.
  abbrev pub Distinct : Dict K V → Type (ℓ ⊔ κ)
  Distinct [] = Unit
  Distinct ((k, v) ∷ m) = (get k m ≡ none) × Distinct m

  pub Distinct-set : (k : K) (v : V) (m : Dict K V) → Distinct m → Distinct (set k v m)
  unfolding get set
  Distinct-set k v [] h = (refl, tt)
  Distinct-set k v ((j, w) ∷ m) (new, h) = elim (Bool-cases (j == k)) [
    | inl same ↦ rw same (new, h)
    | inr other ↦
        rw other
          (ground (arith, get-set k j v m, e.beq_iff j k, e.beq_iff k j, new), Distinct-set k v m h)
  ]

  pub Distinct-delete : (k : K) (m : Dict K V) → Distinct m → Distinct (delete k m)
  unfolding get delete
  Distinct-delete k [] h = tt
  Distinct-delete k ((j, w) ∷ m) (new, h) = elim (Bool-cases (j == k)) [
    | inl same ↦ rw same (Distinct-delete k m h)
    | inr other ↦
        rw other (
          ground (arith, get-delete k j m, e.beq_iff j k, e.beq_iff k j, new),
          Distinct-delete k m h,
        )
  ]

  module _ {μ} (P : K × V → Type μ) where
    pub All-set : (k : K) (v : V) (m : Dict K V) → P (k, v) → All P m → All P (set k v m)
    unfolding set
    All-set k v [] p h = (p, tt)
    All-set k v ((j, w) ∷ m) p (q, h) = elim (Bool-cases (j == k)) [
      | inl same ↦ rw same (subst (λ i. P (i, v)) (sym ((e.beq_iff j k).0 same)) p, h)
      | inr other ↦ rw other (q, All-set k v m p h)
    ]

    pub All-delete : (k : K) (m : Dict K V) → All P m → All P (delete k m)
    unfolding delete
    All-delete k [] h = tt
    All-delete k ((j, w) ∷ m) (q, h) = elim (Bool-cases (j == k)) [
      | inl same ↦ rw same (All-delete k m h)
      | inr other ↦ rw other (q, All-delete k m h)
    ]

    pub All-get : (k : K) (v : V) (m : Dict K V) → All P m → get k m ≡ some v → P (k, v)
    unfolding get
    All-get k v [] h g = absurd (ground arith)
    All-get k v ((j, w) ∷ m) (q, h) g = elim (Bool-cases (j == k)) [
      | inl same ↦
          let value : some w ≡ some v = ground arith in
          subst (λ i. P (i, v)) ((e.beq_iff j k).0 same)
            (subst (λ o. All P (elim o [ none ↦ [] | some u ↦ (j, u) ∷ [] ])) value (q, tt)).0
      | inr other ↦ All-get k v m h (ground arith)
    ]
