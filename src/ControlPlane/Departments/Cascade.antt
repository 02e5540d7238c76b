-- ===== src/ControlPlane/Departments/Cascade.antt =====
-- The loop of the repository's `remove` over the units below one.
use fleet_tracking_system.Common.{
  ℕ, zero, suc, ◌+◌, ◌≤◌, List, [], ◌∷◌, ◌++◌, ◌≡◌, refl, sym, ◌∙◌, arith, ◌||◌, true, false,
  Option, some, text_eq, length, nat_eq, Bool-cases, ◌⊎◌, inl, inr, length-append,
}
use mathlib.Core.Path.{subst}
use mathlib.Core.Logic.{◌↔◌}
use fleet_tracking_system.Common.{==_refl, contains}
use fleet_tracking_system.ControlPlane.Org.Kids.{contains-append}
use fleet_tracking_system.ControlPlane.Departments.{Units, children_of, doom}
use fleet_tracking_system.ControlPlane.Departments.Forest.{up, Above, here, step, Filed, Forest}
use fleet_tracking_system.ControlPlane.Departments.Ancestors.{no_loop}
use fleet_tracking_system.ControlPlane.Departments.Children.{
  is_parent, contains-children_of, is_parent-some, Nodup, Nodup-append, children_of-Nodup, pending,
  pending_le, pending-add,
}

module _ (tenant root : ℕ) (units : Units) (filed : Filed units) (forest : Forest units) where
  abbrev f : ℕ → Option ℕ
  f = up tenant units

  kid : (x c : ℕ) → contains c (children_of tenant x units) ≡ is_parent x (f c)
  kid x c = contains-children_of tenant x c units filed.distinct filed.keyed

  -- The loop between two rounds.
  record Doomed (done ahead : List ℕ) : Type 0 where
    once : Nodup ahead
    apart : (y : ℕ) → contains y ahead ≡ true → contains y done ≡ false
    parents :
        (y : ℕ)
        → (contains y done || contains y ahead) ≡ true
        → (y ≡ root) ⊎ ((q : ℕ) × ((f y ≡ some q) × (contains q done ≡ true)))
    below : (y : ℕ) → (contains y done || contains y ahead) ≡ true → Above f root y
    base : (contains root done || contains root ahead) ≡ true
    closed :
        (y q : ℕ)
        → f y ≡ some q
        → contains q done ≡ true
        → (contains y done || contains y ahead) ≡ true

  kid_of : (x c : ℕ) → contains c (children_of tenant x units) ≡ true → f c ≡ some x
  kid_of x c h = is_parent-some x (f c) (sym (kid x c) ∙ h)

  -- Who is there after a round: those from before, and the children.
  shift :
      (done ahead : List ℕ) (x y : ℕ)
      → (contains y (done ++ x ∷ []) || contains y (ahead ++ children_of tenant x units))
        ≡ ((contains y done || contains y (x ∷ ahead)) || is_parent x (f y))
  shift done ahead x y = ground (
    arith,
    contains-append y done (x ∷ []),
    contains-append y ahead (children_of tenant x units),
    kid x y,
  )

  -- A child of the unit in turn is new to the loop.
  kid_new :
      (done ahead : List ℕ) (x c : ℕ)
      → Doomed done (x ∷ ahead)
      → f c ≡ some x
      → (contains c done || contains c (x ∷ ahead)) ≡ false
  kid_new done ahead x c h e = elim (Bool-cases (contains c done || contains c (x ∷ ahead))) [
    | inr new ↦ new
    | inl old ↦ elim (h.parents c old) [
      | inl same ↦ absurd (
          no_loop c (forest tenant x) e
            (subst (λ y. Above f y x) (sym same) (h.below x (ground (arith, ==_refl x)))))
      | inr (q, (e', in_done)) ↦
          absurd (ground (arith, h.apart x (ground (arith, ==_refl x)), e, e', in_done))
    ]
  ]

  Doomed-round :
      (done ahead : List ℕ) (x : ℕ)
      → Doomed done (x ∷ ahead)
      → Doomed (done ++ x ∷ []) (ahead ++ children_of tenant x units)
  Doomed-round done ahead x h = record {
    once =
        Nodup-append ahead (children_of tenant x units) h.once.1
          (children_of-Nodup tenant x units filed.distinct filed.keyed)
          (λ y e. let new = kid_new done ahead x y h (kid_of x y e) in ground arith);
    apart = λ y e. elim (Bool-cases (contains y ahead)) [
      | inl old ↦
          ground (arith, h.apart y, contains-append y done (x ∷ []), h.once, nat_eq.beq_iff x y)
      | inr other ↦
          let kid_y =
            kid_of x y (ground (arith, contains-append y ahead (children_of tenant x units))) in
          let new = kid_new done ahead x y h kid_y in
          ground (arith, contains-append y done (x ∷ []))
    ];
    parents = λ y e. elim (Bool-cases (contains y done || contains y (x ∷ ahead))) [
      | inl old ↦ elim (h.parents y old) [
        | inl same ↦ inl same
        | inr (q, (e', in_done)) ↦ inr (q, (e', ground (arith, contains-append q done (x ∷ []))))
      ]
      | inr new ↦ inr (
        x,
        (
          is_parent-some x (f y) (ground (arith, shift done ahead x y)),
          ground (arith, contains-append x done (x ∷ []), ==_refl x),
        ),
      )
    ];
    below = λ y e. elim (Bool-cases (contains y done || contains y (x ∷ ahead))) [
      | inl old ↦ h.below y old
      | inr new ↦
          step (is_parent-some x (f y) (ground (arith, shift done ahead x y)))
            (h.below x (ground (arith, ==_refl x)))
    ];
    base = ground (arith, shift done ahead x root, h.base);
    closed = λ y q e in_done. elim (Bool-cases (contains q done)) [
      | inl old ↦ ground (arith, shift done ahead x y, h.closed y q e old)
      | inr new ↦ ground (
        arith,
        shift done ahead x y,
        contains-append q done (x ∷ []),
        nat_eq.beq_iff x q,
        ==_refl q,
      )
    ];
  }

  Above-in : (done : List ℕ) (y : ℕ) → Doomed done [] → Above f root y → contains y done ≡ true
  Above-in done y h here = ground (arith, h.base)
  Above-in done y h (step {p = p} e a) = ground (arith, h.closed y p e (Above-in done p h a))

  doom_ends :
      (n : ℕ) (done ahead : List ℕ)
      → Doomed done ahead
      → length ahead + pending tenant done units ≤ n
      → (r : List ℕ) × ((doom n tenant units done ahead ≡ some r)
          × ((y : ℕ) → (contains y r ≡ true) ↔ Above f root y))
  unfolding doom
  doom_ends zero done [] h le =
      (done, (refl, λ y. (λ e. h.below y (ground arith), Above-in done y h)))
  doom_ends zero done (x ∷ ahead) h le = absurd (omega arith)
  doom_ends (suc n) done [] h le =
      (done, (refl, λ y. (λ e. h.below y (ground arith), Above-in done y h)))
  doom_ends (suc n) done (x ∷ ahead) h le =
      doom_ends n (done ++ x ∷ []) (ahead ++ children_of tenant x units)
        (Doomed-round done ahead x h)
        (omega (
          arith,
          pending-add tenant x done units (h.apart x (ground (arith, ==_refl x))),
          length-append ahead (children_of tenant x units),
          le,
        ))

  pub doom_exact :
      (r : List ℕ) × ((doom (length units + 1) tenant units [] (root ∷ []) ≡ some r)
        × ((y : ℕ) → (contains y r ≡ true) ↔ Above f root y))
  doom_exact =
      doom_ends (length units + 1) [] (root ∷ [])
        (record {
          once = (refl, tt);
          apart = λ y e. refl;
          parents = λ y e. inl (sym ((nat_eq.beq_iff root y).0 (ground arith)));
          below =
              λ y e. subst (λ z. Above f root z) ((nat_eq.beq_iff root y).0 (ground arith)) here;
          base = ground (arith, ==_refl root);
          closed = λ y q e in_done. absurd (ground arith);
        })
        (omega (arith, pending_le tenant [] units))
