-- ===== src/RedisArray/Search.antt =====
-- The search on the ring, and the point that owns a hash.
use icore_tax_gateway.Base.{
  ℕ, zero, suc, ◌+◌, ◌-◌, ◌/◌, ◌≤◌, ◌<◌, ◌≡◌, refl, true, false, inl, inr, Bool-cases, List, arith,
  ltb, ltb→lt, ◌==◌, get_or, length,
}
use icore_tax_gateway.RedisArray.{ContinuumPoint, search_ring, ring_position}

at_end : (r n i : ℕ) → (r == n) ≡ true → i < n → i < r
at_end r n i h k = ground arith

not_end : (r n : ℕ) → r ≤ n → (r == n) ≡ false → r < n
not_end r n h k = ground arith

-- The place of the point at an index.
abbrev pub place : List ContinuumPoint → ℕ → ℕ
place points i = (get_or points i (record { index = 0; value = 0 })).value

-- The points stand in the order in which qsort leaves them.
abbrev pub IsSorted : List ContinuumPoint → Type 0
IsSorted points = (i j : ℕ) → i ≤ j → j < length points → place points i ≤ place points j

-- Every point before the index is below the hash, and none from it on.
pub record Splits (points : List ContinuumPoint) (ret n lo hi : ℕ) : Type 0 where
  pub ordered : lo ≤ hi
  pub inside : hi ≤ n
  pub below : (i : ℕ) → i < lo → place points i < ret
  pub above : (i : ℕ) → hi ≤ i → i < n → ret ≤ place points i

module _ (points : List ContinuumPoint) (ret : ℕ) (sorted : IsSorted points) where
  module _ (lo hi : ℕ) (inv : Splits points ret (length points) lo hi) (more : lo < hi) where
    go_above :
        place points ((lo + hi) / 2) < ret
        → Splits points ret (length points) ((lo + hi) / 2 + 1) hi
    go_above c = record {
      ordered = omega arith;
      inside = inv.inside;
      below = λ i h.
          let between = inv.inside in
          omega (arith, sorted i ((lo + hi) / 2) (omega arith) (omega arith));
      above = inv.above;
    }

    go_below :
        ret ≤ place points ((lo + hi) / 2) → Splits points ret (length points) lo ((lo + hi) / 2)
    go_below c = record {
      ordered = omega arith;
      inside = omega (arith, inv.inside);
      below = inv.below;
      above = λ i h k. omega (arith, sorted ((lo + hi) / 2) i h k);
    }

  -- An empty range is the split point.
  meets :
      (lo hi : ℕ)
      → Splits points ret (length points) lo hi
      → hi ≤ lo
      → Splits points ret (length points) hi hi
  meets lo hi inv h = record {
    ordered = omega arith;
    inside = inv.inside;
    below = λ i k. inv.below i (omega (arith, inv.ordered));
    above = inv.above;
  }

  search_ring-Splits :
      (rounds lo hi : ℕ)
      → hi - lo ≤ rounds
      → Splits points ret (length points) lo hi
      → let r = search_ring rounds points ret lo hi in Splits points ret (length points) r r
  unfolding search_ring
  search_ring-Splits zero lo hi fuel inv = meets lo hi inv (omega (arith, inv.ordered))
  search_ring-Splits (suc rounds) lo hi fuel inv = elim (Bool-cases (ltb lo hi)) [
    | inr done ↦ rw done (meets lo hi inv (ground arith))
    | inl more ↦
        let lt : lo < hi = ltb→lt lo hi more in
        rw more (elim (Bool-cases (ltb (place points ((lo + hi) / 2)) ret)) [
          | inl small ↦ rw small (
              search_ring-Splits rounds ((lo + hi) / 2 + 1) hi (omega arith)
                (go_above lo hi inv lt (ltb→lt _ _ small)))
          | inr large ↦ rw large (
              search_ring-Splits rounds lo ((lo + hi) / 2) (omega arith)
                (go_below lo hi inv lt (ground arith)))
        ])
  ]

-- The point that owns a hash: the first that is not below it, or the first of all if every point is.
pub data Owns (points : List ContinuumPoint) (ret p : ℕ) : Type 0 where
  first_not_below :
      p < length points
      → ret ≤ place points p
      → ((i : ℕ) → i < p → place points i < ret)
      → Owns points ret p
  wraps : p ≡ 0 → ((i : ℕ) → i < length points → place points i < ret) → Owns points ret p

-- On a ring in order the search ends, and finds the point that owns the hash.
pub ring_position-Owns :
    (points : List ContinuumPoint) (ret : ℕ)
    → IsSorted points
    → Owns points ret (ring_position points ret)
unfolding ring_position
ring_position-Owns points ret sorted =
    let n = length points in
    let r = search_ring n points ret 0 n in
    let found : Splits points ret n r r =
      search_ring-Splits points ret sorted n 0 n (omega arith) (record {
        ordered = omega arith;
        inside = omega arith;
        below = λ i h. absurd (omega arith);
        above = λ i h k. absurd (omega arith);
      }) in
    elim (Bool-cases (r == n)) [
      | inl all ↦ rw all (wraps refl (λ i h. found.below i (at_end r n i all h)))
      | inr some_left ↦ rw some_left (
          first_not_below (not_end r n found.inside some_left)
            (found.above r (omega arith) (not_end r n found.inside some_left)) found.below)
    ]
