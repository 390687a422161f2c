-- ===== src/Worker/Backoff/Growth.antt =====
-- How the delay grows.
use Prim.Native.Nat.{min}
use native.Mathlib.Nat.{pow-suc}
use native.Mathlib.Decide.{dec_le}
use fluffy_dollop.Base.{
  ℕ, zero, suc, ◌*◌, ◌^◌, ◌≤◌, ◌<◌, ◌≡◌, ap, ◌∙◌, List, [], ◌∷◌, arith, length,
}
use fluffy_dollop.Base.Int.{pos}
use fluffy_dollop.Go.Float.{Float64}
use fluffy_dollop.Worker.Backoff.{Backoff, reset, double, next, after_failures}

-- IEEE 754: float64 has all integers up to 2 ^ 53, and doubling one of them is exact.
pub record DoublesExactly (F : Float64) : Type 0 where
  pub exact :
      (n : ℕ) → n < 2 ^ 53 → F.truncate (F.mul (F.of_int (pos n)) (F.of_int (pos 2))) ≡ pos (2 * n)

pow-pos : (k : ℕ) → 1 ≤ 2 ^ k
pow-pos zero = omega arith
pow-pos (suc k) = rw (pow-suc 2 k) (omega (arith, pow-pos k))

scaled : (p m : ℕ) → 1 ≤ p → m ≤ p * m
scaled p m h = grind arith

min_scaled : (p m hi : ℕ) → 1 ≤ p → min (p * min m hi) hi ≡ min (p * m) hi
min_scaled p m hi h = elim (dec_le m hi) [
  | yes below ↦ ap (λ k. min (p * k) hi) (omega arith)
  | no above ↦
      ap (λ k. min (p * k) hi) (let e : min m hi ≡ hi = omega arith in e)
      ∙ omega (arith, scaled p hi h, scaled p m h)
]

doubled_again : (k n : ℕ) → 2 ^ k * (2 * n) ≡ 2 ^ suc k * n
doubled_again k n = rw (pow-suc 2 k) (omega arith)

module _ (F : Float64) (D : DoublesExactly F) where
  next_current :
      (lo hi n : ℕ) (random : F.Float)
      → n < 2 ^ 53
      → (next F (record { current = pos n; min = pos lo; max = pos hi }) random).1
        ≡ record { current = pos (min (2 * n) hi); min = pos lo; max = pos hi }
  unfolding next double
  next_current lo hi n random h = ground (arith, D.exact n h)

  grown :
      (lo hi n : ℕ) (randoms : List F.Float)
      → n ≤ hi
      → hi < 2 ^ 53
      → after_failures F randoms (record { current = pos n; min = pos lo; max = pos hi })
        ≡ record { current = pos (min (2 ^ length randoms * n) hi); min = pos lo; max = pos hi }
  unfolding after_failures
  grown lo hi n [] h small =
      ap (λ k. record { current = pos k; min = pos lo; max = pos hi }) (omega arith)
  grown lo hi n (r ∷ randoms) h small = rw (next_current lo hi n r (omega arith)) (
      grown lo hi (min (2 * n) hi) randoms (omega arith) small
      ∙ ap (λ k. record { current = pos k; min = pos lo; max = pos hi })
          (min_scaled (2 ^ length randoms) (2 * n) hi (pow-pos (length randoms))
            ∙ ap (λ k. min k hi) (doubled_again (length randoms) n)))

  -- After k failures in a row from a reset, the delay before jitter is the minimum doubled k times,
  -- or the maximum if that is less, for a minimum up to the maximum and a maximum below 2 ^ 53
  -- nanoseconds.
  pub after_failures-reset :
      (lo hi : ℕ) (b : Backoff) (randoms : List F.Float)
      → lo ≤ hi
      → hi < 2 ^ 53
      → b.min ≡ pos lo
      → b.max ≡ pos hi
      → (after_failures F randoms (reset b)).current ≡ pos (min (2 ^ length randoms * lo) hi)
  unfolding reset
  after_failures-reset lo hi b randoms h small el eh =
      rw (el, eh) (ap (λ x. x.current) (grown lo hi lo randoms h small))
