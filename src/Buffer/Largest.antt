-- ===== src/Buffer/Largest.antt =====
-- The choice of the cluster to evict, in `evict_victim`.
use zone_buffer.Base.{
  ℕ, zero, suc, ◌+◌, ◌≡◌, ◌<◌, ◌≤◌, ◌==◌, refl, subst, inl, inr, ltb, if◌then◌else◌, arith,
  Bool-cases, Returns,
}
use zone_buffer.Buffer.Evict.{largest, largest_from}

-- `c` is one of the first `n` clusters, and none of these is larger.
pub IsLargest : (ℕ → ℕ) → ℕ → ℕ → Type 0
IsLargest size n c = (c < n) × ((j : ℕ) → j < n → size j ≤ size c)

step :
    (size : ℕ → ℕ) (i cf : ℕ)
    → IsLargest size i cf
    → IsLargest size (suc i) (if ltb (size i) (size cf) then cf else i)
unfolding IsLargest
step size i cf (lt, max) = elim (Bool-cases (ltb (size i) (size cf))) [
  | inl less ↦ rw less (
    omega arith,
    λ j h. elim (Bool-cases (j == i)) [
      | inl same ↦ ground (arith, max j)
      | inr other ↦ ground (arith, max j)
    ],
  )
  | inr more ↦ rw more (
    omega arith,
    λ j h. elim (Bool-cases (j == i)) [
      | inl same ↦ ground (arith, max j)
      | inr other ↦ ground (arith, max j)
    ],
  )
]

size_if :
    (size : ℕ → ℕ) (i cf : ℕ)
    → (if ltb (size i) (size cf) then size cf else size i)
      ≡ size (if ltb (size i) (size cf) then cf else i)
size_if size i cf = elim (Bool-cases (ltb (size i) (size cf))) [
  | inl less ↦ rw less refl
  | inr more ↦ rw more refl
]

largest_from-IsLargest :
    (size : ℕ → ℕ) (i n k cf : ℕ)
    → i + n ≡ k
    → IsLargest size i cf
    → IsLargest size k (largest_from size i n cf (size cf))
unfolding largest_from
largest_from-IsLargest size i zero k cf e h =
    subst (λ (j : ℕ). IsLargest size j cf) (omega (arith, e)) h
largest_from-IsLargest size i (suc n) k cf e h =
    let next = if ltb (size i) (size cf) then cf else i in
    rw (size_if size i cf)
      (largest_from-IsLargest size (suc i) n k next (omega (arith, e)) (step size i cf h))

-- Of a positive number of clusters, the one that the loop of `evict_victim` chooses is one of
-- them, and none of them has more candidates.
pub largest-IsLargest : (size : ℕ → ℕ) (n : ℕ) → 0 < n → Returns (largest size n) (IsLargest size n)
unfolding largest IsLargest
largest-IsLargest size zero h = absurd (omega arith)
largest-IsLargest size (suc n) h = (
  largest_from size 1 n 0 (size 0),
  refl,
  largest_from-IsLargest size 1 n (suc n) 0 (omega arith) (omega arith, λ j lt. ground arith),
)
