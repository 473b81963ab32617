-- ===== src/Zns/Bytes.antt =====
-- Lemmas on the bytes of pages: pages do not overlap, and a page that was written reads back.
use zone_buffer.Base.{
  ℕ, zero, suc, ◌+◌, ◌*◌, ◌≡◌, ◌≢◌, ◌<◌, ◌≤◌, ◌⊎◌, refl, ap, inl, inr, true, false, List, [], ◌∷◌,
  ltb, arith, Bool-cases, ltb→lt, range_from, map, get_or, length, take,
}

-- Reading back over the range that was written gives the bytes written.
pub lt_page : (l k p : ℕ) → l < k → l * p + p ≤ k * p
lt_page l k p h = grind arith

pub pages_apart : (l k p : ℕ) → l ≢ k → (l * p + p ≤ k * p) ⊎ (k * p + p ≤ l * p)
pages_apart l k p ne = elim (Bool-cases (ltb l k)) [
  | inl lo ↦ inl (lt_page l k p (ltb→lt l k lo))
  | inr hi ↦ inr (lt_page k l p (ground arith))
]

pub true≢false : true ≡ false → ⊥
true≢false e = cc

pub take-length : (n : ℕ) (xs : List ℕ) → length xs ≡ n → take n xs ≡ xs
take-length zero [] h = refl
take-length zero (x ∷ xs) h = absurd (omega arith)
take-length (suc n) [] h = absurd (omega arith)
take-length (suc n) (x ∷ xs) h = ap (◌∷◌ x) (take-length n xs (omega arith))

pub bytes_back :
    (bytes : List ℕ) (at : ℕ) (f : ℕ → ℕ)
    → ((i : ℕ) → i < length bytes → f (at + i) ≡ get_or bytes i 0)
    → map f (range_from at (length bytes)) ≡ bytes
bytes_back [] at f h = refl
bytes_back (b ∷ bytes) at f h =
    ground
      (arith, h 0, bytes_back bytes (suc at) f λ i lt. rw (← shift i) (h (suc i) (omega arith)))
  where
    shift : (i : ℕ) → at + suc i ≡ suc at + i
    shift i = omega arith

pub map-range_from_congr :
    (f g : ℕ → ℕ) (at n : ℕ)
    → ((a : ℕ) → at ≤ a → a < at + n → f a ≡ g a)
    → map f (range_from at n) ≡ map g (range_from at n)
map-range_from_congr f g at zero h = refl
map-range_from_congr f g at (suc n) h =
    ground
      (arith, h at, map-range_from_congr f g (suc at) n λ a lo hi. h a (omega arith) (omega arith))
