-- ===== src/Base/Lists.antt =====
-- Lists measured, indexed and counted by native numbers, under the library's names.
use Prim.Native.Nat.{ℕ, zero, suc, ◌+◌, ◌<◌}
use mathlib.Core.Path.{◌≡◌, refl, ap}
use mathlib.Core.Logic.{◌≢◌, ◌⊎◌, inl, inr}
use mathlib.Core.List.{List, [], ◌∷◌, ◌++◌}
use mathlib.Core.Option.{Option, none, some}
use native.Mathlib.Omega.{arith}
use zone_buffer.Base.Tests.{◌==◌, ltb, leb, if◌then◌else◌}

module _ {ℓ} {A : Type ℓ} where
  abbrev pub length : List A → ℕ
  length [] = 0
  length (x ∷ xs) = suc (length xs)

  abbrev pub get_elem? : List A → ℕ → Option A
  get_elem? [] i = none
  get_elem? (x ∷ xs) zero = some x
  get_elem? (x ∷ xs) (suc i) = get_elem? xs i

  -- A write out of bounds changes nothing.
  abbrev pub set : List A → ℕ → A → List A
  set [] i v = []
  set (x ∷ xs) zero v = v ∷ xs
  set (x ∷ xs) (suc i) v = x ∷ set xs i v

  abbrev pub get_or : List A → ℕ → A → A
  get_or [] i d = d
  get_or (x ∷ xs) zero d = x
  get_or (x ∷ xs) (suc i) d = get_or xs i d

  abbrev pub take : ℕ → List A → List A
  take zero xs = []
  take (suc n) [] = []
  take (suc n) (x ∷ xs) = x ∷ take n xs

  abbrev pub drop : ℕ → List A → List A
  drop zero xs = xs
  drop (suc n) [] = []
  drop (suc n) (x ∷ xs) = drop n xs

  abbrev pub replicate : ℕ → A → List A
  replicate zero a = []
  replicate (suc n) a = a ∷ replicate n a

  pub length-append : (xs ys : List A) → length (xs ++ ys) ≡ length xs + length ys
  length-append [] ys = omega arith
  length-append (x ∷ xs) ys = omega (arith, length-append xs ys)

  pub length-replicate : (n : ℕ) (a : A) → length (replicate n a) ≡ n
  length-replicate zero a = refl
  length-replicate (suc n) a = ap suc (length-replicate n a)

  pub length-set : (xs : List A) (i : ℕ) (v : A) → length (set xs i v) ≡ length xs
  length-set [] i v = refl
  length-set (x ∷ xs) zero v = refl
  length-set (x ∷ xs) (suc i) v = ap suc (length-set xs i v)

-- `for (i = 0; i < n; i++)` as the list of its values of `i`, from `a`.
abbrev pub range_from : ℕ → ℕ → List ℕ
range_from a zero = []
range_from a (suc n) = a ∷ range_from (suc a) n

unfoldable pub count : ℕ → List ℕ → ℕ
count k [] = 0
count k (x ∷ xs) = (if x == k then 1 else 0) + count k xs

-- The list without the first `k`.
unfoldable pub remove : ℕ → List ℕ → List ℕ
remove k [] = []
remove k (x ∷ xs) = if x == k then xs else x ∷ remove k xs

pub count-append : (k : ℕ) (xs ys : List ℕ) → count k (xs ++ ys) ≡ count k xs + count k ys
unfolding count
count-append k [] ys = omega arith
count-append k (x ∷ xs) ys = omega (arith, count-append k xs ys)

pub count-remove :
    (k j : ℕ) (xs : List ℕ)
    → 0 < count k xs
    → count j (remove k xs) + (if k == j then 1 else 0) ≡ count j xs
unfolding count remove
count-remove k j [] h = absurd (omega arith)
count-remove k j (x ∷ xs) h = ground (arith, count-remove k j xs)

-- One element goes over from one of two lists to the other.
pub count_move :
    (k id : ℕ) (xs cs ds : List ℕ)
    → count k xs ≡ count k cs + count k ds
    → 0 < count id cs
    → count k xs ≡ count k (remove id cs) + count k (id ∷ ds)
unfolding count
count_move k id xs cs ds e h = omega (arith, count-remove id k cs h)

pub remove-absent : (k : ℕ) (xs : List ℕ) → count k xs ≡ 0 → remove k xs ≡ xs
unfolding count remove
remove-absent k [] h = refl
remove-absent k (x ∷ xs) h = ground (arith, remove-absent k xs)

pub count-remove_ne : (k j : ℕ) (xs : List ℕ) → k ≢ j → count j (remove k xs) ≡ count j xs
unfolding count remove
count-remove_ne k j [] ne = refl
count-remove_ne k j (x ∷ xs) ne = ground (arith, count-remove_ne k j xs)

pub length-remove : (k : ℕ) (xs : List ℕ) → 0 < count k xs → length (remove k xs) + 1 ≡ length xs
unfolding count remove
length-remove k [] h = absurd (omega arith)
length-remove k (x ∷ xs) h = ground (arith, length-remove k xs)

-- Lists with the same elements, as often, are equally long.
pub length_of_counts :
    (xs ys : List ℕ) → ((k : ℕ) → count k xs ≡ count k ys) → length xs ≡ length ys
unfolding count
length_of_counts [] [] h = refl
length_of_counts [] (y ∷ ys) h = absurd (ground (arith, h y))
length_of_counts (x ∷ xs) ys h =
    let present : 0 < count x ys = ground (arith, h x) in
    omega (
      arith,
      length-remove x ys present,
      length_of_counts xs (remove x ys) λ k. ground (arith, h k, count-remove x k ys present),
    )

-- A counted loop visits each number of its range once.
pub count-range_from :
    (k a n : ℕ)
    → count k (range_from a n) ≡ (if leb a k then (if ltb k (a + n) then 1 else 0) else 0)
unfolding count
count-range_from k a zero = ground arith
count-range_from k a (suc n) = ground (arith, count-range_from k (suc a) n)

pub length-range_from : (a n : ℕ) → length (range_from a n) ≡ n
length-range_from a zero = refl
length-range_from a (suc n) = ap suc (length-range_from (suc a) n)

-- A list is empty or has a last item.
pub last_cases {ℓ} :
    {A : Type ℓ} (xs : List A) → (xs ≡ []) ⊎ ((ys : List A) × (x : A) × (xs ≡ ys ++ x ∷ []))
last_cases [] = inl refl
last_cases (x ∷ xs) = elim (last_cases xs) [
  | inl e ↦ inr ([], x, ap (◌∷◌ x) e)
  | inr (ys, y, e) ↦ inr (x ∷ ys, y, ap (◌∷◌ x) e)
]
