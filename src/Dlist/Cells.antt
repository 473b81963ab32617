-- ===== src/Dlist/Cells.antt =====
-- The cells of a doubly linked list: addresses and values, and how often an address occurs.
use mathlib.Core.List.{map-append}
use zone_buffer.Base.{
  ℕ, suc, ◌+◌, ◌≡◌, ◌<◌, ◌≤◌, refl, ◌∙◌, ap, false, some, ◌==◌, if◌then◌else◌, List, [], ◌∷◌, ◌++◌,
  arith, map, count, count-append, length,
}
use zone_buffer.Base.Int.{ℤ}
use zone_buffer.Dlist.{Ptr}

-- Address and value of each node, in order.
abbrev pub Cells : Type 0
Cells = List (ℕ × ℤ)

abbrev pub addrs : Cells → List ℕ
addrs xs = map (λ c. c.0) xs

abbrev pub contents : Cells → List ℤ
contents xs = map (λ c. c.1) xs

-- The address of the first node, or what follows.
abbrev pub first_or : Cells → Ptr → Ptr
first_or [] after = after
first_or ((p, v) ∷ xs) after = some p

abbrev pub last_or : Cells → Ptr → Ptr
last_or [] before = before
last_or ((p, v) ∷ xs) before = last_or xs (some p)

pub last_or-append :
    (xs : Cells) (p : ℕ) (v : ℤ) (ys : Cells) (before : Ptr)
    → last_or (xs ++ (p, v) ∷ ys) before ≡ last_or ys (some p)
last_or-append [] p v ys before = refl
last_or-append ((q, w) ∷ xs) p v ys before = last_or-append xs p v ys (some q)

pub count-addrs_append :
    (k : ℕ) (xs ys : Cells) → count k (addrs (xs ++ ys)) ≡ count k (addrs xs) + count k (addrs ys)
count-addrs_append k xs ys =
    ap (count k) (map-append (λ (c : ℕ × ℤ). c.0) xs ys) ∙ count-append k (addrs xs) (addrs ys)

pub other_head :
    (p q : ℕ) (rest : List ℕ) → count p (q ∷ rest) ≤ 1 → 0 < count p rest → (p == q) ≡ false
unfolding count
other_head p q rest once here = ground arith

pub once_tail :
    (q : ℕ) (rest : List ℕ) → ((k : ℕ) → count k (q ∷ rest) ≤ 1) → (k : ℕ) → count k rest ≤ 1
unfolding count
once_tail q rest once k = ground (arith, once k)

pub count_cons : (p q : ℕ) (rest : List ℕ) → 0 < count p rest → 0 < count p (q ∷ rest)
unfolding count
count_cons p q rest h = ground arith

pub apart_of_counts : (p n : ℕ) (xs : List ℕ) → 0 < count p xs → count n xs ≡ 0 → (p == n) ≡ false
unfolding count
apart_of_counts p n xs here out = ground arith

-- One more address, anywhere in the list.
pub count-addrs_insert :
    (k : ℕ) (xs ys : Cells) (n : ℕ) (d : ℤ)
    → count k (addrs (xs ++ (n, d) ∷ ys)) ≡ (if n == k then 1 else 0) + count k (addrs (xs ++ ys))
unfolding count
count-addrs_insert k xs ys n d =
    omega (arith, count-addrs_append k xs ((n, d) ∷ ys), count-addrs_append k xs ys)

pub once_insert :
    (xs ys : Cells) (n : ℕ) (d : ℤ)
    → ((k : ℕ) → count k (addrs (xs ++ ys)) ≤ 1)
    → count n (addrs (xs ++ ys)) ≡ 0
    → (k : ℕ) → count k (addrs (xs ++ (n, d) ∷ ys)) ≤ 1
once_insert xs ys n d once out k = ground (arith, count-addrs_insert k xs ys n d, once k)

pub known_insert :
    (xs ys : Cells) (n : ℕ) (d : ℤ)
    → ((k : ℕ) → n ≤ k → count k (addrs (xs ++ ys)) ≡ 0)
    → (k : ℕ) → suc n ≤ k
    → count k (addrs (xs ++ (n, d) ∷ ys)) ≡ 0
known_insert xs ys n d known k h = ground (arith, count-addrs_insert k xs ys n d, known k)

-- Of two parts of a list, an address that is in one is not in the other.
pub once_right :
    (xs ys : Cells) (p : ℕ)
    → ((k : ℕ) → count k (addrs (xs ++ ys)) ≤ 1)
    → 0 < count p (addrs xs)
    → count p (addrs ys) ≡ 0
once_right xs ys p once h = omega (arith, once p, count-addrs_append p xs ys)

pub once_left :
    (xs ys : Cells) (p : ℕ)
    → ((k : ℕ) → count k (addrs (xs ++ ys)) ≤ 1)
    → 0 < count p (addrs ys)
    → count p (addrs xs) ≡ 0
once_left xs ys p once h = omega (arith, once p, count-addrs_append p xs ys)

pub once_parts :
    (xs ys : Cells)
    → ((k : ℕ) → count k (addrs (xs ++ ys)) ≤ 1)
    → ((k : ℕ) → count k (addrs xs) ≤ 1) × ((k : ℕ) → count k (addrs ys) ≤ 1)
once_parts xs ys once = (
  λ k. omega (arith, once k, count-addrs_append k xs ys),
  λ k. omega (arith, once k, count-addrs_append k xs ys),
)

pub out_of_parts :
    (xs ys : Cells) (k : ℕ)
    → count k (addrs (xs ++ ys)) ≡ 0
    → (count k (addrs xs) ≡ 0) × (count k (addrs ys) ≡ 0)
out_of_parts xs ys k h =
    (omega (arith, h, count-addrs_append k xs ys), omega (arith, h, count-addrs_append k xs ys))

pub head_once : (q : ℕ) (rest : List ℕ) → ((k : ℕ) → count k (q ∷ rest) ≤ 1) → count q rest ≡ 0
unfolding count
head_once q rest once = ground (arith, once q)

pub head_here : (q : ℕ) (rest : List ℕ) → 0 < count q (q ∷ rest)
unfolding count
head_here q rest = ground arith

-- One address less.
pub once_delete :
    (xs ys : Cells) (n : ℕ) (d : ℤ)
    → ((k : ℕ) → count k (addrs (xs ++ (n, d) ∷ ys)) ≤ 1)
    → ((k : ℕ) → count k (addrs (xs ++ ys)) ≤ 1) × (count n (addrs (xs ++ ys)) ≡ 0)
once_delete xs ys n d once = (
  λ k. ground (arith, count-addrs_insert k xs ys n d, once k),
  ground (arith, count-addrs_insert n xs ys n d, once n),
)

pub known_delete :
    (xs ys : Cells) (n : ℕ) (d : ℤ) (k : ℕ)
    → count k (addrs (xs ++ (n, d) ∷ ys)) ≡ 0
    → count k (addrs (xs ++ ys)) ≡ 0
known_delete xs ys n d k h = ground (arith, count-addrs_insert k xs ys n d)

pub last_here :
    (xs : Cells) (before : Ptr) (p : ℕ)
    → 0 < length xs
    → last_or xs before ≡ some p
    → 0 < count p (addrs xs)
unfolding count
last_here [] before p pos e = absurd (omega arith)
last_here ((q, v) ∷ []) before p pos e = ground (arith, e)
last_here ((q, v) ∷ (r, w) ∷ xs) before p pos e =
    count_cons p q (r ∷ addrs xs) (last_here ((r, w) ∷ xs) (some q) p (omega arith) e)

pub last_some : (ys : Cells) (h : ℕ) → (p : ℕ) × (last_or ys (some h) ≡ some p)
last_some [] h = (h, refl)
last_some ((q, w) ∷ ys) h = last_some ys q
