-- ===== src/HashTable/Buckets.antt =====
-- One chain of the table.
use zone_buffer.Base.{
  ℕ, ◌+◌, ◌≡◌, ◌≤◌, refl, List, [], ◌∷◌, ◌++◌, none, some, ◌==◌, if◌then◌else◌, arith, is_some,
  Bool-cases, inl, inr, ◌⊎◌,
}
use zone_buffer.Base.Int.{pos, negsuc, eqb_ℤ}
use zone_buffer.HashTable.{
  HashItem, Chain, item, search, find_in, assign, assign_in, add_in, insert_in,
}

-- How many items have a key.
unfoldable pub occurrences : ℕ → List HashItem → ℕ
occurrences k [] = 0
occurrences k (p ∷ ps) = (if eqb_ℤ p.key (pos k) then 1 else 0) + occurrences k ps

-- The item has a key that is not negative, and a value.
abbrev pub IsLive : HashItem → Type 0
IsLive p = (k a : ℕ) × (p ≡ item (pos k) (some a))

abbrev pub AllLive : List HashItem → Type 0
AllLive [] = Unit
AllLive (p ∷ ps) = IsLive p × AllLive ps

-- The chain is free, or all its items are live, with distinct keys.
abbrev pub IsChain : Chain → Type 0
IsChain (p, ps) =
    ((p.key ≡ negsuc 0) × (ps ≡ [])) ⊎ (AllLive (p ∷ ps) × ((k : ℕ) → occurrences k (p ∷ ps) ≤ 1))

search-assign :
    (j k a : ℕ) (ps : List HashItem)
    → AllLive ps
    → search (pos j) (assign (pos k) (some a) ps) ≡ (
        if k == j
        then (if is_some (search (pos j) ps) then some (item (pos k) (some a)) else none)
        else search (pos j) ps)
unfolding search assign
search-assign j k a [] live = ground arith
search-assign j k a (p ∷ ps) (l, live) = ground (arith, l.2, search-assign j k a ps live)

search-add :
    (j k a : ℕ) (ps : List HashItem)
    → search (pos j) (ps ++ item (pos k) (some a) ∷ []) ≡ (
        if is_some (search (pos j) ps)
        then search (pos j) ps
        else if k == j
        then some (item (pos k) (some a))
        else none)
unfolding search
search-add j k a [] = ground arith
search-add j k a (p ∷ ps) = ground (arith, search-add j k a ps)

pub occurrences-assign :
    (j k a : ℕ) (ps : List HashItem) → occurrences j (assign (pos k) (some a) ps) ≡ occurrences j ps
unfolding occurrences assign
occurrences-assign j k a [] = refl
occurrences-assign j k a (p ∷ ps) = ground (arith, occurrences-assign j k a ps)

pub occurrences-add :
    (j k a : ℕ) (ps : List HashItem)
    → occurrences j (ps ++ item (pos k) (some a) ∷ [])
      ≡ occurrences j ps + (if k == j then 1 else 0)
unfolding occurrences
occurrences-add j k a [] = ground arith
occurrences-add j k a (p ∷ ps) = ground (arith, occurrences-add j k a ps)

pub occurrences-absent :
    (k : ℕ) (ps : List HashItem) → search (pos k) ps ≡ none → occurrences k ps ≡ 0
unfolding occurrences search
occurrences-absent k [] e = refl
occurrences-absent k (p ∷ ps) e = ground (arith, occurrences-absent k ps, e)

pub search-absent : (k : ℕ) (ps : List HashItem) → occurrences k ps ≡ 0 → search (pos k) ps ≡ none
unfolding occurrences search
search-absent k [] e = refl
search-absent k (p ∷ ps) e = ground (arith, search-absent k ps, e)

pub AllLive-assign :
    (k a : ℕ) (ps : List HashItem) → AllLive ps → AllLive (assign (pos k) (some a) ps)
unfolding assign
AllLive-assign k a [] live = tt
AllLive-assign k a (p ∷ ps) ((i, b, e), live) = elim (Bool-cases (eqb_ℤ p.key (pos k))) [
  | inl same ↦ rw same ((i, a, ground (arith, e)), live)
  | inr other ↦ rw other ((i, b, e), AllLive-assign k a ps live)
]

pub AllLive-add :
    (k a : ℕ) (ps : List HashItem) → AllLive ps → AllLive (ps ++ item (pos k) (some a) ∷ [])
AllLive-add k a [] live = ((k, a, refl), tt)
AllLive-add k a (p ∷ ps) (l, live) = (l, AllLive-add k a ps live)

-- The key that was inserted has the value, and every other key what it had.
pub find_in-insert_in :
    (j k a : ℕ) (c : Chain)
    → IsChain c
    → find_in (pos j) (insert_in (pos k) (some a) c)
      ≡ (if k == j then some (item (pos k) (some a)) else find_in (pos j) c)
unfolding find_in insert_in assign_in add_in search
find_in-insert_in j k a (p, ps) (inl (e, f)) = ground (arith, e, f)
find_in-insert_in j k a (p, ps) (inr ((l, live), once)) =
    ground
      (arith, l.2, search-assign j k a ps live, search-add j k a ps, search-assign k k a ps live)
