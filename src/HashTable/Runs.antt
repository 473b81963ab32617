-- ===== src/HashTable/Runs.antt =====
-- Sequences of calls of `H_insert` and `H_erase`, and what lies outside their contract: a key whose
-- remainder is negative, and a value that is null.
use zone_buffer.Base.{
  ℕ, ◌%◌, ◌≡◌, refl, ◌∙◌, ap, List, [], ◌∷◌, Option, none, some, ◌==◌, if◌then◌else◌, arith,
  is_some, Result, ok, fault, assert_failed, ◌>>=◌, Returns, Bool-cases, inl, inr,
}
use zone_buffer.Base.Int.{pos}
use zone_buffer.HashTable.{
  HashItem, HashTable, item, init, hash_function, index_of_key, find_in, h_find, search, insert_in,
  add_in, h_insert, h_erase,
}
use zone_buffer.HashTable.Laws.{IsTable, init-IsTable, h_insert_lem, h_erase_lem, h_erase-absent}

pub data TableCall : Type 0 where
  insert_call : ℕ → ℕ → TableCall
  erase_call : ℕ → TableCall

unfoldable pub run_table : List TableCall → HashTable → Result HashTable
run_table [] t = ok t
run_table (insert_call k a ∷ calls) t = do u ← h_insert (pos k) (some a) t; run_table calls u
run_table (erase_call k ∷ calls) t = do u ← h_erase (pos k) t; run_table calls u

abbrev pub Map : Type 0
Map = ℕ → Option ℕ

-- The same calls on a partial map, where an erasure wants a key that is there.
unfoldable pub run_map : List TableCall → Map → Result Map
run_map [] f = ok f
run_map (insert_call k a ∷ calls) f = run_map calls (λ j. if k == j then some a else f j)
run_map (erase_call k ∷ calls) f =
    let rest = run_map calls (λ j. if k == j then none else f j) in
    if is_some (f k) then rest else fault assert_failed

abbrev pub found : ℕ → Option ℕ → Option HashItem
found k none = none
found k (some a) = some (item (pos k) (some a))

-- What `H_find` gives on the table is what the map has.
abbrev pub Shows : HashTable → Map → Type 0
Shows t f = IsTable t × ((j : ℕ) → h_find (pos j) t ≡ ok (found j (f j)))

abbrev pub Refines : Result HashTable → Result Map → Type 0
Refines (ok t) (ok f) = Shows t f
Refines (fault e) (fault stop) = e ≡ stop
Refines (ok t) (fault stop) = ⊥
Refines (fault e) (ok f) = ⊥

found_insert :
    (k a j : ℕ) (r : Result (Option HashItem)) (o : Option ℕ)
    → r ≡ ok (found j o)
    → (if k == j then ok (some (item (pos k) (some a))) else r)
      ≡ ok (found j (if k == j then some a else o))
found_insert k a j r o e = elim (Bool-cases (k == j)) [
  | inl same ↦
      let i : k ≡ j = ground (arith, same) in
      rw same (ap (λ n. ok (some (item (pos n) (some a)))) i)
  | inr other ↦ rw other e
]

found_erase :
    (k j : ℕ) (r : Result (Option HashItem)) (o : Option ℕ)
    → r ≡ ok (found j o)
    → (if k == j then ok none else r) ≡ ok (found j (if k == j then none else o))
found_erase k j r o e = elim (Bool-cases (k == j)) [
  | inl same ↦ rw same refl
  | inr other ↦ rw other e
]

insert-Shows :
    (k a : ℕ) (t : HashTable) (f : Map)
    → Shows t f
    → Returns (h_insert (pos k) (some a) t) (λ u. Shows u (λ j. if k == j then some a else f j))
insert-Shows k a t f (valid, shown) =
    let (u, run, (kept, now)) = h_insert_lem k a t valid in
    (u, run, (kept, λ j. now j ∙ found_insert k a j (h_find (pos j) t) (f j) (shown j)))

erase-Shows :
    (k a : ℕ) (t : HashTable) (f : Map)
    → Shows t f
    → f k ≡ some a
    → Returns (h_erase (pos k) t) (λ u. Shows u (λ j. if k == j then none else f j))
erase-Shows k a t f (valid, shown) here =
    let (u, run, (kept, now)) =
      h_erase_lem k (item (pos k) (some a)) t valid (shown k ∙ ap (λ v. ok (found k v)) here) in
    (u, run, (kept, λ j. now j ∙ found_erase k j (h_find (pos j) t) (f j) (shown j)))

erase_step :
    (k : ℕ) (calls : List TableCall) (t : HashTable) (f : Map) (o : Option ℕ)
    → f k ≡ o
    → Shows t f
    → ((u : HashTable) (g : Map) → Shows u g → Refines (run_table calls u) (run_map calls g))
    → Refines (run_table (erase_call k ∷ calls) t) (run_map (erase_call k ∷ calls) f)
unfolding run_table run_map
erase_step k calls t f none here (valid, shown) rest =
    let lost = h_erase-absent k t valid (shown k ∙ ap (λ v. ok (found k v)) here) in
    rw (here, lost) refl
erase_step k calls t f (some a) here shows rest =
    let (u, run, now) = erase-Shows k a t f shows here in
    rw (here, run) (rest u (λ j. if k == j then none else f j) now)

run_table-Refines :
    (calls : List TableCall) (t : HashTable) (f : Map)
    → Shows t f
    → Refines (run_table calls t) (run_map calls f)
unfolding run_table run_map
run_table-Refines [] t f shows = shows
run_table-Refines (insert_call k a ∷ calls) t f shows =
    let (u, run, now) = insert-Shows k a t f shows in
    rw run (run_table-Refines calls u (λ j. if k == j then some a else f j) now)
run_table-Refines (erase_call k ∷ calls) t f shows =
    erase_step k calls t f (f k) refl shows (λ u g. run_table-Refines calls u g)

-- From the constructor of `HashTable`, every sequence of calls of `H_insert` and `H_erase`, with
-- keys that are not negative and values that are not null, does what it does on a partial map:
-- both return, every chain is valid and `H_find` of each key that is not negative gives what the
-- map has, or both end with a failed assertion at the erasure of a key that is not there.
pub run_table-run_map :
    (calls : List TableCall) → Refines (run_table calls init) (run_map calls (λ k. none))
unfolding h_find index_of_key hash_function find_in init
run_table-run_map calls = run_table-Refines calls init (λ k. none) (init-IsTable, λ j. refl)

-- If the first key of a chain of a new table is inserted with a null value, then `H_find` does not
-- find a key that is inserted in the same chain after it.
pub null_value-hides :
    (j k b : ℕ)
    → j % 1000 ≡ k % 1000
    → (do t ← h_insert (pos k) none init; u ← h_insert (pos j) (some b) t; h_find (pos j) u)
      ≡ ok none
unfolding h_find h_insert index_of_key hash_function insert_in find_in search add_in init
null_value-hides j k b e = ground (arith, e)
