-- ===== src/HashTable/Laws.antt =====
-- The whole table: `H_find` after `H_insert` and after `H_erase`.
use zone_buffer.Base.{
  ℕ, ◌%◌, ◌≡◌, refl, subst, true, false, Option, none, some, ◌==◌, if◌then◌else◌, arith, is_some,
  ok, fault, assert_failed, Returns, Bool-cases, inl, inr,
}
use zone_buffer.Base.Int.{pos}
use zone_buffer.HashTable.{
  HashItem, HashTable, Chain, item, init, hash_function, index_of_key, find_in, h_find, insert_in,
  put, h_insert, h_erase,
}
use zone_buffer.HashTable.Buckets.{IsChain, find_in-insert_in}
use zone_buffer.HashTable.Chains.{insert_in-IsChain, erase_in_lem, erase_in-absent}

abbrev pub IsTable : HashTable → Type 0
IsTable t = (i : ℕ) → IsChain (t.hashtable i)

pub index_of_key-pos : (k : ℕ) → index_of_key (pos k) ≡ ok (k % 1000)
unfolding index_of_key hash_function
index_of_key-pos k = refl

h_find-pos :
    (k : ℕ) (t : HashTable) → h_find (pos k) t ≡ ok (find_in (pos k) (t.hashtable (k % 1000)))
unfolding h_find
h_find-pos k t = rw (index_of_key-pos k) refl

put-IsTable : (i : ℕ) (c : Chain) (t : HashTable) → IsTable t → IsChain c → IsTable (put i c t)
put-IsTable i c t valid l j = elim (Bool-cases (i == j)) [
  | inl same ↦ rw same l
  | inr other ↦ rw other (valid j)
]

find-put :
    (k : ℕ) (r : Option HashItem) (c : Chain) (t : HashTable)
    → ((j : ℕ)
        → find_in (pos j) c ≡ (if k == j then r else find_in (pos j) (t.hashtable (k % 1000))))
    → (j : ℕ) → h_find (pos j) (put (k % 1000) c t) ≡ (if k == j then ok r else h_find (pos j) t)
find-put k r c t found j =
    let here : k % 1000 == j % 1000 ≡ true
        → ok (find_in (pos j) c)
          ≡ (if k == j then ok r else ok (find_in (pos j) (t.hashtable (j % 1000)))) =
      λ same.
        let e : k % 1000 ≡ j % 1000 = ground (arith, same) in
        ground (
          arith,
          subst (λ i. find_in (pos j) c ≡ (if k == j then r else find_in (pos j) (t.hashtable i))) e
              (found j),
        ) in
    let apart : k % 1000 == j % 1000 ≡ false → k == j ≡ false = λ other. ground (arith, other) in
    rw (h_find-pos j (put (k % 1000) c t), h_find-pos j t)
      (elim (Bool-cases (k % 1000 == j % 1000)) [
        | inl same ↦ rw same (here same)
        | inr other ↦ rw other (ground (arith, apart other))
      ])

pub init-IsTable : IsTable init
unfolding init
init-IsTable i = inl (refl, refl)

pub h_insert_lem :
    (k a : ℕ) (t : HashTable)
    → IsTable t
    → Returns (h_insert (pos k) (some a) t) (λ u.
      IsTable u
      × ((j : ℕ)
          → h_find (pos j) u
            ≡ (if k == j then ok (some (item (pos k) (some a))) else h_find (pos j) t)))
unfolding h_insert
h_insert_lem k a t valid =
    let i : ℕ = k % 1000 in
    let c : Chain = insert_in (pos k) (some a) (t.hashtable (k % 1000)) in
    (
      put i c t,
      rw (index_of_key-pos k) refl,
      (
        put-IsTable i c t valid (insert_in-IsChain k a (t.hashtable i) (valid i)),
        find-put k (some (item (pos k) (some a))) c t
            (λ j. find_in-insert_in j k a (t.hashtable i) (valid i)),
      ),
    )

pub h_erase_lem :
    (k : ℕ) (p : HashItem) (t : HashTable)
    → IsTable t
    → h_find (pos k) t ≡ ok (some p)
    → Returns (h_erase (pos k) t) (λ u.
      IsTable u × ((j : ℕ) → h_find (pos j) u ≡ (if k == j then ok none else h_find (pos j) t)))
unfolding h_erase
h_erase_lem k p t valid here =
    let there : is_some (find_in (pos k) (t.hashtable (k % 1000))) ≡ true =
      ground (arith, h_find-pos k t, here) in
    let (d, run, (l, found)) = erase_in_lem k (t.hashtable (k % 1000)) (valid (k % 1000)) there in
    (
      put (k % 1000) d t,
      rw (index_of_key-pos k, run) refl,
      (put-IsTable (k % 1000) d t valid l, find-put k none d t found),
    )

pub h_erase-absent :
    (k : ℕ) (t : HashTable)
    → IsTable t
    → h_find (pos k) t ≡ ok none
    → h_erase (pos k) t ≡ fault assert_failed
unfolding h_erase
h_erase-absent k t valid out =
    let e =
      erase_in-absent k (t.hashtable (k % 1000)) (valid (k % 1000))
        (ground (arith, h_find-pos k t, out)) in
    rw (index_of_key-pos k, e) refl
