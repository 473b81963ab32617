-- ===== src/HashTable/Chains.antt =====
-- What an insertion and an erasure keep of a chain.
use zone_buffer.Base.{
  ℕ, ◌≡◌, ◌≤◌, refl, sym, subst, true, false, List, [], ◌∷◌, none, some, ◌==◌, if◌then◌else◌, arith,
  is_some, fault, assert_failed, Returns, Bool-cases, inl, inr,
}
use zone_buffer.Base.Int.{pos, negsuc, eqb_ℤ}
use zone_buffer.HashTable.{
  HashItem, Chain, item, search, find_in, assign_in, add_in, insert_in, unlink, erase_in,
}
use zone_buffer.HashTable.Buckets.{
  occurrences, AllLive, IsChain, occurrences-assign, occurrences-add, occurrences-absent,
  AllLive-assign, AllLive-add, search-absent,
}

assign_in-IsChain :
    (k a : ℕ) (p : HashItem) (ps : List HashItem)
    → AllLive (p ∷ ps)
    → ((j : ℕ) → occurrences j (p ∷ ps) ≤ 1)
    → IsChain (assign_in (pos k) (some a) (p, ps))
unfolding assign_in occurrences
assign_in-IsChain k a p ps ((i, b, e), live) once = elim (Bool-cases (eqb_ℤ p.key (pos k))) [
  | inl same ↦ rw same (inr (((i, a, ground (arith, e)), live), once))
  | inr other ↦ rw other (
      inr (
        ((i, b, e), AllLive-assign k a ps live),
        λ j. ground (arith, once j, occurrences-assign j k a ps),
      ))
]

add_in-IsChain :
    (k a : ℕ) (p : HashItem) (ps : List HashItem)
    → AllLive (p ∷ ps)
    → ((j : ℕ) → occurrences j (p ∷ ps) ≤ 1)
    → search (pos k) (p ∷ ps) ≡ none
    → IsChain (add_in (pos k) (some a) (p, ps))
unfolding add_in occurrences
add_in-IsChain k a p ps ((i, b, e), live) once out =
    let busy : eqb_ℤ p.key (negsuc 0) ≡ false = ground (arith, e) in
    let absent : occurrences k (p ∷ ps) ≡ 0 = occurrences-absent k (p ∷ ps) out in
    rw busy (
      inr (
        ((i, b, e), AllLive-add k a ps live),
        λ j. ground (arith, once j, absent, occurrences-add j k a ps),
      ))

insert_in-free :
    (k a : ℕ) (p : HashItem)
    → p.key ≡ negsuc 0
    → insert_in (pos k) (some a) (p, []) ≡ (item (pos k) (some a), [])
unfolding insert_in find_in add_in search
insert_in-free k a p e = ground (arith, e)

alone-IsChain : (k a : ℕ) → IsChain (item (pos k) (some a), [])
unfolding occurrences
alone-IsChain k a = inr (((k, a, refl), tt), λ j. ground arith)

pub insert_in-IsChain : (k a : ℕ) (c : Chain) → IsChain c → IsChain (insert_in (pos k) (some a) c)
unfolding insert_in find_in add_in occurrences search
insert_in-IsChain k a (p, ps) (inl (e, f)) =
    let now : insert_in (pos k) (some a) (p, ps) ≡ (item (pos k) (some a), []) =
      rw f (insert_in-free k a p e) in
    subst IsChain (sym now) (alone-IsChain k a)
insert_in-IsChain k a (p, ps) (inr ((l, live), once)) =
    elim (Bool-cases (is_some (find_in (pos k) (p, ps)))) [
      | inl there ↦ rw there (assign_in-IsChain k a p ps (l, live) once)
      | inr gone ↦ rw gone (add_in-IsChain k a p ps (l, live) once (ground (arith, gone, l.2)))
    ]

-- Of items with distinct keys, `unlink` takes out the one with the key.
unlink_lem :
    (k : ℕ) (ps : List HashItem)
    → AllLive ps
    → ((j : ℕ) → occurrences j ps ≤ 1)
    → is_some (search (pos k) ps) ≡ true
    → Returns (unlink (pos k) ps) (λ qs.
      AllLive qs
      × ((j : ℕ) → occurrences j qs ≡ (if k == j then 0 else occurrences j ps))
      × ((j : ℕ) → search (pos j) qs ≡ (if k == j then none else search (pos j) ps)))
unfolding unlink occurrences search
unlink_lem k [] live once here = cc
unlink_lem k (p ∷ ps) (l, live) once here = elim (Bool-cases (eqb_ℤ p.key (pos k))) [
  | inl same ↦
      let gone : occurrences k ps ≡ 0 = ground (arith, once k, same) in
      let none_left = search-absent k ps gone in
      (
        ps,
        rw same refl,
        (live, λ j. ground (arith, gone, same, l.2), λ j. ground (arith, none_left, same, l.2)),
      )
  | inr other ↦
      let (qs, run, (alive, counts, found)) =
        unlink_lem k ps live (λ j. ground (arith, once j)) (rw other at here) in
      (
        p ∷ qs,
        rw (other, run) refl,
        (
          (l, alive),
          λ j. ground (arith, counts j, other, l.2),
          λ j. ground (arith, found j, other, l.2),
        ),
      )
]

unlink-absent :
    (k : ℕ) (ps : List HashItem)
    → search (pos k) ps ≡ none
    → unlink (pos k) ps ≡ fault assert_failed
unfolding unlink search
unlink-absent k [] out = refl
unlink-absent k (p ∷ ps) out = ground (arith, out, unlink-absent k ps)

-- What is left of a chain from which a key was erased.
abbrev pub IsWithout : ℕ → Chain → Chain → Type 0
IsWithout k c d =
    IsChain d × ((j : ℕ) → find_in (pos j) d ≡ (if k == j then none else find_in (pos j) c))

pub erase_in_lem :
    (k : ℕ) (c : Chain)
    → IsChain c
    → is_some (find_in (pos k) c) ≡ true
    → Returns (erase_in (pos k) c) (IsWithout k c)
unfolding erase_in find_in search occurrences
erase_in_lem k (p, []) (inl (e, f)) here = absurd (ground (arith, e, here))
erase_in_lem k (p, q ∷ ps) (inl (e, f)) here = absurd (ground (arith, f))
erase_in_lem k (p, []) (inr (((i, a, e), live), once)) here = (
  (record p { key = negsuc 0 }, []),
  ground (arith, e, here),
  (inl (refl, refl), λ j. ground (arith, e, here)),
)
erase_in_lem k (p, q ∷ ps) (inr ((l, (m, live)), once)) here =
    let busy : eqb_ℤ p.key (negsuc 0) ≡ false = ground (arith, l.2) in
    elim (Bool-cases (eqb_ℤ p.key (pos k))) [
      | inl same ↦
          let gone : occurrences k (q ∷ ps) ≡ 0 = ground (arith, once k, same) in
          let none_left = search-absent k (q ∷ ps) gone in
          (
            (q, ps),
            rw (busy, same) refl,
            (
              inr ((m, live), λ j. ground (arith, once j)),
              λ j. ground (arith, none_left, same, l.2, m.2),
            ),
          )
      | inr other ↦
          let (qs, run, (alive, counts, found)) =
            unlink_lem k (q ∷ ps) (m, live) (λ j. ground (arith, once j))
              (ground (arith, here, other, l.2)) in
          (
            (p, qs),
            rw (busy, other, run) refl,
            (
              inr ((l, alive), λ j. ground (arith, once j, counts j)),
              λ j. ground (arith, found j, other, l.2),
            ),
          )
    ]

pub erase_in-absent :
    (k : ℕ) (c : Chain)
    → IsChain c
    → find_in (pos k) c ≡ none
    → erase_in (pos k) c ≡ fault assert_failed
unfolding erase_in find_in search
erase_in-absent k (p, []) (inl (e, f)) out = ground (arith, e)
erase_in-absent k (p, q ∷ ps) (inl (e, f)) out = ground (arith, e)
erase_in-absent k (p, []) (inr ((l, live), once)) out = ground (arith, out, l.2)
erase_in-absent k (p, q ∷ ps) (inr ((l, live), once)) out =
    ground (arith, out, l.2, unlink-absent k (q ∷ ps))
