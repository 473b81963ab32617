-- ===== src/Zalp/Evict.antt =====
-- `is_evict` and `get_candidate`: when dirty frames are to be flushed, and which.
use mathlib.Core.List.{reverse, reverse-reverse, reverse-cons}
use zone_buffer.Base.{
  ℕ, zero, suc, ◌-◌, ◌≡◌, ◌<◌, ◌≤◌, ◌⊎◌, inl, inr, Bool-cases, refl, ◌∙◌, ap, sym, List, [], ◌∷◌,
  ◌++◌, arith, count, true, false, ◌==◌, ltb, leb, ◌||◌, not, ok, fault, undefined, length,
  append_assoc, length-append, count-append, append-nil,
}
use zone_buffer.Cuckoo.{Cuckoo}
use zone_buffer.Params.{Params}
use zone_buffer.StdList.{values, size}
use zone_buffer.StdList.Index
use zone_buffer.StdList.Nodes.{index_of, length-values_of}
use zone_buffer.Zalp.{Zalp, is_evict, get_candidate, walk_back, candidate_loop}
use zone_buffer.Zalp.View.{View, view}
use zone_buffer.Zalp.Inv.{IsValid, size-lru, size-total}

-- No frame is free, more than `work_reg_size` are in use, and at most `work_reg_size` are clean.
abbrev pub IsShort : Params → View → Type 0
IsShort p v =
    (length v.free ≡ 0) × (p.work_reg_size < length v.lru) × (length v.clean ≤ p.work_reg_size)

length-reverse : (xs : List ℕ) → length (reverse xs) ≡ length xs
length-reverse [] = refl
length-reverse (x ∷ xs) =
    omega
      (arith, ap length (reverse-cons x xs), length-append (reverse xs) (x ∷ []), length-reverse xs)

count_self : (k : ℕ) → count k (k ∷ []) ≡ 1
unfolding count
count_self k = ground arith

last_injective : (xs ys : List ℕ) (x y : ℕ) → xs ++ x ∷ [] ≡ ys ++ y ∷ [] → x ≡ y
last_injective [] [] x y e = cc
last_injective [] (b ∷ []) x y e = cc
last_injective [] (b ∷ c ∷ ys) x y e = cc
last_injective (a ∷ []) [] x y e = cc
last_injective (a ∷ c ∷ xs) [] x y e = cc
last_injective (a ∷ xs) (b ∷ ys) x y e = last_injective xs ys x y (ground arith)

module _ (C : Cuckoo) where
  -- Walking back over `n` nodes, with one more before them, collects them in their order.
  candidate_loop-append :
      (n x : ℕ) (before candidates : List ℕ)
      → n ≤ length before
      → (front tail : List ℕ) × (candidate_loop C n x before candidates ≡ ok (tail ++ candidates))
        × (reverse (x ∷ before) ≡ front ++ tail)
        × (length tail ≡ n)
  unfolding candidate_loop
  candidate_loop-append zero x before candidates h =
      (reverse (x ∷ before), [], refl, sym (append-nil (reverse (x ∷ before))), refl)
  candidate_loop-append (suc n) x [] candidates h = absurd (omega arith)
  candidate_loop-append (suc n) x (y ∷ before) candidates h =
      let (front, tail, run, split, len) =
        candidate_loop-append n y before (x ∷ candidates) (omega arith) in
      (
        front,
        tail ++ x ∷ [],
        run ∙ ap ok (sym (append_assoc tail (x ∷ []) candidates)),
        reverse-cons x (y ∷ before)
            ∙ ap (λ (l : List ℕ). l ++ x ∷ []) split
            ∙ append_assoc front tail (x ∷ []),
        omega (arith, length-append tail (x ∷ [])),
      )

  -- With no node before those that are walked over, the last step back leaves the list.
  candidate_loop-undefined :
      (n x : ℕ) (before candidates : List ℕ)
      → n ≡ suc (length before)
      → candidate_loop C n x before candidates ≡ fault undefined
  unfolding candidate_loop
  candidate_loop-undefined zero x before candidates h = absurd (omega arith)
  candidate_loop-undefined (suc n) x [] candidates h = refl
  candidate_loop-undefined (suc n) x (y ∷ before) candidates h =
      candidate_loop-undefined n y before (x ∷ candidates) (omega arith)

  walk_back_cases :
      (n : ℕ) (nodes : List ℕ)
      → n ≤ length nodes
      → (length nodes ≡ n) × (walk_back C n nodes ≡ fault undefined)
        ⊎ (n < length nodes)
          × ((front tail : List ℕ) × (walk_back C n nodes ≡ ok tail)
              × (reverse nodes ≡ front ++ tail)
              × (length tail ≡ n))
  unfolding walk_back
  walk_back_cases n [] h = inl (omega arith, refl)
  walk_back_cases n (x ∷ before) h = elim (Bool-cases (n == suc (length before))) [
    | inl all ↦
        let e : n ≡ suc (length before) = ground (arith, all) in
        inl (sym e, candidate_loop-undefined n x before [] e)
    | inr fewer ↦
        let (front, tail, run, split, len) =
          candidate_loop-append n x before [] (ground (arith, h, fewer)) in
        inr (ground (arith, h, fewer), (front, tail, run ∙ ap ok (append-nil tail), split, len))
  ]

  -- `get_candidate` with at least `def_buf_size - work_reg_size` dirty frames.
  abbrev pub WalksBack : Params → Zalp C → Type 0
  WalksBack p z =
      let n = p.def_buf_size - p.work_reg_size in
      (size z.d_list ≡ n) × (get_candidate C p z ≡ fault undefined)
      ⊎ (n < size z.d_list)
        × ((front tail : List ℕ) × (get_candidate C p z ≡ ok tail)
            × (values z.d_list ≡ front ++ tail)
            × (length tail ≡ n))

  get_candidate-WalksBack :
      (p : Params) (z : Zalp C) → p.def_buf_size - p.work_reg_size ≤ size z.d_list → WalksBack p z
  unfolding get_candidate
  get_candidate-WalksBack p z h =
      let d = values z.d_list in
      let len : length (reverse d) ≡ size z.d_list =
        length-reverse d ∙ length-values_of z.d_list.nodes in
      elim (walk_back_cases (p.def_buf_size - p.work_reg_size) (reverse d)
        (omega (arith, len, h))) [
          | inl (all, run) ↦ inl (omega (arith, len, all), run)
          | inr (more, (front, tail, run, split, long)) ↦
              inr (
                omega (arith, len, more),
                (front, tail, run, sym (reverse-reverse d) ∙ split, long),
              )
        ]

  module _ (p : Params) (z : Zalp C) where
    short-test :
        IsShort p (view C z)
        → (not (size z.f_list == 0)
            || (leb (size z.l_list) p.work_reg_size || ltb p.work_reg_size (size z.c_list)))
          ≡ false
    short-test h = ground (
      arith,
      length-values_of z.f_list.nodes,
      length-values_of z.l_list.nodes,
      length-values_of z.c_list.nodes,
    )

    -- Outside a shortage of clean frames nothing is flushed.
    pub is_evict-false : ¬ IsShort p (view C z) → is_evict C p z ≡ ok false
    unfolding is_evict
    is_evict-false h = ground (
      arith,
      h,
      length-values_of z.f_list.nodes,
      length-values_of z.l_list.nodes,
      length-values_of z.c_list.nodes,
    )

    -- If the invariant holds, no frame is free, more than `work_reg_size` are in use and at
    -- most so many are clean, then `is_evict` says whether the last clean frame is among the
    -- `work_reg_size` latest used ones.
    pub is_evict-index_of :
        (n : ℕ)
        → IsValid C n [] z
        → IsShort p (view C z)
        → (clean : List ℕ) (id : ℕ) → values z.c_list ≡ clean ++ id ∷ []
        → is_evict C p z ≡ ok (ltb (index_of id (values z.l_list)) p.work_reg_size)
    unfolding is_evict
    is_evict-index_of n v short clean id e =
        let len = length-append clean (id ∷ []) in
        let here : 0 < count id (values z.c_list) =
          omega (arith, ap (count id) e, count-append id clean (id ∷ []), count_self id) in
        let (k, l, b, _, _, w) =
          Index.pop_back-IsIndexed C v.clean_indexed
            (omega (arith, ap length e, len, length-values_of z.c_list.nodes)) in
        let same : k ≡ id = last_injective (values l) clean k id (sym w ∙ e) in
        let (c, f) = Index.find-present C v.clean_indexed id here in
        let (it, g) = Index.find-present C v.lru_indexed id (omega (arith, v.used id)) in
        rw (short-test short, b, same, f, g, Index.distance-index_of C v.lru_indexed id it g)

    -- If the invariant holds and `is_evict` says yes, there are at least `def_buf_size -
    -- work_reg_size` dirty frames. If there are more, `get_candidate` returns the last so many
    -- of them, in their order; if there are just so many, it ends with a step back from the
    -- front of the list, which is undefined.
    pub is_evict-WalksBack :
        IsValid C p.def_buf_size [] z → is_evict C p z ≡ ok true → WalksBack p z
    unfolding is_evict
    is_evict-WalksBack v h =
        get_candidate-WalksBack p z (ground (arith, size-lru C v, size-total C v))
