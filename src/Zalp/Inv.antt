-- ===== src/Zalp/Inv.antt =====
-- The invariant of the replacement policy. Of the `n` frames each is free, clean, dirty or `held`
-- by the caller, and never two of these; the frames in use are those of the LRU list; each map
-- holds the iterators of its list.
use zone_buffer.Base.{
  ℕ, ◌+◌, ◌≡◌, refl, ◌∙◌, ap, sym, List, [], ◌∷◌, ◌++◌, if◌then◌else◌, ltb, arith, count,
  count-append, length-append, append-nil, append_assoc, count-range_from, length-range_from,
  length_of_counts, range_from,
}
use zone_buffer.Cuckoo.{Cuckoo}
use zone_buffer.Params.{Params}
use zone_buffer.StdList
use zone_buffer.StdList.{Node, StdList, values, values_of, size}
use zone_buffer.StdList.Index.{IsIndexed, empty-IsIndexed}
use zone_buffer.StdList.Nodes.{map-append_last, length-values_of}
use zone_buffer.Zalp.{Zalp, init, push_all}

module _ (C : Cuckoo) where
  pub record IsValid (n : ℕ) (held : List ℕ) (z : Zalp C) : Type 0 where
    pub lru_indexed : IsIndexed C z.l_map z.l_list
    pub clean_indexed : IsIndexed C z.c_map z.c_list
    pub dirty_indexed : IsIndexed C z.d_map z.d_list
    pub used :
        (k : ℕ) → count k (values z.l_list) ≡ count k (values z.c_list) + count k (values z.d_list)
    pub apart :
        (k : ℕ)
        → count k (values z.f_list) + count k (values z.l_list) + count k held
          ≡ (if ltb k n then 1 else 0)

  values-push_all : (xs : List ℕ) (l : StdList) → values (push_all C xs l) ≡ values l ++ xs
  unfolding push_all StdList.push_back
  values-push_all [] l = sym (append-nil _)
  values-push_all (x ∷ xs) l =
      values-push_all xs _
      ∙ ap (λ (v : List ℕ). v ++ xs) (map-append_last (λ n. n.value) l.nodes _)
      ∙ append_assoc (values l) (x ∷ []) xs

  -- For every choice of the constants, the constructor establishes the invariant, with no frame
  -- held.
  pub init-IsValid : (p : Params) → IsValid p.def_buf_size [] (init C p)
  unfolding init count
  init-IsValid p = record {
    lru_indexed = empty-IsIndexed C;
    clean_indexed = empty-IsIndexed C;
    dirty_indexed = empty-IsIndexed C;
    used = λ k. refl;
    apart = λ k. rw values-push_all (ground (arith, count-range_from k 0 p.def_buf_size));
  }

  module _ {n : ℕ} {z : Zalp C} (v : IsValid n [] z) where
    -- The LRU list is as long as the clean and the dirty one together.
    pub size-lru : size z.l_list ≡ size z.c_list + size z.d_list
    size-lru = omega (
      arith,
      length_of_counts (values z.l_list) (values z.c_list ++ values z.d_list)
          (λ k. v.used k ∙ sym (count-append k (values z.c_list) (values z.d_list))),
      length-append (values z.c_list) (values z.d_list),
      length-values_of z.l_list.nodes,
      length-values_of z.c_list.nodes,
      length-values_of z.d_list.nodes,
    )

    -- Every frame is free or in use.
    pub size-total : size z.f_list + size z.l_list ≡ n
    unfolding count
    size-total = omega (
      arith,
      length_of_counts (values z.f_list ++ values z.l_list) (range_from 0 n) (λ k. ground (
        arith,
        v.apart k,
        count-append k (values z.f_list) (values z.l_list),
        count-range_from k 0 n,
      )),
      length-append (values z.f_list) (values z.l_list),
      length-range_from 0 n,
      length-values_of z.l_list.nodes,
      length-values_of z.f_list.nodes,
    )
