-- ===== src/Zalp/View.antt =====
-- What the replacement policy promises, without iterators and maps: four lists of frames.
use zone_buffer.Base.{ℕ, Bool, List, ◌∷◌, ◌++◌, if◌then◌else◌, ◌==◌, count, remove}
use zone_buffer.Cuckoo.{Cuckoo}
use zone_buffer.StdList.{values}
use zone_buffer.Zalp.{Zalp}

pub record View : Type 0 where
  pub lru : List ℕ
  pub free : List ℕ
  pub clean : List ℕ
  pub dirty : List ℕ

abbrev pub view : (C : Cuckoo) → Zalp C → View
view C z = record {
  lru = values z.l_list;
  free = values z.f_list;
  clean = values z.c_list;
  dirty = values z.d_list;
}

-- A frame comes in as the latest used one.
abbrev pub pushed : ℕ → Bool → View → View
pushed id is_dirty v = record v {
  lru = id ∷ v.lru;
  clean = if is_dirty then v.clean else id ∷ v.clean;
  dirty = if is_dirty then id ∷ v.dirty else v.dirty;
}

abbrev pub without : ℕ → View → View
without id v = record v {
  lru = remove id v.lru;
  clean = remove id v.clean;
  dirty = remove id v.dirty;
}

-- A clean frame becomes the latest dirty one, and keeps its place in the LRU order. A dirty one
-- keeps its place in both.
abbrev pub dirtied : ℕ → View → View
dirtied id v =
    if count id v.dirty == 0
    then record v { clean = remove id v.clean; dirty = id ∷ v.dirty }
    else v

-- The frames of `victims`, in their order, go from the dirty ones behind the clean ones.
abbrev pub cleaned : List ℕ → View → View
cleaned List.[] v = v
cleaned (id ∷ victims) v =
    cleaned victims (record v { clean = v.clean ++ id ∷ List.[]; dirty = remove id v.dirty })

-- The frames of `victims`, in their order, go out of use, behind the free ones.
abbrev pub freed : List ℕ → View → View
freed List.[] v = v
freed (id ∷ victims) v =
    freed victims
      (record v { lru = remove id v.lru; free = v.free ++ id ∷ List.[]; dirty = remove id v.dirty })
