-- ===== src/Tests/Policy.antt =====
-- The policy on buffers of four frames.
use zone_buffer.Base.{◌≡◌, refl, [], ◌∷◌, arith, count, true, false, ok, Returns, ltb}
use zone_buffer.StdList
use zone_buffer.StdList.{size, values}
use zone_buffer.StdList.Nodes.{index_of}
use zone_buffer.StdList.Index.{empty-IsIndexed, push_front-IsIndexed}
use zone_buffer.Zalp.{
  Zalp, init, push, get_frame, update, set_dirty, dirty_to_clean, update_dirty, is_evict,
}
use zone_buffer.Zalp.View.{view, pushed, without, dirtied, cleaned, freed}
use zone_buffer.Zalp.Inv.{IsValid}
use zone_buffer.Zalp.Moves.{update-pushed, set_dirty-dirtied}
use zone_buffer.Zalp.Frames.{Takes, get_frame-Takes}
use zone_buffer.Zalp.Evict.{is_evict-false, is_evict-index_of, is_evict-WalksBack, WalksBack}
use zone_buffer.Zalp.Clean.{dirty_to_clean-cleaned, update_dirty-freed}
use zone_buffer.Tests.{maps, params}

abbrev bare : Zalp maps
bare = record {
  l_list = StdList.empty;
  f_list = StdList.empty;
  c_list = StdList.empty;
  d_list = StdList.empty;
  l_map = maps.empty;
  c_map = maps.empty;
  d_map = maps.empty;
}

-- Frame 3 is clean, and the others are dirty.
abbrev pub crowded : Zalp maps
crowded = push maps 0 true (push maps 3 false (push maps 1 true (push maps 2 true bare)))

pub crowded-IsValid : IsValid maps 4 [] crowded
unfolding push StdList.push_front count
crowded-IsValid = record {
  lru_indexed =
      let a = push_front-IsIndexed maps (empty-IsIndexed maps) 2 refl in
      let b = push_front-IsIndexed maps a 1 refl in
      let c = push_front-IsIndexed maps b 3 refl in push_front-IsIndexed maps c 0 refl;
  clean_indexed = push_front-IsIndexed maps (empty-IsIndexed maps) 3 refl;
  dirty_indexed =
      let b = push_front-IsIndexed maps (empty-IsIndexed maps) 2 refl in
      let c = push_front-IsIndexed maps b 1 refl in push_front-IsIndexed maps c 0 refl;
  used = λ k. ground arith;
  apart = λ k. ground arith;
}

-- The clean frame was used lately, so that frames are flushed.
pub crowded-is_evict : is_evict maps params crowded ≡ ok true
unfolding push StdList.push_front index_of
crowded-is_evict =
    is_evict-index_of maps params crowded 4 crowded-IsValid (refl, omega arith, omega arith) [] 3
      refl

get_frame-Takes_example :
    Returns (get_frame maps crowded) (λ (y, id, free).
      IsValid maps 4 (id ∷ []) y × Takes id free (view maps crowded) (view maps y))
unfolding push StdList.push_front
get_frame-Takes_example = get_frame-Takes maps 4 crowded-IsValid (ground arith)

update-pushed_example :
    Returns
      (update maps 2 true crowded)
      (λ y. IsValid maps 4 [] y × (view maps y ≡ pushed 2 true (without 2 (view maps crowded))))
unfolding push StdList.push_front count
update-pushed_example = update-pushed maps 4 2 true crowded crowded-IsValid (ground arith)

set_dirty-dirtied_example :
    Returns
      (set_dirty maps 3 crowded)
      (λ y. IsValid maps 4 [] y × (view maps y ≡ dirtied 3 (view maps crowded)))
unfolding push StdList.push_front count
set_dirty-dirtied_example = set_dirty-dirtied maps 4 3 crowded crowded-IsValid (ground arith)

dirty_to_clean-cleaned_example :
    Returns
      (dirty_to_clean maps (1 ∷ 2 ∷ []) crowded)
      (λ y. IsValid maps 4 [] y × (view maps y ≡ cleaned (1 ∷ 2 ∷ []) (view maps crowded)))
unfolding push StdList.push_front count
dirty_to_clean-cleaned_example =
    dirty_to_clean-cleaned maps 4 (1 ∷ 2 ∷ []) crowded crowded-IsValid (λ k. ground arith)

update_dirty-freed_example :
    Returns
      (update_dirty maps (1 ∷ 2 ∷ []) crowded)
      (λ y. IsValid maps 4 [] y × (view maps y ≡ freed (1 ∷ 2 ∷ []) (view maps crowded)))
unfolding push StdList.push_front count
update_dirty-freed_example =
    update_dirty-freed maps 4 (1 ∷ 2 ∷ []) crowded crowded-IsValid (λ k. ground arith)

is_evict-false_example : is_evict maps params (init maps params) ≡ ok false
unfolding init push StdList.push_front
is_evict-false_example = is_evict-false maps params (init maps params) (λ h. omega (arith, h.1))

is_evict-index_of_example :
    is_evict maps params crowded ≡ ok (ltb (index_of 3 (values crowded.l_list)) 2)
unfolding push StdList.push_front
is_evict-index_of_example =
    is_evict-index_of maps params crowded 4 crowded-IsValid (refl, omega arith, omega arith) [] 3
      refl

is_evict-WalksBack_example : WalksBack maps params crowded
is_evict-WalksBack_example = is_evict-WalksBack maps params crowded crowded-IsValid crowded-is_evict
