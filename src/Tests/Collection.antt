-- ===== src/Tests/Collection.antt =====
-- The collection of a full zone, of which one page is in use.
use zone_buffer.Base.{
  true, [], ◌∷◌, count, ℕ, zero, suc, ◌≡◌, ◌==◌, refl, ◌∙◌, ap, sym, inl, inr, ◌⊎◌, none, some,
  arith, if◌then◌else◌, Bool-cases, fault, assert_failed, Returns,
}
use zone_buffer.Zns.{Zns, ZoneDesc, Frame, full, fresh_zone, read_id, little_endian, bytes_on}
use zone_buffer.Zns.Gc.{garbage_collection, cold_data_restruct}
use zone_buffer.Zns.Valid.{IsCounted, bits_in}
use zone_buffer.Zns.Consistent.{IsConsistent}
use zone_buffer.Zns.Stored.{stored}
use zone_buffer.Zns.Move.{IsSound}
use zone_buffer.Zns.Recycle.{Recycled, IsShort, Refuses}
use zone_buffer.Zns.Restruct.{AreFull, KeepsOr, begin_restruct, cold_data_restruct-KeepsOr}
use zone_buffer.Zns.Collect.{collected_pages, garbage_collection-Recycled}
use zone_buffer.Tests.{machine}
use zone_buffer.Tests.Controller.{one_page, filled, reliable, readable, one_page-IsConsistent}

abbrev full_zone_0 : ZoneDesc machine
full_zone_0 = record (one_page.zone 0) { cond = full; in_gc = true }

-- Zone 0 is full and marked for a collection. Page id 7 has the first page of zone 0, whose first byte is 7.
abbrev pub old_page : Zns machine
old_page = record one_page {
  zone = λ i. if i == 0 then full_zone_0 else fresh_zone machine 8 i;
  device = λ a. if a == 0 then 7 else 0;
}

counted : IsCounted machine 4 old_page
unfolding bits_in
counted zero h = refl
counted (suc i) h = ground arith

old_page-IsConsistent : IsConsistent machine 4 filled old_page
old_page-IsConsistent = record {
  geometry = record {
    page_pos = omega arith;
    pages_pos = omega arith;
    zone_pages = refl;
    bitmap = omega arith;
  };
  counted = counted;
  origin = λ i h. ground arith;
  pointer = λ i h. ground arith;
  within = λ i h. ground arith;
  cap-le = omega arith;
  unused = λ i h e. ground arith;
  mapping = one_page-IsConsistent.mapping;
}

some_frame : {x y : Frame} → some x ≡ some y → x ≡ y
some_frame e = cc

none_frame : {x : Frame} → none ≡ some x → ⊥
none_frame e = cc

labels : (id : ℕ) (frame : Frame) → stored machine old_page id ≡ some frame → read_id frame ≡ id
unfolding read_id bytes_on little_endian
labels id frame e = elim (Bool-cases (id == 7)) [
  | inl same ↦
      let at : 7 ≡ id = ground (arith, same) in ap read_id (sym (some_frame (rw same at e))) ∙ at
  | inr other ↦ absurd (none_frame (rw other at e))
]

pub old_page-IsSound : IsSound machine 4 old_page
old_page-IsSound = record {
  fill = filled;
  consistent = old_page-IsConsistent;
  covzs = refl;
  clusters = omega arith;
  big = omega arith;
  labels = labels;
}

garbage_collection-Recycled_example :
    Returns (garbage_collection machine 1 0 old_page) (Recycled machine 4 0 old_page)
    ⊎ (garbage_collection machine 1 0 old_page ≡ fault assert_failed)
      × (IsShort machine 4 0 old_page
          ⊎ Refuses machine 4 0 (collected_pages machine 4 0 0 old_page))
garbage_collection-Recycled_example =
    garbage_collection-Recycled machine 4 reliable readable 0 0 old_page (omega arith)
      old_page-IsSound refl

-- Three zones are spare and the device resets, so that the collection returns.
not_short : IsShort machine 4 0 old_page → ⊥
unfolding bits_in
not_short short = omega (arith, short)

not_refused : Refuses machine 4 0 (collected_pages machine 4 0 0 old_page) → ⊥
not_refused (t, run, e) = cc

old_page-collected :
    Returns (garbage_collection machine 1 0 old_page) (Recycled machine 4 0 old_page)
old_page-collected =
    elim (garbage_collection-Recycled machine 4 reliable readable 0 0 old_page (omega arith)
      old_page-IsSound refl) [
        | inl done ↦ done
        | inr (e, inl short) ↦ absurd (not_short short)
        | inr (e, inr refuses) ↦ absurd (not_refused refuses)
      ]

zone_0-AreFull : AreFull machine 4 (0 ∷ []) old_page
unfolding count
zone_0-AreFull = record {
  once = λ j. ground arith;
  shut = λ j h. (ground (arith, h), ground (arith, h));
}

cold_data_restruct-KeepsOr_example :
    KeepsOr machine 4 0
      (0 ∷ [])
      old_page
      (begin_restruct machine 4 old_page)
      (cold_data_restruct machine 1 (0 ∷ []) old_page)
cold_data_restruct-KeepsOr_example =
    cold_data_restruct-KeepsOr machine 4 reliable readable 0 (0 ∷ []) old_page old_page-IsSound
      zone_0-AreFull
