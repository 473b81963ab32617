-- ===== src/Tests/Controller.antt =====
-- The controller with zones of four pages. Page id 7 has the first page of zone 0, which is open.
use zone_buffer.Base.{
  ℕ, zero, suc, ◌+◌, ◌≡◌, ◌==◌, refl, [], ◌∷◌, none, some, arith, true, false, if◌then◌else◌, ok,
  fault, assert_failed, ◌>>=◌, Returns,
}
use zone_buffer.Base.Int.{pos}
use zone_buffer.Zns.{
  Zns, ZoneDesc, Frame, Cond, empty, exp_open, fresh_zone, set_valid, inc_io_count,
}
use zone_buffer.Zns.Write.{write_page, write_page_gc, read_page, select}
use zone_buffer.Zns.Valid.{HasGeometry, IsCounted, bits_in, set_valid-fault}
use zone_buffer.Zns.Consistent.{IsConsistent}
use zone_buffer.Zns.Keeps.{HasSpace, IsReadable, IsReliable, Keeps}
use zone_buffer.Zns.Select.{select-HasSpace}
use zone_buffer.Zns.Rewrite.{Stores}
use zone_buffer.Zns.Store.{
  IsReady, write_page-Stores, write_page_gc-Stores, write_page-read_page, read_page-stored,
}
use zone_buffer.Zns.Write.{create_new_page, write_cluster}
use zone_buffer.Zns.Cluster.Run.{StoresAll, write_cluster-StoresAll}
use zone_buffer.Zns.Insert.{create_new_page-Stores}
use zone_buffer.Tests.{machine}

abbrev open_zone_0 : ZoneDesc machine
open_zone_0 = record (fresh_zone machine 8 0) {
  wp = 2;
  cond = exp_open;
  valid_page = pos 1;
  cf = pos 0;
}

abbrev pub one_page : Zns machine
one_page = record {
  cap = 8;
  gc_count = 0;
  cd_count = 0;
  cluster_num = 3;
  buffer_write_count = 0;
  zone_number = 4;
  zone = λ i. if i == 0 then open_zone_0 else fresh_zone machine 8 i;
  zone_size = 8;
  block_per_zone = 4;
  meta_page = λ k. k == 0;
  pages_num = 1;
  table = λ id. if id == 7 then some 0 else none;
  io_count = 1;
  gc_valid_count = 0;
  write_count = 1;
  valid_data = pos 0;
  real_data = pos 0;
  used_zone = 1;
  gc = false;
  cd = false;
  zone_used = λ i. false;
  covzs = true;
  device = λ a. a + 7;
}

abbrev pub filled : ℕ → ℕ
filled i = if i == 0 then 1 else 0

geometry : HasGeometry machine 4 one_page
geometry = record {
  page_pos = omega arith;
  pages_pos = omega arith;
  zone_pages = refl;
  bitmap = omega arith;
}

counted : IsCounted machine 4 one_page
unfolding bits_in
counted zero h = refl
counted (suc i) h = ground arith

pub one_page-IsConsistent : IsConsistent machine 4 filled one_page
one_page-IsConsistent = record {
  geometry = geometry;
  counted = counted;
  origin = λ i h. ground arith;
  pointer = λ i h. ground arith;
  within = λ i h. ground arith;
  cap-le = omega arith;
  unused = λ i h e. ground arith;
  mapping = record {
    mapped = λ id a e. (0, ground arith, refl);
    written = λ k e. ground arith;
    distinct = λ i j a e e'. ground arith;
    owned = λ k e. (7, ground arith);
  };
}

pub reliable : IsReliable machine
reliable = record {
  writes = λ at bytes d. (_, refl);
  opens = λ at len d. (d, refl);
  finishes = λ at len d. (d, refl);
}

pub readable : IsReadable machine
readable = record { reads = λ at len d. (_, refl) }

pub ready : IsReady machine 4 one_page
ready = record {
  fill = filled;
  consistent = one_page-IsConsistent;
  covzs = refl;
  clusters = omega arith;
  spare = 1;
  spare-lt = omega arith;
  spare_empty = refl;
  spare_free = refl;
}

write_page-Stores_example :
    Returns
      (write_page machine 1 (pos 0) 7 (5 ∷ 6 ∷ []) one_page)
      (Stores machine 4 7 (5 ∷ 6 ∷ []) one_page)
write_page-Stores_example =
    write_page-Stores machine reliable 4 one_page ready (omega arith) 0 (pos 0) 7 0 refl
      (5 ∷ 6 ∷ []) refl

write_page_gc-Stores_example :
    Returns
      (write_page_gc machine 1 (pos 0) 7 (5 ∷ 6 ∷ []) one_page)
      (Stores machine 4 7 (5 ∷ 6 ∷ []) one_page)
write_page_gc-Stores_example =
    write_page_gc-Stores machine reliable 4 one_page ready (omega arith) 0 (pos 0) 7 0 refl
      (5 ∷ 6 ∷ []) refl

write_page-read_page_example :
    Returns
      (write_page machine 1 (pos 0) 7 (5 ∷ 6 ∷ []) one_page >>= read_page machine 7)
      (λ r. r.0 ≡ 5 ∷ 6 ∷ [])
write_page-read_page_example =
    write_page-read_page machine reliable 4 one_page ready (omega arith) 0 (pos 0) 7 0 refl
      (5 ∷ 6 ∷ []) refl readable

read_page-stored_example :
    (zone : ℕ) × (read_page machine 7 one_page
      ≡ ok (7 ∷ 8 ∷ [], zone, inc_io_count machine one_page))
unfolding zone_buffer.Zns.bytes_on
read_page-stored_example = read_page-stored machine readable 7 one_page (7 ∷ 8 ∷ []) refl

select-HasSpace_example :
    Returns
      (select machine (pos 1) 3 one_page)
      (λ r. Keeps machine one_page r.1 × HasSpace machine 3 r.0 r.1)
select-HasSpace_example =
    select-HasSpace machine reliable (pos 1) 3 one_page-IsConsistent refl (omega arith)
      (omega arith) 1 (omega arith) refl refl

set_valid-fault_example : set_valid machine 6 false one_page ≡ fault assert_failed
set_valid-fault_example = set_valid-fault machine 4 geometry 3 false (omega arith) refl

create_new_page-Stores_example :
    Returns
      (create_new_page machine 1 9 (9 ∷ 0 ∷ []) one_page)
      (Stores machine 4 9 (9 ∷ 0 ∷ []) one_page)
create_new_page-Stores_example =
    create_new_page-Stores machine reliable 4 one_page ready (omega arith) 1 9 refl (9 ∷ 0 ∷ [])
      refl

write_cluster-StoresAll_example :
    Returns
      (write_cluster machine 1 (pos 0) (5 ∷ 6 ∷ 7 ∷ 8 ∷ 9 ∷ 0 ∷ []) (7 ∷ 7 ∷ 7 ∷ []) one_page)
      (StoresAll machine 4 (7 ∷ 7 ∷ 7 ∷ []) (5 ∷ 6 ∷ 7 ∷ 8 ∷ 9 ∷ 0 ∷ []) one_page)
write_cluster-StoresAll_example =
    write_cluster-StoresAll machine 4 reliable one_page ready 0 (pos 0) (7 ∷ 7 ∷ 7 ∷ [])
      (5 ∷ 6 ∷ 7 ∷ 8 ∷ 9 ∷ 0 ∷ []) (omega arith) ((0, refl), ((0, refl), ((0, refl), tt))) refl
