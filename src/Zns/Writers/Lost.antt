-- ===== src/Zns/Writers/Lost.antt =====
-- A collection and a write of the same page: between the read of a page by `garbage_collection` and
-- its `write_page_gc` another thread can write the page.
use zone_buffer.Base.{ℕ, suc, ◌≡◌, ◌≤◌, true, ok}
use zone_buffer.Base.Int.{ℤ}
use zone_buffer.Env.{Env}
use zone_buffer.Zns.{Zns, Frame, is_open}
use zone_buffer.Zns.Keeps.{Keeps}
use zone_buffer.Zns.Spares.{spares}
use zone_buffer.Zns.Rewrite.{Stores}
use zone_buffer.Zns.Write.{select, write_page_at, write_page_gc_at}

module _ (E : Env) (m : ℕ) where
  open E.params use {page_size, max_zone_num}

  -- A zone is chosen, and under its lock both `write_page` and `write_page_gc` store the frame.
  record Chooses (cf : ℤ) (id : ℕ) (frame : Frame) (s : Zns E) : Type 0 where
    w : ℕ
    t : Zns E
    u : Zns E
    picked : select E cf 1 s ≡ ok (w, t)
    opened : is_open (t.zone w).cond ≡ true
    writes : write_page_at E w id frame t ≡ ok u
    moves_it : write_page_gc_at E w id frame t ≡ ok u
    stores : Stores E m id frame s u
    spent : spares E s ≤ suc (spares E u)
