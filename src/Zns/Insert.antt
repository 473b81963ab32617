-- ===== src/Zns/Insert.antt =====
-- `create_new_page` against the store that the controller promises.
use zone_buffer.Base.{
  ℕ, suc, ◌≡◌, ◌≤◌, refl, ◌∙◌, ap, none, some, Option, ◌==◌, if◌then◌else◌, Returns, length, lt→ltb,
}
use zone_buffer.Base.Int.{pos}
use zone_buffer.Env.{Env}
use zone_buffer.Zns.{Zns, Frame, add32, zone_at, update, bytes_on, set_page_addr, inc_io_count}
use zone_buffer.Zns.Write.{create_new_page, inc_write_count}
use zone_buffer.Zns.Consistent.{IsConsistent}
use zone_buffer.Zns.Pages.{HasRoom, moved}
use zone_buffer.Zns.Create.{created, created-IsConsistent, create_page_at-created}
use zone_buffer.Zns.Keeps.{IsReliable, Keeps-IsConsistent, counters-Keeps}
use zone_buffer.Zns.Bytes.{take-length}
use zone_buffer.Zns.Stored.{stored, frame_at, stored-moved, Keeps-stored, Keeps-SameSetup}
use zone_buffer.Zns.Rewrite.{Stores}
use zone_buffer.Zns.Store.{IsReady, picked}

module _ (E : Env) where
  open E.params use {page_size, max_zone_num}

  -- What is stored depends on the table and the device only, which a new page leaves as a move does.
  stored-created :
      {m : ℕ} {fill : ℕ → ℕ} {s : Zns E} (c : IsConsistent E m fill s) {w : ℕ}
      (room : HasRoom E m fill w s) (id : ℕ) (d : E.device.State) (frame : Frame)
      → E.device.pwrite (s.zone w).wp frame s.device ≡ some d
      → length frame ≡ page_size
      → (j : ℕ)
      → stored E (created E m fill w id d s) j ≡ (if id == j then some frame else stored E s j)
  unfolding bytes_on set_page_addr
  stored-created {m} {fill} {s} c {w} room id d frame written whole j =
      same (E.maps.find j (created E m fill w id d s).table)
      ∙ stored-moved E c room id 0 d frame written whole j
    where
      same :
          (o : Option ℕ)
          → frame_at E (created E m fill w id d s) o ≡ frame_at E (moved E m fill w id 0 d s) o
      same none = refl
      same (some a) = refl

  -- On a device whose writes, openings and finishings succeed, from a consistent state with
  -- `covzs` set, a positive number of clusters and an empty zone that belongs to none,
  -- `create_new_page` of a page id that is not in the table, with a frame of one page and zones
  -- that hold a page, returns; the frame is stored under the page id, what is stored under every
  -- other id is unchanged, and the state is consistent.
  pub create_new_page-Stores :
      (rel : IsReliable E) (m : ℕ) (s : Zns E)
      → IsReady E m s
      → page_size ≤ s.cap
      → (tries id : ℕ) → E.maps.find id s.table ≡ none
      → (frame : Frame) → length frame ≡ page_size
      → Returns (create_new_page E tries id frame s) (Stores E m id frame s)
  unfolding create_new_page zone_at
  create_new_page-Stores rel m s ready big tries id new frame whole =
      let ((w, t), run, (keeps, room, c)) = picked E rel m s ready big (pos 0) in
      let (d, e) = rel.writes (t.zone w).wp frame t.device in
      let new' : E.maps.find id t.table ≡ none = ap (E.maps.find id) keeps.table ∙ new in
      let wrote =
        create_page_at-created E m c room id d new' frame
          (rw (take-length page_size frame whole) e) in
      let made = created E m ready.fill w id d t in
      let counters = counters-Keeps E made (add32 t.io_count 1) (add32 t.write_count 1) in
      (
        inc_write_count E 1 (inc_io_count E made),
        rw (run, lt→ltb w max_zone_num room.0, room.2) wrote,
        record {
          fill = update ready.fill w (suc (ready.fill w));
          consistent = Keeps-IsConsistent E counters (created-IsConsistent E m c room id d new');
          setup = Keeps-SameSetup E keeps;
          holds = λ j.
              Keeps-stored E counters j
              ∙ stored-created c room id d frame e whole j
              ∙ ap (λ (o : Option Frame). if id == j then some frame else o)
                  (Keeps-stored E keeps j);
        },
      )
