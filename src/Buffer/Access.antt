-- ===== src/Buffer/Access.antt =====
-- src/zBuffer.cpp: the calls of the clients, and what they are made of.
use zone_buffer.Base.{
  ℕ, suc, ◌+◌, ◌-◌, ◌*◌, ◌%◌, Bool, true, false, not, List, [], ◌∷◌, none, some, ◌==◌,
  if◌then◌else◌, Result, ok, fault, undefined, ◌>>=◌, ◌>>◌, assert, take, range_from,
}
use zone_buffer.Base.Int.{pos}
use zone_buffer.Env.{Env}
use zone_buffer.Lru
use zone_buffer.Zalp
use zone_buffer.Zns.{Zns, Frame, add32, update, read_id}
use zone_buffer.Zns.Gc.{print_gc_info}
use zone_buffer.Zns.Write.{read_page, write_page, create_new_page}
use zone_buffer.Buffer.{Buffer, Modes, get_page_id, set_page_id, set_dirty, inc_hit_count}
use zone_buffer.Buffer.Ach.{tries, evict_victim_ach}
use zone_buffer.Buffer.Evict.{evict_victim, select_victim}

module _ (E : Env) where
  open E.params use {frame_size, def_buf_size}

  -- The frame `frame_id` is read from the device; the zone that it came from.
  unfoldable pub load : ℕ → ℕ → Buffer E → Result (ℕ × Buffer E)
  load page_id frame_id b = do
    (frame, zone, z) ← read_page E page_id b.zdsm
    ok (zone, record b { buffer = update b.buffer frame_id frame; zdsm = z })

  -- The frame of the plain LRU policy, as both `fix_page` and `fix_new_page` take it.
  unfoldable pub take_lru_frame : Buffer E → Result (ℕ × Buffer E)
  take_lru_frame b =
      if b.free_frames_num == 0
      then select_victim E b
      else ok
          (def_buf_size - b.free_frames_num, record b { free_frames_num = b.free_frames_num - 1 })

  abbrev pub map_page : ℕ → ℕ → Buffer E → Buffer E
  map_page page_id frame_id b = record b {
    page2frame = E.maps.insert page_id frame_id b.page2frame;
  }

  -- `if (strategy->is_evict())`, and the eviction of the policy.
  unfoldable pub make_room : Buffer E → Result (Buffer E)
  make_room b = do
    let modes : Modes E = b.modes
    short ← Zalp.is_evict E.maps E.params b.strategy
    if not short
        then ok b
        else if not modes.ach_only
        then evict_victim E b
        else evict_victim_ach E b

  -- `get_frame`, and the page of a frame that was in use leaves `page2frame`.
  unfoldable pub claim : Buffer E → Result (ℕ × Buffer E)
  claim b = do
    (s, frame_id, is_free) ← Zalp.get_frame E.maps b.strategy
    let c : Buffer E = record b { strategy = s }
    ok (
      frame_id,
      record c {
        page2frame =
            if is_free then c.page2frame else E.maps.erase (get_page_id E frame_id c) c.page2frame;
      },
    )

  abbrev pub push_frame : ℕ → Buffer E → Buffer E
  push_frame frame_id b = record b { strategy = Zalp.push E.maps frame_id false b.strategy }

  -- What a read miss does with the frame, for each policy.
  unfoldable pub fill : ℕ → ℕ → Buffer E → Result (Buffer E)
  fill page_id frame_id b =
      let modes : Modes E = b.modes in
      if modes.zalp_wc
      then (do
        (zone, b) ← load page_id frame_id b
        ok (record b {
          cluster_flag = update b.cluster_flag frame_id (zone * 0);
          write_count = update b.write_count frame_id 0;
          read_count = update b.read_count frame_id 0;
        }))
      else if modes.ach_only
      then (do (_, b) ← load page_id frame_id b; ok b)
      else if modes.zalp
      then (do
        (zone, b) ← load page_id frame_id b
        let z : Zns E = b.zdsm
        if z.cluster_num == 0
            then fault undefined
            else ok
                (record b { cluster_flag = update b.cluster_flag frame_id (zone % z.cluster_num) }))
      else if modes.cflru
      then (do (_, b) ← load page_id frame_id b; ok b)
      else ok b

  unfoldable pub lru_miss : Bool → ℕ → Buffer E → Result (ℕ × Buffer E)
  lru_miss is_write page_id b = do
    (frame_id, b) ← take_lru_frame b
    let c = map_page page_id frame_id b
    let d = set_page_id E frame_id page_id (record c { lrus = Lru.push frame_id c.lrus })
    if is_write then ok (frame_id, d) else (do (_, d) ← load page_id frame_id d; ok (frame_id, d))

  unfoldable pub miss : Bool → ℕ → Buffer E → Result (ℕ × Buffer E)
  miss is_write page_id b = do
    b ← make_room b
    (frame_id, b) ← claim b
    let c = set_page_id E frame_id page_id (push_frame frame_id (map_page page_id frame_id b))
    if is_write then ok (frame_id, c) else (do c ← fill page_id frame_id c; ok (frame_id, c))

  unfoldable pub lru_hit : ℕ → Buffer E → Result (ℕ × Buffer E)
  lru_hit frame_id b = do
    l ← Lru.update frame_id b.lrus
    ok (frame_id, inc_hit_count E (record b { lrus = l }))

  unfoldable pub hit : ℕ → Buffer E → Result (ℕ × Buffer E)
  hit frame_id b = do
    let modes : Modes E = b.modes
    let c : Buffer E = record b {
      cluster_flag =
          if modes.zalp_wc
          then update b.cluster_flag frame_id (suc (b.cluster_flag frame_id))
          else b.cluster_flag;
    }
    s ← Zalp.update E.maps frame_id (c.frame_dirty frame_id) c.strategy
    ok (frame_id, inc_hit_count E (record c { strategy = s }))

  unfoldable pub fix_page : Bool → ℕ → Buffer E → Result (ℕ × Buffer E)
  fix_page is_write page_id b =
      let modes : Modes E = b.modes in
      elim (E.maps.find page_id b.page2frame) [
        | none ↦ if modes.lru then lru_miss is_write page_id b else miss is_write page_id b
        | some frame_id ↦ if modes.lru then lru_hit frame_id b else hit frame_id b
      ]

  abbrev pub inc_read_count : ℕ → Buffer E → Buffer E
  inc_read_count frame_id b = record b {
    read_count = update b.read_count frame_id (suc (b.read_count frame_id));
  }

  -- The copy of the frame, after the assertion that it carries the page's id.
  unfoldable pub read : ℕ → Buffer E → Result (Frame × Buffer E)
  read page_id b = do
    (frame_id, b) ← fix_page false page_id b
    assert (read_id (b.buffer frame_id) == page_id)
    ok (b.buffer frame_id, inc_read_count frame_id b)

  unfoldable pub write : ℕ → Frame → Buffer E → Result (Buffer E)
  write page_id frame b = do
    (frame_id, b) ← fix_page true page_id b
    set_dirty E frame_id (
        inc_read_count frame_id
          (record b { buffer = update b.buffer frame_id (take frame_size frame) }))

  -- The new page is written to its frame and, at once, to the device.
  unfoldable pub create : ℕ → ℕ → Frame → Buffer E → Result (Buffer E)
  create page_id frame_id frame b = do
    z ← create_new_page E tries page_id (take frame_size frame) b.zdsm
    ok (record b { buffer = update b.buffer frame_id (take frame_size frame); zdsm = z })

  abbrev pub new_flag : ℕ → ℕ → Buffer E → Result (Buffer E)
  new_flag page_id frame_id b =
      let modes : Modes E = b.modes in
      let z : Zns E = b.zdsm in
      if modes.zalp_wc
      then ok (record b {
        cluster_flag = update b.cluster_flag frame_id 0;
        write_count = update b.write_count frame_id 0;
        read_count = update b.read_count frame_id 0;
      })
      else if not modes.zalp
      then ok b
      else if z.cluster_num == 0
      then fault undefined
      else ok (record b { cluster_flag = update b.cluster_flag frame_id (page_id % z.cluster_num) })

  unfoldable pub fix_new_page : ℕ → Frame → Buffer E → Result (Buffer E)
  fix_new_page page_id frame b =
      let modes : Modes E = b.modes in
      if modes.lru
      then (do
        (frame_id, b) ← take_lru_frame b
        b ← create page_id frame_id frame b
        let c = map_page page_id frame_id b
        ok (set_page_id E frame_id page_id (record c { lrus = Lru.push frame_id c.lrus })))
      else (do
        b ← make_room b
        (frame_id, b) ← claim b
        b ← create page_id frame_id frame b
        b ←
            new_flag page_id frame_id
              (record b { insert_count = add32 b.insert_count 1; cd_count = b.cd_count + 1 })
        ok (set_page_id E frame_id page_id (push_frame frame_id (map_page page_id frame_id b))))

  -- The loop of `clean_buffer`.
  unfoldable pub clean_frames : List ℕ → Buffer E → Result (Buffer E)
  clean_frames [] b = ok b
  clean_frames (i ∷ is) b = do
    z ←
        (if b.frame_dirty i
          then write_page E tries (pos 0) (b.frame_to_page i) (b.buffer i) b.zdsm
          else ok b.zdsm)
    clean_frames is (record b { zdsm = z })

  unfoldable pub clean_buffer : Buffer E → Result (Buffer E)
  clean_buffer b = do
    b ← clean_frames (range_from 0 def_buf_size) b
    ok (record b { zdsm = print_gc_info E b.zdsm })
