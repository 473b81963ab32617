-- ===== src/Zns/Keeps.antt =====
-- What the choice of a zone leaves alone: data, table, bitmap, and where the zones write.
use zone_buffer.Base.{
  ℕ, ◌+◌, ◌*◌, ◌≡◌, ◌≢◌, ◌<◌, ◌≤◌, refl, ◌∙◌, ap, Bool, List, Option, none, some, arith, ok,
}
use zone_buffer.Base.Int.{ℤ}
use zone_buffer.Env.{Env}
use zone_buffer.Zns.{bytes_on, pread, Zns, ZoneDesc, Cond, empty, exp_open, full, update}
use zone_buffer.Zns.Consistent.{IsConsistent}

-- The calls of the device succeed.
pub record IsReliable (E : Env) : Type 0 where
  pub writes :
      (at : ℕ) (bytes : List ℕ) (d : E.device.State)
      → (d' : E.device.State) × (E.device.pwrite at bytes d ≡ some d')
  pub opens :
      (at len : ℕ) (d : E.device.State)
      → (d' : E.device.State) × (E.device.open_zones at len d ≡ some d')
  pub finishes :
      (at len : ℕ) (d : E.device.State)
      → (d' : E.device.State) × (E.device.finish_zones at len d ≡ some d')

-- The reads of the device succeed.
pub record IsReadable (E : Env) : Type 0 where
  pub reads :
      (at len : ℕ) (d : E.device.State) → (bytes : List ℕ) × (E.device.pread at len d ≡ some bytes)

-- What a read gives is what is on the device.
pub pread-bytes_on :
    (E : Env)
    → IsReadable E
    → (len at : ℕ) (s : Zns E) → pread E len at s ≡ ok (bytes_on E len at s)
unfolding pread bytes_on
pread-bytes_on E readable len at s =
    let (bytes, e) = readable.reads at len s.device in
    rw e (ap ok (E.device.pread-byte at len s.device bytes e))

module _ (E : Env) where
  open E.params use {page_size, max_zone_num}

  -- The data, the table, the geometry and the setup are the same, no zone became empty, and a full one is still full.
  pub record Keeps (s t : Zns E) : Type 0 where
    pub cap : t.cap ≡ s.cap
    pub zone_size : t.zone_size ≡ s.zone_size
    pub setup : (t.covzs ≡ s.covzs) × (t.cluster_num ≡ s.cluster_num)
    pub bits : t.block_per_zone * t.zone_number ≡ s.block_per_zone * s.zone_number
    pub table : t.table ≡ s.table
    pub meta_page : t.meta_page ≡ s.meta_page
    pub zones :
        (i : ℕ)
        → ((t.zone i).wp ≡ (s.zone i).wp)
          × ((t.zone i).ofst ≡ (s.zone i).ofst)
          × ((t.zone i).valid_page ≡ (s.zone i).valid_page)
    pub unused : (i : ℕ) → (t.zone i).cond ≡ empty → (s.zone i).cond ≡ empty
    pub closed : (i : ℕ) → (s.zone i).cond ≡ full → (t.zone i).cond ≡ full
    pub bytes : (a : ℕ) → E.device.byte a t.device ≡ E.device.byte a s.device

  pub Keeps-refl : (s : Zns E) → Keeps s s
  Keeps-refl s = record {
    cap = refl;
    zone_size = refl;
    setup = (refl, refl);
    bits = refl;
    table = refl;
    meta_page = refl;
    zones = λ i. (refl, refl, refl);
    unused = λ i e. e;
    closed = λ i e. e;
    bytes = λ a. refl;
  }

  -- So it is when only the counters of input and output differ.
  pub counters-Keeps :
      (s : Zns E) (io writes : ℕ) → Keeps s (record s { io_count = io; write_count = writes })
  counters-Keeps s io writes = record {
    cap = refl;
    zone_size = refl;
    setup = (refl, refl);
    bits = refl;
    table = refl;
    meta_page = refl;
    zones = λ i. (refl, refl, refl);
    unused = λ i e. e;
    closed = λ i e. e;
    bytes = λ a. refl;
  }

  pub Keeps-trans : {s t u : Zns E} → Keeps s t → Keeps t u → Keeps s u
  Keeps-trans k l = record {
    cap = l.cap ∙ k.cap;
    zone_size = l.zone_size ∙ k.zone_size;
    setup = (l.setup.0 ∙ k.setup.0, l.setup.1 ∙ k.setup.1);
    bits = l.bits ∙ k.bits;
    table = l.table ∙ k.table;
    meta_page = l.meta_page ∙ k.meta_page;
    zones = λ i. (
      (l.zones i).0 ∙ (k.zones i).0,
      (l.zones i).1 ∙ (k.zones i).1,
      (l.zones i).2 ∙ (k.zones i).2,
    );
    unused = λ i e. k.unused i (l.unused i e);
    closed = λ i e. l.closed i (k.closed i e);
    bytes = λ a. l.bytes a ∙ k.bytes a;
  }

  pub Keeps-IsConsistent :
      {m : ℕ} {fill : ℕ → ℕ} {s t : Zns E}
      → Keeps s t
      → IsConsistent E m fill s
      → IsConsistent E m fill t
  Keeps-IsConsistent k c = record {
    geometry = record {
      page_pos = c.geometry.page_pos;
      pages_pos = c.geometry.pages_pos;
      zone_pages = k.zone_size ∙ c.geometry.zone_pages;
      bitmap = omega (arith, c.geometry.bitmap, k.bits);
    };
    counted = λ i h. rw k.meta_page ((k.zones i).2 ∙ c.counted i h);
    origin = λ i h. (k.zones i).1 ∙ c.origin i h;
    pointer = λ i h. (k.zones i).0 ∙ c.pointer i h;
    within = λ i h. omega (arith, c.within i h, k.cap);
    cap-le = omega (arith, c.cap-le, k.cap);
    unused = λ i h e. c.unused i h (k.unused i e);
    mapping = rw (k.table, k.meta_page) c.mapping;
  }

  -- One zone gets another condition, which is not `empty`, and the device another state.
  pub recond-Keeps :
      (s : Zns E) (i : ℕ) (cond : Cond) (cf : ℤ) (used : ℕ → Bool) (d : E.device.State)
      → cond ≢ empty
      → ((s.zone i).cond ≡ full → cond ≡ full)
      → ((a : ℕ) → E.device.byte a d ≡ E.device.byte a s.device)
      → let z : ZoneDesc E = s.zone i in
        Keeps s (record s {
          zone = update s.zone i (record z { cond = cond; cf = cf });
          zone_used = used;
          device = d;
        })
  recond-Keeps s i cond cf used d ne closed same = record {
    cap = refl;
    zone_size = refl;
    setup = (refl, refl);
    bits = refl;
    table = refl;
    meta_page = refl;
    zones = λ j. (ground arith, ground arith, ground arith);
    unused = λ j e. ground (arith, ne);
    closed = λ j e. ground (arith, closed);
    bytes = same;
  }

  abbrev pub HasSpace : ℕ → ℕ → Zns E → Type 0
  HasSpace n w s =
      (w < max_zone_num)
      × ((s.zone w).cond ≡ exp_open)
      × ((s.zone w).wp + n * page_size ≤ (s.zone w).ofst + s.cap)

  abbrev pub Fits : ℕ → Option ℕ × Zns E → Type 0
  Fits n (none, s) = Unit {0}
  Fits n (some w, s) = HasSpace n w s

  -- The empty zones stay as they are.
  abbrev pub Spares : Zns E → Zns E → Type 0
  Spares s t = (i : ℕ) → (s.zone i).cond ≡ empty → t.zone i ≡ s.zone i
