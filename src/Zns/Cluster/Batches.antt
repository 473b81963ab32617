-- ===== src/Zns/Cluster/Batches.antt =====
-- The loop of `write_cluster` that writes the bytes: whatever the size of a batch, the whole buffer
-- stands on the device one byte after the other, and the write pointer is behind it.
use zone_buffer.Base.{
  ℕ, zero, suc, ◌+◌, ◌-◌, ◌*◌, ◌≡◌, ◌<◌, ◌≤◌, refl, ◌∙◌, ap, subst, List, [], ◌∷◌, ==_iff,
  if◌then◌else◌, ◌&&◌, leb, ltb, inl, inr, Bool-cases, arith, lt→ltb, Returns, length, take, drop,
  get_or,
}
use zone_buffer.Env.{Env}
use zone_buffer.Zns.{Zns, Frame, zone_at, pwrite, add32}
use zone_buffer.Zns.Bytes.{take-length}
use zone_buffer.Zns.Consistent.{advance_lem}
use zone_buffer.Zns.Keeps.{Keeps, Keeps-trans, counters-Keeps, IsReliable}
use zone_buffer.Zns.Write.{write_batches, inc_write_count}
use zone_buffer.Zns.Cluster.{shifted}

pub length-take : (n : ℕ) (bs : List ℕ) → n ≤ length bs → length (take n bs) ≡ n
length-take zero bs h = refl
length-take (suc n) [] h = absurd (omega (arith, h))
length-take (suc n) (b ∷ bs) h = ap suc (length-take n bs (omega (arith, h)))

pub length-drop : (n : ℕ) (bs : List ℕ) → n ≤ length bs → length (drop n bs) + n ≡ length bs
length-drop zero bs h = omega arith
length-drop (suc n) [] h = absurd (omega (arith, h))
length-drop (suc n) (b ∷ bs) h = omega (arith, length-drop n bs (omega (arith, h)))

pub get_or-take : (n i : ℕ) (bs : List ℕ) → i < n → get_or (take n bs) i 0 ≡ get_or bs i 0
get_or-take zero i bs h = absurd (omega (arith, h))
get_or-take (suc n) i [] h = refl
get_or-take (suc n) zero (b ∷ bs) h = refl
get_or-take (suc n) (suc i) (b ∷ bs) h = get_or-take n i bs (omega (arith, h))

pub get_or-drop : (n i : ℕ) (bs : List ℕ) → get_or (drop n bs) i 0 ≡ get_or bs (n + i) 0
get_or-drop zero i bs = ap (λ x. get_or bs x 0) (zero_plus i)
  where
    zero_plus : (i : ℕ) → i ≡ 0 + i
    zero_plus i = omega arith
get_or-drop (suc n) i [] = refl
get_or-drop (suc n) i (b ∷ bs) = get_or-drop n i bs ∙ ap (λ x. get_or (b ∷ bs) x 0) (suc_plus n i)
  where
    suc_plus : (n i : ℕ) → suc (n + i) ≡ suc n + i
    suc_plus n i = omega arith

-- What a write of `bytes` at `a` makes of the bytes of a device.
abbrev pub Overwrites : List ℕ → ℕ → (ℕ → ℕ) → (ℕ → ℕ) → Type 0
Overwrites bytes a f g =
    (x : ℕ) → g x ≡ (if leb a x && ltb x (a + length bytes) then get_or bytes (x - a) 0 else f x)

-- Two writes, of the first part and of the rest behind it, are one.
Overwrites-split :
    (n a : ℕ) (bs : List ℕ) (f g h : ℕ → ℕ)
    → n ≤ length bs
    → Overwrites (take n bs) a f g
    → Overwrites (drop n bs) (a + n) g h
    → Overwrites bs a f h
Overwrites-split n a bs f g h le first rest x = elim (Bool-cases (ltb x (a + n))) [
  | inl low ↦ ground (arith, low, rest x, first x, length-take n bs le, get_or-take n (x - a) bs)
  | inr high ↦
      let i = x - (a + n) in
      let at : n + i ≡ x - a = ground (arith, high) in
      let byte = get_or-drop n i bs ∙ ap (λ y. get_or bs y 0) at in
      ground (arith, high, rest x, first x, length-take n bs le, length-drop n bs le, byte)
]

module _ (E : Env) (rel : IsReliable E) where
  open E.params use {page_size, max_zone_num, write_batch}

  -- The state that has `bytes` at the write pointer of `w`, and the pointer behind them.
  pub record HasAppended (w : ℕ) (bytes : Frame) (s t : Zns E) : Type 0 where
    pub device : E.device.State
    pub alike : (i : ℕ) → ((t.zone i).cond ≡ (s.zone i).cond) × ((t.zone i).cf ≡ (s.zone i).cf)
    pub bytes_at :
        Overwrites bytes (s.zone w).wp (λ x. E.device.byte x s.device) (λ x. E.device.byte x device)
    pub keeps : Keeps E (record (shifted E w (length bytes) s) { device = device }) t

  -- The counter of writes does not matter,
  counted_Keeps :
      (w n a b : ℕ) (s : Zns E) (d : E.device.State)
      → a ≡ b
      → Keeps E
          (record (shifted E w a s) { device = d })
          (inc_write_count E n (shifted E w b (record s { device = d })))
  counted_Keeps w n a b s d same =
      subst
        (λ x.
          Keeps E (record (shifted E w a s) { device = d })
            (inc_write_count E n (shifted E w x (record s { device = d }))))
        same
        (counters-Keeps E (record (shifted E w a s) { device = d }) s.io_count
          (add32 s.write_count n))

  -- and the pointer can be advanced in two steps.
  twice_Keeps :
      (w n a b c : ℕ) (s : Zns E) (d e : E.device.State)
      → c ≡ a + b
      → Keeps E
          (record (shifted E w c s) { device = e })
          (record (shifted E w b (inc_write_count E n (shifted E w a (record s { device = d })))) {
            device = e;
          })
  twice_Keeps w n a b c s d e sum = record {
    cap = refl;
    zone_size = refl;
    setup = (refl, refl);
    bits = refl;
    table = refl;
    meta_page = refl;
    zones = λ i. (ground (arith, sum), ground arith, ground arith);
    unused = λ i h. ground (arith, h);
    closed = λ i h. ground (arith, h);
    bytes = λ x. refl;
  }

  behind :
      (w n a : ℕ) (s : Zns E) (d : E.device.State)
      → ((inc_write_count E n (shifted E w a (record s { device = d }))).zone w).wp
        ≡ (s.zone w).wp + a
  behind w n a s d = rw ((==_iff w w).1 refl) refl

  pub write_batches-HasAppended :
      (w n last : ℕ) (buffer : Frame) (s : Zns E)
      → w < max_zone_num
      → length buffer ≡ n * (page_size * write_batch) + page_size * last
      → Returns (write_batches E w n last buffer s) (HasAppended w buffer s)
  unfolding write_batches zone_at pwrite
  write_batches-HasAppended w zero last buffer s below size =
      let (d, e) = rel.writes (s.zone w).wp buffer s.device in
      let t : Zns E = record s { device = d } in
      (
        inc_write_count E last (shifted E w (page_size * last) t),
        rw
            (
              lt→ltb w max_zone_num below,
              take-length (page_size * last) buffer (omega (arith, size)),
              e,
              advance_lem E 0 w (page_size * last) t below,
            )
            refl,
        record {
          device = d;
          alike = λ i. (ground arith, ground arith);
          bytes_at = λ x. E.device.byte-pwrite x (s.zone w).wp buffer s.device d e;
          keeps = counted_Keeps w last (length buffer) (page_size * last) s d (omega (arith, size));
        },
      )
  write_batches-HasAppended w (suc n) last buffer s below size =
      let p = page_size * write_batch in
      let fits : p ≤ length buffer = grind (arith, size) in
      let left : length (drop p buffer) ≡ n * p + page_size * last =
        grind (arith, size, length-drop p buffer fits) in
      let (d, e) = rel.writes (s.zone w).wp (take p buffer) s.device in
      let t : Zns E = record s { device = d } in
      let u = inc_write_count E write_batch (shifted E w p t) in
      let (v, run, a) = write_batches-HasAppended w n last (drop p buffer) u below left in
      (
        v,
        rw (lt→ltb w max_zone_num below, e, advance_lem E 0 w p t below) run,
        record {
          device = a.device;
          alike = λ i. ((a.alike i).0 ∙ ground arith, (a.alike i).1 ∙ ground arith);
          bytes_at =
              Overwrites-split p (s.zone w).wp buffer _ _ _ fits
                (λ x. E.device.byte-pwrite x (s.zone w).wp (take p buffer) s.device d e)
                (subst
                  (λ y.
                    Overwrites (drop p buffer) y (λ x. E.device.byte x d)
                      (λ x. E.device.byte x a.device))
                  (behind w write_batch p s d) a.bytes_at);
          keeps =
              Keeps-trans E
                (twice_Keeps w write_batch p (length (drop p buffer)) (length buffer) s d a.device
                  (omega (arith, length-drop p buffer fits)))
                a.keeps;
        },
      )
