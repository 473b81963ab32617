-- ===== src/Buffer/Rounds.antt =====
-- The three rounds of `evict_victim_ach`: every candidate is stored.
pub mod Frames
pub mod Victims
use zone_buffer.Base.{
  ℕ, zero, suc, ◌+◌, ◌*◌, ◌≡◌, ◌≢◌, ◌<◌, ◌≤◌, refl, ◌∙◌, ap, sym, true, List, [], ◌∷◌, ◌++◌, ◌==◌,
  if◌then◌else◌, Option, none, some, arith, Result, ok, ◌>>=◌, Returns, length, map, count, ◌⊎◌,
  inl, inr, Bool-cases, ltb, ltb→lt, ==_iff,
}
use zone_buffer.Base.Int.{pos}
use zone_buffer.Env.{Env}
use zone_buffer.Zns.{Zns, Frame}
use zone_buffer.Zns.Consistent.{IsConsistent}
use zone_buffer.Zns.Keeps.{IsReliable}
use zone_buffer.Zns.Spares.{spares}
use zone_buffer.Zns.Stored.{stored, frame_at}
use zone_buffer.Zns.Write.{write_cluster}
use zone_buffer.Zns.Cluster.Place.{Known}
use zone_buffer.Zns.Cluster.Run.{StoresAll}
use zone_buffer.Zns.Cluster.Spend.{write_cluster-spares}
use zone_buffer.Buffer.{Buffer, get_page_id}
use zone_buffer.Buffer.Ach.{tries, gather, add_flush, victims_of, flush_level}
use zone_buffer.Buffer.Flush.{
  pages_of, put_frames, AreWhole, length-pages, length-gather, put_pages-put_frames,
}
use zone_buffer.Buffer.Rounds.Frames.{
  SameFrames, put_frames-keeps, put_frames-stores, put_frames-others, put_frames-some,
}
use zone_buffer.Buffer.Rounds.Victims.{victims_of-within, victims_of-split}

fewer_fit : (x y p cap : ℕ) → x ≤ y → y * p ≤ cap → x * p ≤ cap
fewer_fit x y p cap h fits = grind arith

module _ (E : Env) (m : ℕ) where
  open E.params use {page_size}

  -- The controller is in order, and each candidate has a frame of one page and a page that is stored.
  pub record IsSteady (candidates : List ℕ) (b : Buffer E) : Type 0 where
    pub fill : ℕ → ℕ
    pub consistent : IsConsistent E m fill b.zdsm
    pub covzs : (b.zdsm).covzs ≡ true
    pub clusters : 0 < (b.zdsm).cluster_num
    pub fits : length candidates * page_size ≤ (b.zdsm).cap
    pub whole : (i : ℕ) → 0 < count i candidates → length (b.buffer i) ≡ page_size
    pub known :
        (i : ℕ)
        → 0 < count i candidates
        → (x : Frame) × (stored E b.zdsm (b.frame_to_page i) ≡ some x)

  found_of :
      (s : Zns E) (o : Option ℕ) (x : Frame) → frame_at E s o ≡ some x → (a : ℕ) × (o ≡ some a)
  found_of s none x e = cc
  found_of s (some a) x e = (a, refl)

  whole-AreWhole :
      (v : List ℕ) (b : Buffer E)
      → ((i : ℕ) → 0 < count i v → length (b.buffer i) ≡ page_size)
      → AreWhole E m v b
  unfolding count
  whole-AreWhole [] b h = tt
  whole-AreWhole (i ∷ is) b h =
      (h i (ground arith), whole-AreWhole is b λ k mem. h k (omega (arith, mem)))

  stored-Known :
      (v : List ℕ) (b : Buffer E)
      → ((i : ℕ) → 0 < count i v → (x : Frame) × (stored E b.zdsm (b.frame_to_page i) ≡ some x))
      → Known E 0 (pages_of E m v b) (λ i. E.maps.find i (b.zdsm).table)
  unfolding count
  stored-Known [] b h = tt
  stored-Known (i ∷ is) b h =
      let (x, e) = h i (ground arith) in
      (found_of b.zdsm _ x e, stored-Known is b λ k mem. h k (omega (arith, mem)))

  -- The buffer after a round that has left the controller `z`.
  abbrev after : ℕ → List ℕ → Buffer E → Zns E → Buffer E
  after cf v b z = add_flush E cf (length v) (record b { zdsm = z })

  victims_of-after :
      (l cf : ℕ) (v candidates : List ℕ) (b : Buffer E) (z : Zns E)
      → victims_of E l candidates (after cf v b z) ≡ victims_of E l candidates b
  unfolding victims_of
  victims_of-after l cf v [] b z = refl
  victims_of-after l cf v (i ∷ is) b z = rw (victims_of-after l cf v is b z) refl

  -- One round.
  record Rounds (cf : ℕ) (candidates v : List ℕ) (b : Buffer E) : Type 0 where
    z : Zns E
    run : flush_level E cf candidates b ≡ ok (after cf v b z)
    steady : IsSteady candidates (after cf v b z)
    holds : (j : ℕ) → stored E z j ≡ put_frames E m v b.frame_to_page b.buffer (stored E b.zdsm) j
    spent : spares E b.zdsm ≤ suc (spares E z)

  round :
      (rel : IsReliable E) (cf : ℕ) (candidates v : List ℕ) (b : Buffer E)
      → IsSteady candidates b
      → 1 ≤ spares E b.zdsm
      → victims_of E cf candidates b ≡ ok v
      → Rounds cf candidates v b
  unfolding flush_level
  round rel cf candidates v b steady some_spare sorted =
      let (inside, short) = victims_of-within E cf candidates b v sorted in
      let whole = whole-AreWhole v b λ i mem. steady.whole i (omega (arith, mem, inside i)) in
      let known = stored-Known v b λ i mem. steady.known i (omega (arith, mem, inside i)) in
      let (z, ran, (all, spent)) =
        write_cluster-spares E m rel steady.fill b.zdsm steady.consistent steady.covzs
          steady.clusters some_spare 0 (pos cf) (pages_of E m v b) (gather E v b)
          (rw (length-pages E m v b)
            (fewer_fit (length v) (length candidates) page_size (b.zdsm).cap short steady.fits))
          known (length-gather E m v b whole) in
      let holds = λ (j : ℕ). all.holds j ∙ put_pages-put_frames E m v b (stored E b.zdsm) whole j in
      record {
        z = z;
        run = rw (sorted, ran) refl;
        steady = record {
          fill = all.fill;
          consistent = all.consistent;
          covzs = all.setup.2 ∙ steady.covzs;
          clusters = rw all.setup.3 steady.clusters;
          fits = rw all.setup.0 steady.fits;
          whole = steady.whole;
          known = λ i mem.
              let (x, e) =
                put_frames-some E m b.frame_to_page b.buffer v (b.frame_to_page i) (stored E b.zdsm)
                  (steady.known i mem) in
              (x, holds (b.frame_to_page i) ∙ e);
        };
        holds = holds;
        spent = spent;
      }

  -- Every candidate is stored under its page, and nothing else has changed.
  pub record AllStored (candidates : List ℕ) (b d : Buffer E) : Type 0 where
    pub steady : IsSteady candidates d
    pub candidate :
        (i : ℕ) → 0 < count i candidates → stored E d.zdsm (b.frame_to_page i) ≡ some (b.buffer i)
    pub others :
        (j : ℕ)
        → ((i : ℕ) → 0 < count i candidates → b.frame_to_page i ≢ j)
        → stored E d.zdsm j ≡ stored E b.zdsm j
    pub frames : (d.buffer ≡ b.buffer) × (d.page2frame ≡ b.page2frame) × (d.strategy ≡ b.strategy)

  -- Frames that are different have different pages.
  abbrev pub HaveOwnPages : List ℕ → Buffer E → Type 0
  HaveOwnPages candidates b =
      (i k : ℕ)
      → 0 < count i candidates
      → 0 < count k candidates
      → b.frame_to_page k ≡ b.frame_to_page i
      → k ≡ i

  -- On a device whose writes, openings and finishings succeed, with a controller in a consistent
  -- state with `covzs` set, a positive number of clusters and three empty zones or more that
  -- belong to none, let the candidates have frames of one page each and different pages that are
  -- stored, let a zone hold as many pages, and let the level of each candidate be defined. Then
  -- the three rounds of `evict_victim_ach` return: the frame of every candidate is stored under
  -- its page, whatever its levels, nothing else that is stored has changed, and the controller
  -- is consistent.
  pub flush_level-AllStored :
      (rel : IsReliable E) (candidates first near far : List ℕ) (b : Buffer E)
      → IsSteady candidates b
      → 3 ≤ spares E b.zdsm
      → HaveOwnPages candidates b
      → victims_of E 0 candidates b ≡ ok first
      → victims_of E 1 candidates b ≡ ok near
      → victims_of E 2 candidates b ≡ ok far
      → Returns
          (flush_level E 0 candidates b >>= λ c.
            flush_level E 1 candidates c >>= flush_level E 2 candidates)
          (AllStored candidates b)
  flush_level-AllStored rel candidates first near far b steady three own at_0 at_1 at_2 =
      let r = round rel 0 candidates first b steady (omega (arith, three)) at_0 in
      let c = after 0 first b r.z in
      let same_1 = victims_of-after 1 0 first candidates b r.z in
      let s =
        round rel 1 candidates near c r.steady (omega (arith, three, r.spent)) (same_1 ∙ at_1) in
      let d = after 1 near c s.z in
      let same_2 =
        victims_of-after 2 1 near candidates c s.z ∙ victims_of-after 2 0 first candidates b r.z in
      let t =
        round rel 2 candidates far d s.steady (omega (arith, three, r.spent, s.spent))
          (same_2 ∙ at_2) in
      let alike : (v : List ℕ) (i : ℕ)
          → ((k : ℕ) → count k v ≤ count k candidates)
          → 0 < count i candidates
          → SameFrames v b.frame_to_page b.buffer i =
        λ v i inside mem k other e. ap b.buffer (own i k mem (omega (arith, other, inside k)) e) in
      let (in_0, _) = victims_of-within E 0 candidates b first at_0 in
      let (in_1, _) = victims_of-within E 1 candidates b near at_1 in
      let (in_2, _) = victims_of-within E 2 candidates b far at_2 in
      (
        after 2 far d t.z,
        rw (r.run, s.run, t.run) refl,
        record {
          steady = t.steady;
          candidate = λ i mem. elim (Bool-cases (ltb 0 (count i far))) [
            | inl late ↦
                t.holds (b.frame_to_page i)
                ∙ put_frames-stores E m b.frame_to_page b.buffer far i _ (alike far i in_2 mem)
                    (ltb→lt 0 (count i far) late)
            | inr other ↦
                let soon : 0 < count i near =
                  ground
                    (arith, other, mem, victims_of-split E candidates b near far at_1 at_2 i) in
                t.holds (b.frame_to_page i)
                ∙ put_frames-keeps E m b.frame_to_page b.buffer far i _ (alike far i in_2 mem) (
                    s.holds (b.frame_to_page i)
                    ∙ put_frames-stores E m b.frame_to_page b.buffer near i _
                        (alike near i in_1 mem) soon)
          ];
          others = λ j apart.
              t.holds j
              ∙ put_frames-others E m b.frame_to_page b.buffer far j _
                  (λ k h. apart k (omega (arith, h, in_2 k)))
              ∙ s.holds j
              ∙ put_frames-others E m b.frame_to_page b.buffer near j _
                  (λ k h. apart k (omega (arith, h, in_1 k)))
              ∙ r.holds j
              ∙ put_frames-others E m b.frame_to_page b.buffer first j _
                  (λ k h. apart k (omega (arith, h, in_0 k)));
          frames = (refl, refl, refl);
        },
      )
