-- ===== src/Buffer/Flush.antt =====
-- The writes of an eviction against the store that the controller promises: the frames of the
-- victims are stored under their pages.
use zone_buffer.Base.{
  ℕ, zero, suc, ◌+◌, ◌*◌, ◌≡◌, ◌≤◌, refl, ◌∙◌, ap, List, [], ◌∷◌, ◌++◌, ◌==◌, if◌then◌else◌, Option,
  some, arith, Returns, length, map, take, drop, false, append-nil, length-append,
}
use zone_buffer.Base.Int.{pos}
use zone_buffer.Env.{Env}
use zone_buffer.Zns.{Zns, Frame, update}
use zone_buffer.Zns.Consistent.{IsConsistent}
use zone_buffer.Zns.Keeps.{IsReliable}
use zone_buffer.Zns.Store.{IsReady, write_page-Stores}
use zone_buffer.Zns.Stored.{stored}
use zone_buffer.Zns.Write.{write_cluster}
use zone_buffer.Zns.Cluster.Place.{Known}
use zone_buffer.Zns.Cluster.Spec.{put_pages}
use zone_buffer.Zns.Cluster.Run.{write_cluster-StoresAll}
use zone_buffer.Buffer.{Buffer, get_page_id}
use zone_buffer.Buffer.Ach.{tries, gather, add_flush}
use zone_buffer.Buffer.Evict.{flush_victims}

take-first : (n : ℕ) (xs ys : List ℕ) → length xs ≡ n → take n (xs ++ ys) ≡ xs
take-first zero [] ys h = refl
take-first zero (x ∷ xs) ys h = absurd (omega (arith, h))
take-first (suc n) [] ys h = absurd (omega (arith, h))
take-first (suc n) (x ∷ xs) ys h = ap (◌∷◌ x) (take-first n xs ys (omega (arith, h)))

drop-first : (n : ℕ) (xs ys : List ℕ) → length xs ≡ n → drop n (xs ++ ys) ≡ ys
drop-first zero [] ys h = refl
drop-first zero (x ∷ xs) ys h = absurd (omega (arith, h))
drop-first (suc n) [] ys h = absurd (omega (arith, h))
drop-first (suc n) (x ∷ xs) ys h = drop-first n xs ys (omega (arith, h))

module _ (E : Env) (m : ℕ) where
  open E.params use {page_size}

  abbrev pub pages_of : List ℕ → Buffer E → List ℕ
  pages_of victims b = map (λ i. get_page_id E i b) victims

  -- The frame of each victim is stored under its page, one after the other.
  abbrev pub put_frames : List ℕ → (ℕ → ℕ) → (ℕ → Frame) → (ℕ → Option Frame) → ℕ → Option Frame
  put_frames [] page frame f = f
  put_frames (i ∷ is) page frame f =
      put_frames is page frame (λ j. if page i == j then some (frame i) else f j)

  -- Each victim has a frame of one page.
  abbrev pub AreWhole : List ℕ → Buffer E → Type 0
  AreWhole [] b = Unit {0}
  AreWhole (i ∷ is) b = (length (b.buffer i) ≡ page_size) × AreWhole is b

  pub length-pages : (is : List ℕ) (b : Buffer E) → length (pages_of is b) ≡ length is
  length-pages [] b = refl
  length-pages (i ∷ is) b = ap suc (length-pages is b)

  pub length-gather :
      (is : List ℕ) (b : Buffer E)
      → AreWhole is b
      → length (gather E is b) ≡ length (pages_of is b) * page_size
  length-gather [] b h = omega arith
  length-gather (i ∷ is) b h =
      grind (arith, length-append (b.buffer i) (gather E is b), length-gather is b h.1, h.0)

  pub put_pages-put_frames :
      (is : List ℕ) (b : Buffer E) (f : ℕ → Option Frame)
      → AreWhole is b
      → (j : ℕ)
      → put_pages E (pages_of is b) (gather E is b) f j ≡ put_frames is b.frame_to_page b.buffer f j
  put_pages-put_frames [] b f h j = refl
  put_pages-put_frames (i ∷ is) b f h j =
      let rest = gather E is b in
      let one = take-first page_size (b.buffer i) rest h.0 in
      let others = drop-first page_size (b.buffer i) rest h.0 in
      let with_frame = λ (x : Frame) (k : ℕ). if get_page_id E i b == k then some x else f k in
      ap (λ x. put_pages E (pages_of is b) (drop page_size (b.buffer i ++ rest)) (with_frame x) j)
        one
      ∙ ap (λ y. put_pages E (pages_of is b) y (with_frame (b.buffer i)) j) others
      ∙ put_pages-put_frames is b (with_frame (b.buffer i)) h.1 j

  -- What a flush of the victims to cluster `cf` leaves.
  pub record IsFlushed (cf : ℕ) (victims : List ℕ) (b d : Buffer E) : Type 0 where
    pub fill : ℕ → ℕ
    pub consistent : IsConsistent E m fill d.zdsm
    pub holds :
        (j : ℕ)
        → stored E d.zdsm j ≡ put_frames victims b.frame_to_page b.buffer (stored E b.zdsm) j
    pub counted : d.flush_count ≡ update b.flush_count cf (b.flush_count cf + length victims)
    pub frames : (d.buffer ≡ b.buffer) × (d.page2frame ≡ b.page2frame) × (d.strategy ≡ b.strategy)

  module _ (rel : IsReliable E) (b : Buffer E) (ready : IsReady E m b.zdsm) (cf : ℕ)
      (victims : List ℕ) (whole : AreWhole victims b)
      (known : Known E 0 (pages_of victims b) (λ i. E.maps.find i (b.zdsm).table))
      (fits : length victims * page_size ≤ (b.zdsm).cap) where
    flushed : Zns E → Buffer E
    flushed z = add_flush E cf (length victims) (record b { zdsm = z })

    by_cluster :
        Returns
          (write_cluster E tries (pos cf) (gather E victims b) (pages_of victims b) b.zdsm)
          (λ z. IsFlushed cf victims b (flushed z))
    unfolding flushed
    by_cluster =
        let (z, run, all) =
          write_cluster-StoresAll E m rel b.zdsm ready 0 (pos cf) (pages_of victims b)
            (gather E victims b) (rw (length-pages victims b) fits) known
            (length-gather victims b whole) in
        (
          z,
          run,
          record {
            fill = all.fill;
            consistent = all.consistent;
            holds = λ j. all.holds j ∙ put_pages-put_frames victims b (stored E b.zdsm) whole j;
            counted = refl;
            frames = (refl, refl, refl);
          },
        )

    many :
        (length victims == 1) ≡ false
        → Returns (flush_victims E victims cf b) (IsFlushed cf victims b)
    unfolding flush_victims flushed
    many other = let (z, run, done) = by_cluster in (flushed z, rw (other, run) refl, done)

  -- On a device whose writes, openings and finishings succeed, with a controller in a consistent
  -- state with `covzs` set, a positive number of clusters and an empty zone that belongs to
  -- none, let the frames of the victims have one page each, their pages be in the table, and a
  -- zone hold as many pages. Then the writes of `evict_victim` return, whether by `write_page`
  -- or by `write_cluster`: the frame of each victim is stored under its page, one after the
  -- other, nothing else that is stored has changed, the controller is consistent, and the writes
  -- are counted for the cluster.
  pub flush_victims-IsFlushed :
      (rel : IsReliable E) (b : Buffer E)
      → IsReady E m b.zdsm
      → (cf : ℕ) (victims : List ℕ) → AreWhole victims b
      → Known E 0 (pages_of victims b) (λ i. E.maps.find i (b.zdsm).table)
      → length victims * page_size ≤ (b.zdsm).cap
      → Returns (flush_victims E victims cf b) (IsFlushed cf victims b)
  unfolding flush_victims
  flush_victims-IsFlushed rel b ready cf [] whole known fits =
      many rel b ready cf [] whole known fits refl
  flush_victims-IsFlushed rel b ready cf (i ∷ k ∷ is) whole known fits =
      many rel b ready cf (i ∷ k ∷ is) whole known fits (ground arith)
  flush_victims-IsFlushed rel b ready cf (i ∷ []) whole known fits =
      let alone = append-nil (b.buffer i) in
      let (z, run, st) =
        write_page-Stores E rel m b.zdsm ready (omega (arith, fits)) 0 (pos cf) (get_page_id E i b)
          known.0.0 known.0.1 (b.buffer i) whole.0 in
      (
        add_flush E cf 1 (record b { zdsm = z }),
        rw (alone, run) refl,
        record {
          fill = st.fill;
          consistent = st.consistent;
          holds = st.holds;
          counted = refl;
          frames = (refl, refl, refl);
        },
      )
