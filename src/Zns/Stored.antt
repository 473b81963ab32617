-- ===== src/Zns/Stored.antt =====
-- The frames that the controller stores under page ids, and what a write changes of them.
use zone_buffer.Base.{
  ℕ, ◌+◌, ◌*◌, ◌≡◌, ◌≢◌, ◌<◌, ◌≤◌, refl, ◌∙◌, ap, sym, inl, inr, false, Option, none, some, ◌==◌,
  if◌then◌else◌, arith, Bool-cases, length,
}
use zone_buffer.Env.{Env}
use zone_buffer.Zns.{Zns, Frame, bytes_on}
use zone_buffer.Zns.Consistent.{IsConsistent, found-page, find-set_page_addr}
use zone_buffer.Zns.Valid.{marked}
use zone_buffer.Zns.Pages.{HasRoom, next_page, next-unset, moved}
use zone_buffer.Zns.Keeps.{Keeps}
use zone_buffer.Zns.Bytes.{pages_apart, true≢false, bytes_back, map-range_from_congr}

module _ (E : Env) where
  open E.params use {page_size, max_zone_num}

  abbrev pub frame_at : Zns E → Option ℕ → Option Frame
  frame_at s none = none
  frame_at s (some a) = some (bytes_on E page_size a s)

  -- The frame that is stored for a page id.
  abbrev pub stored : Zns E → ℕ → Option Frame
  stored s id = frame_at s (E.maps.find id s.table)

  pub bytes_on-bytes :
      (a : ℕ) (s t : Zns E)
      → ((i : ℕ) → a ≤ i → i < a + page_size → E.device.byte i t.device ≡ E.device.byte i s.device)
      → bytes_on E page_size a t ≡ bytes_on E page_size a s
  unfolding bytes_on
  bytes_on-bytes a s t h = map-range_from_congr _ _ a page_size h

  module _ {m : ℕ} {fill : ℕ → ℕ} {s : Zns E} (c : IsConsistent E m fill s) {w : ℕ}
      (room : HasRoom E m fill w s) (id k : ℕ) (d : E.device.State) (frame : Frame)
      (written : E.device.pwrite (s.zone w).wp frame s.device ≡ some d)
      (whole : length frame ≡ page_size) where
    bytes_on-new : bytes_on E page_size (s.zone w).wp (moved E m fill w id k d s) ≡ frame
    unfolding bytes_on
    bytes_on-new = rw (← whole) (
        bytes_back frame (s.zone w).wp (λ a. E.device.byte a d)
          λ i lt.
            ground (arith, E.device.byte-pwrite ((s.zone w).wp + i) (s.zone w).wp frame s.device d))

    bytes_on-old :
        (l : ℕ)
        → l ≢ next_page E m fill w
        → bytes_on E page_size (l * page_size) (moved E m fill w id k d s)
          ≡ bytes_on E page_size (l * page_size) s
    bytes_on-old l ne = bytes_on-bytes (l * page_size) s (moved E m fill w id k d s) λ i lo hi.
        ground (
          arith,
          E.device.byte-pwrite i (s.zone w).wp frame s.device d,
          c.pointer w room.0,
          pages_apart l (next_page E m fill w) page_size ne,
        )

    unchanged :
        (j : ℕ) (o : Option ℕ)
        → E.maps.find j s.table ≡ o
        → frame_at (moved E m fill w id k d s) o ≡ frame_at s o
    unchanged j none e = refl
    unchanged j (some a) e =
        let (l, at, b, _) = found-page E m c j a e in
        let other : l ≢ next_page E m fill w =
          λ same. true≢false (sym b ∙ ap s.meta_page same ∙ next-unset E m c room) in
        rw at (ap some (bytes_on-old l other))

    -- The move changes what is stored for the one page id, and nothing else.
    pub stored-moved :
        (j : ℕ)
        → stored (moved E m fill w id k d s) j ≡ (if id == j then some frame else stored s j)
    stored-moved j =
        let t = moved E m fill w id k d s in
        let looked = find-set_page_addr E m id (s.zone w).wp (marked E m k false s) j in
        elim (Bool-cases (id == j)) [
          | inl same ↦ rw same (ap (frame_at t) (rw same at looked) ∙ ap some bytes_on-new)
          | inr other ↦
              rw other
                (ap (frame_at t) (rw other at looked) ∙ unchanged j (E.maps.find j s.table) refl)
        ]

  pub Keeps-stored : {s t : Zns E} → Keeps E s t → (j : ℕ) → stored t j ≡ stored s j
  Keeps-stored {s} {t} k j =
      ap (frame_at t) (ap (E.maps.find j) k.table) ∙ same (E.maps.find j s.table)
    where
      same : (o : Option ℕ) → frame_at t o ≡ frame_at s o
      same none = refl
      same (some a) = ap some (bytes_on-bytes a s t λ i lo hi. k.bytes i)

  -- The capacity, the bitmap's size and the policy are the same.
  abbrev pub SameSetup : Zns E → Zns E → Type 0
  SameSetup s t =
      (t.cap ≡ s.cap)
      × (t.block_per_zone * t.zone_number ≡ s.block_per_zone * s.zone_number)
      × (t.covzs ≡ s.covzs)
      × (t.cluster_num ≡ s.cluster_num)

  pub Keeps-SameSetup : {s t : Zns E} → Keeps E s t → SameSetup s t
  Keeps-SameSetup k = (k.cap, k.bits, k.setup.0, k.setup.1)

  pub SameSetup-trans : (s t u : Zns E) → SameSetup s t → SameSetup t u → SameSetup s u
  SameSetup-trans s t u a b = (b.0 ∙ a.0, b.1 ∙ a.1, b.2 ∙ a.2, b.3 ∙ a.3)
