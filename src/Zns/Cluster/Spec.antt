-- ===== src/Zns/Cluster/Spec.antt =====
-- What a cluster of pages that is written one after the other makes of the store.
use native.Mathlib.Nat.{}
use zone_buffer.Base.{
  ℕ, ◌+◌, ◌*◌, ◌/◌, ◌%◌, ◌≡◌, ◌<◌, ◌≤◌, refl, ◌∙◌, ap, sym, subst, some, Option, List, [], ◌∷◌,
  ◌==◌, if◌then◌else◌, inl, inr, Bool-cases, arith, length, take, drop, get_or, map, range_from,
}
use zone_buffer.Env.{Env}
use zone_buffer.Zns.{Zns, Frame, bytes_on}
use zone_buffer.Zns.Bytes.{bytes_back, lt_page}
use zone_buffer.Zns.Stored.{frame_at}
use zone_buffer.Zns.Cluster.Place.{readdress}
use zone_buffer.Zns.Cluster.Batches.{length-take, length-drop, get_or-take, get_or-drop}

-- A page that is in use is not among those from page `w * m + f` on in zone `w`.
pub below_zone :
    (l m w f p : ℕ) → l / m < w → l ≡ l / m * m + l % m → l % m < m → l * p + p ≤ (w * m + f) * p
below_zone l m w f p h e lt = lt_page l (w * m + f) p (omega (arith, lt_page (l / m) w m h, e, lt))

mul_mono : (x y p : ℕ) → x ≤ y → x * p ≤ y * p
mul_mono x y p h = grind arith

pub above_zone :
    (l m w f p n cap : ℕ)
    → w < l / m
    → l ≡ l / m * m + l % m
    → f * p + n * p ≤ cap
    → cap ≤ m * p
    → (w * m + f) * p + n * p ≤ l * p
above_zone l m w f p n cap h e fits big =
    let zone : w * m + m ≤ l = omega (arith, lt_page w (l / m) m h, e) in
    let bytes = mul_mono (w * m + m) l p zone in grind (arith, bytes, fits, big)

pub in_zone :
    (l m w f p : ℕ) → l / m ≡ w → l ≡ l / m * m + l % m → l % m < f → l * p + p ≤ (w * m + f) * p
in_zone l m w f p h e lt =
    let same = ap (λ x. x * m) h in lt_page l (w * m + f) p (omega (arith, same, e, lt))

module _ (E : Env) where
  open E.params use {page_size, max_zone_num, write_batch}

  -- The pages of the buffer are stored under the page ids, one after the other.
  abbrev pub put_pages : List ℕ → Frame → (ℕ → Option Frame) → ℕ → Option Frame
  put_pages [] buffer f = f
  put_pages (id ∷ ids) buffer f =
      put_pages ids (drop page_size buffer)
        (λ j. if id == j then some (take page_size buffer) else f j)

  pub put_pages-congr :
      (ids : List ℕ) (buffer : Frame) (f g : ℕ → Option Frame)
      → ((j : ℕ) → f j ≡ g j)
      → (j : ℕ) → put_pages ids buffer f j ≡ put_pages ids buffer g j
  put_pages-congr [] buffer f g h j = h j
  put_pages-congr (id ∷ ids) buffer f g h j =
      put_pages-congr ids (drop page_size buffer) _ _
        (λ i. ap (λ o. if id == i then some (take page_size buffer) else o) (h i)) j

  -- The device has `buffer` at `a`.
  abbrev pub HasBytes : Frame → ℕ → Zns E → Type 0
  HasBytes buffer a s =
      (i : ℕ) → i < length buffer → E.device.byte (a + i) s.device ≡ get_or buffer i 0

  bytes_on-first :
      (buffer : Frame) (a : ℕ) (s : Zns E)
      → HasBytes buffer a s
      → page_size ≤ length buffer
      → bytes_on E page_size a s ≡ take page_size buffer
  unfolding bytes_on
  bytes_on-first buffer a s has fits =
      let whole = length-take page_size buffer fits in
      subst (λ n. map (λ x. E.device.byte x s.device) (range_from a n) ≡ take page_size buffer)
        whole
        (bytes_back (take page_size buffer) a (λ x. E.device.byte x s.device)
          λ i lt.
            has i (omega (arith, lt, whole, fits))
            ∙ sym (get_or-take page_size i buffer (omega (arith, lt, whole))))

  HasBytes-rest :
      (buffer : Frame) (a : ℕ) (s : Zns E)
      → HasBytes buffer a s
      → page_size ≤ length buffer
      → HasBytes (drop page_size buffer) (a + page_size) s
  HasBytes-rest buffer a s has fits i lt =
      let at : a + page_size + i ≡ a + (page_size + i) = omega arith in
      ap (λ x. E.device.byte x s.device) at
      ∙ has (page_size + i) (omega (arith, lt, length-drop page_size buffer fits))
      ∙ sym (get_or-drop page_size i buffer)

  one_more :
      (id i a : ℕ) (buffer : Frame) (f : ℕ → Option ℕ) (s : Zns E)
      → bytes_on E page_size a s ≡ take page_size buffer
      → frame_at E s (if id == i then some a else f i)
        ≡ (if id == i then some (take page_size buffer) else frame_at E s (f i))
  one_more id i a buffer f s read = elim (Bool-cases (id == i)) [
    | inl same ↦ rw same (ap some read)
    | inr other ↦ rw other refl
  ]

  -- What is read through the new addresses is the buffer.
  pub readdress-put_pages :
      (ids : List ℕ) (a : ℕ) (buffer : Frame) (f : ℕ → Option ℕ) (s : Zns E)
      → HasBytes buffer a s
      → length buffer ≡ length ids * page_size
      → (j : ℕ)
      → frame_at E s (readdress E 0 a ids f j) ≡ put_pages ids buffer (λ i. frame_at E s (f i)) j
  readdress-put_pages [] a buffer f s has size j = refl
  readdress-put_pages (id ∷ ids) a buffer f s has size j =
      let fits : page_size ≤ length buffer = grind (arith, size) in
      readdress-put_pages ids (a + page_size) (drop page_size buffer) _ s
        (HasBytes-rest buffer a s has fits) (grind (arith, size, length-drop page_size buffer fits))
        j
      ∙ put_pages-congr ids (drop page_size buffer) _ _
          (λ i. one_more id i a buffer f s (bytes_on-first buffer a s has fits)) j
