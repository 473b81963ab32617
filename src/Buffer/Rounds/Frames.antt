-- ===== src/Buffer/Rounds/Frames.antt =====
-- The frames of victims in a store, when no page has two frames that differ.
use zone_buffer.Base.{
  ℕ, ◌≡◌, ◌≢◌, ◌<◌, refl, ◌∙◌, ap, false, List, [], ◌∷◌, ◌==◌, ==_iff, if◌then◌else◌, Option, some,
  arith, inl, inr, Bool-cases, count,
}
use zone_buffer.Env.{Env}
use zone_buffer.Zns.{Frame}
use zone_buffer.Buffer.Flush.{put_frames}

-- The frames of the list that have the page of `i` are the frame of `i`.
abbrev pub SameFrames : List ℕ → (ℕ → ℕ) → (ℕ → Frame) → ℕ → Type 0
SameFrames is page frame i = (k : ℕ) → 0 < count k is → page k ≡ page i → frame k ≡ frame i

tail-SameFrames :
    (k : ℕ) (is : List ℕ) (page : ℕ → ℕ) (frame : ℕ → Frame) (i : ℕ)
    → SameFrames (k ∷ is) page frame i
    → SameFrames is page frame i
unfolding count
tail-SameFrames k is page frame i h l at = h l (omega (arith, at))

module _ (E : Env) (m : ℕ) (page : ℕ → ℕ) (frame : ℕ → Frame) where
  head_stays :
      (k i : ℕ) (f : ℕ → Option Frame)
      → f (page i) ≡ some (frame i)
      → (page k ≡ page i → frame k ≡ frame i)
      → (if page k == page i then some (frame k) else f (page i)) ≡ some (frame i)
  head_stays k i f there same = elim (Bool-cases (page k == page i)) [
    | inl here ↦ rw here (ap some (same ((==_iff (page k) (page i)).0 here)))
    | inr other ↦ rw other there
  ]

  -- A frame that is stored under its page stays.
  pub put_frames-keeps :
      (is : List ℕ) (i : ℕ) (f : ℕ → Option Frame)
      → SameFrames is page frame i
      → f (page i) ≡ some (frame i)
      → put_frames E m is page frame f (page i) ≡ some (frame i)
  unfolding count
  put_frames-keeps [] i f same there = there
  put_frames-keeps (k ∷ is) i f same there =
      put_frames-keeps is i _ (tail-SameFrames k is page frame i same)
        (head_stays k i f there (same k (ground arith)))

  -- A frame of the list is stored under its page.
  pub put_frames-stores :
      (is : List ℕ) (i : ℕ) (f : ℕ → Option Frame)
      → SameFrames is page frame i
      → 0 < count i is
      → put_frames E m is page frame f (page i) ≡ some (frame i)
  unfolding count
  put_frames-stores [] i f same mem = absurd (omega (arith, mem))
  put_frames-stores (k ∷ is) i f same mem = elim (Bool-cases (k == i)) [
    | inl here ↦
        let at = (==_iff k i).0 here in
        put_frames-keeps is i _ (tail-SameFrames k is page frame i same)
          (rw ((==_iff (page k) (page i)).1 (ap page at)) (ap (λ x. some (frame x)) at))
    | inr other ↦
        put_frames-stores is i _ (tail-SameFrames k is page frame i same)
          (ground (arith, other, mem))
  ]

  -- What is stored under the page of no frame of the list is not changed.
  pub put_frames-others :
      (is : List ℕ) (j : ℕ) (f : ℕ → Option Frame)
      → ((k : ℕ) → 0 < count k is → page k ≢ j)
      → put_frames E m is page frame f j ≡ f j
  unfolding count
  put_frames-others [] j f ne = refl
  put_frames-others (k ∷ is) j f ne =
      let apart : (page k == j) ≡ false = ground (arith, ne k (ground arith)) in
      put_frames-others is j _ (λ l mem. ne l (omega (arith, mem))) ∙ rw apart refl

  -- Where something is stored, something still is.
  pub put_frames-some :
      (is : List ℕ) (j : ℕ) (f : ℕ → Option Frame)
      → ((x : Frame) × (f j ≡ some x))
      → (x : Frame) × (put_frames E m is page frame f j ≡ some x)
  put_frames-some [] j f there = there
  put_frames-some (k ∷ is) j f (x, there) = elim (Bool-cases (page k == j)) [
    | inl here ↦ put_frames-some is j _ (frame k, rw here refl)
    | inr other ↦ put_frames-some is j _ (x, rw other there)
  ]
