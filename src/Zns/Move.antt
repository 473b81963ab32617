-- ===== src/Zns/Move.antt =====
-- The pages of a zone that is recycled, moved one by one: what is stored stays as it is.
use zone_buffer.Base.{
  ℕ, suc, ◌+◌, ◌*◌, ◌/◌, ◌≡◌, ◌<◌, ◌≤◌, refl, ◌∙◌, ap, sym, subst, inl, inr, ◌⊎◌, Bool, true, false,
  List, [], ◌∷◌, some, ◌==◌, if◌then◌else◌, arith, Result, fault, assert_failed, Returns,
  Bool-cases, length, length-range_from, map, range_from,
}
use zone_buffer.Base.Int.{ℤ}
use zone_buffer.Env.{Env}
use zone_buffer.Zns.{Zns, Frame, bytes_on, read_id, add32}
use zone_buffer.Zns.Consistent.{IsConsistent}
use zone_buffer.Zns.Valid.{get_valid-meta_page}
use zone_buffer.Zns.Pages.{HasRoom}
use zone_buffer.Zns.Keeps.{
  Keeps-refl, IsReadable, IsReliable, pread-bytes_on, Keeps, Keeps-trans, Keeps-IsConsistent,
  counters-Keeps,
}
use zone_buffer.Zns.Select.Cases.{select_cases}
use zone_buffer.Zns.Spares.{spares, NoSpare-spares, spares-zones}
use zone_buffer.Zns.Stored.{
  stored, frame_at, SameSetup, SameSetup-trans, Keeps-SameSetup, Keeps-stored,
}
use zone_buffer.Zns.Rewrite.{Leaves, write_page_gc_chosen}
use zone_buffer.Zns.Write.{select, write_page_gc, inc_write_count}
use zone_buffer.Zns.Gc.{move_page}

length-map : (f : ℕ → ℕ) (xs : List ℕ) → length (map f xs) ≡ length xs
length-map f [] = refl
length-map f (x ∷ xs) = ap suc (length-map f xs)

spend_one : {x y : ℕ} (b : Bool) → b ≡ true → x ≤ suc y → x ≤ (if b then 1 else 0) + y
spend_one b e h = ground (arith, e, h)

spend_alike :
    {x x' : ℕ} {b b' : Bool} (y : ℕ)
    → x' ≡ x
    → b' ≡ b
    → x' ≤ (if b' then 1 else 0) + y
    → x ≤ (if b then 1 else 0) + y
spend_alike y e f h = ground (arith, e, f, h)

module _ (E : Env) (m : ℕ) where
  open E.params use {page_size, max_zone_num}

  pub length-bytes_on : (n a : ℕ) (s : Zns E) → length (bytes_on E n a s) ≡ n
  unfolding bytes_on
  length-bytes_on n a s =
      length-map (λ b. E.device.byte b s.device) (range_from a n) ∙ length-range_from a n

  -- The controller is in order, and each frame that is stored carries its page id.
  pub record IsSound (s : Zns E) : Type 0 where
    pub fill : ℕ → ℕ
    pub consistent : IsConsistent E m fill s
    pub covzs : s.covzs ≡ true
    pub clusters : 0 < s.cluster_num
    pub big : page_size ≤ s.cap
    pub labels : (id : ℕ) (frame : Frame) → stored E s id ≡ some frame → read_id frame ≡ id

  -- The same frames are stored under the same page ids.
  pub record SameStore (s t : Zns E) : Type 0 where
    pub sound : IsSound t
    pub setup : SameSetup E s t
    pub holds : (id : ℕ) → stored E t id ≡ stored E s id

  -- A page in use costs at most one spare zone.
  abbrev pub Spends : ℕ → Zns E → Zns E → Type 0
  Spends k s t = spares E s ≤ (if s.meta_page k then 1 else 0) + spares E t

  -- The call keeps the store and takes page `k` out of use, or it is in use and no spare zone is left.
  abbrev pub Vacates : ℕ → Zns E → Result (Zns E) → Type 0
  Vacates k s r =
      Returns r (λ t. SameStore s t × Leaves E m k s t × Spends k s t)
      ⊎ (r ≡ fault assert_failed) × (spares E s ≡ 0) × (s.meta_page k ≡ true)

  pub sound_after :
      {s t : Zns E} (sound : IsSound s) (fill : ℕ → ℕ)
      → IsConsistent E m fill t
      → SameSetup E s t
      → ((id : ℕ) → stored E t id ≡ stored E s id)
      → SameStore s t
  sound_after {s} {t} sound fill c setup holds = record {
    sound = record {
      fill = fill;
      consistent = c;
      covzs = setup.2 ∙ sound.covzs;
      clusters = rw setup.3 sound.clusters;
      big = rw setup.0 sound.big;
      labels = λ id frame e. sound.labels id frame (sym (holds id) ∙ e);
    };
    setup = setup;
    holds = holds;
  }

  pub Keeps-SameStore : {s t : Zns E} → IsSound s → Keeps E s t → SameStore s t
  Keeps-SameStore sound keeps =
      sound_after sound sound.fill (Keeps-IsConsistent E keeps sound.consistent)
        (Keeps-SameSetup E keeps) (Keeps-stored E keeps)

  pub SameStore-trans : {s t u : Zns E} → SameStore s t → SameStore t u → SameStore s u
  SameStore-trans {s} {t} {u} a b = record {
    sound = b.sound;
    setup = SameSetup-trans E s t u a.setup b.setup;
    holds = λ id. b.holds id ∙ a.holds id;
  }

  no_choice :
      (tries id : ℕ) (cf : ℤ) (frame : Frame) (s : Zns E)
      → select E cf 1 s ≡ fault assert_failed
      → write_page_gc E (suc tries) cf id frame s ≡ fault assert_failed
  unfolding write_page_gc
  no_choice tries id cf frame s e = rw e refl

  as_it_was :
      (s : Zns E) (id j : ℕ) (frame : Frame)
      → stored E s id ≡ some frame
      → (if id == j then some frame else stored E s j) ≡ stored E s j
  as_it_was s id j frame e = elim (Bool-cases (id == j)) [
    | inl same ↦ let i : id ≡ j = ground (arith, same) in rw same (sym e ∙ ap (stored E s) i)
    | inr other ↦ rw other refl
  ]

  -- A frame that is written again under its own page id.
  rewritten :
      (rel : IsReliable E) (tries id : ℕ) (cf : ℤ) (frame : Frame) (s : Zns E) (k : ℕ)
      → IsSound s
      → E.maps.find id s.table ≡ some (k * page_size)
      → stored E s id ≡ some frame
      → length frame ≡ page_size
      → s.meta_page k ≡ true
      → Vacates k s (write_page_gc E (suc tries) cf id frame s)
  rewritten rel tries id cf frame s k sound found at whole set =
      elim (select_cases E rel cf 1 sound.consistent sound.covzs sound.clusters
        (omega (arith, sound.big))) [
          | inr (fails, taken) ↦
              inr (no_choice tries id cf frame s fails, NoSpare-spares E s taken, set)
          | inl ((w, t), run, (keeps, space, but)) ↦
              let c = Keeps-IsConsistent E keeps sound.consistent in
              let z = space.0 in
              let room : HasRoom E m sound.fill w t =
                (z, omega (arith, space.2, c.pointer w z, c.origin w z), space.1) in
              let (u, done, (stores, leaves, spent)) =
                write_page_gc_chosen E m sound.fill s id frame whole rel tries w k cf t run keeps
                  room c (ap (E.maps.find id) keeps.table ∙ found) in
              inl (
                u,
                done,
                (
                  sound_after sound stores.fill stores.consistent stores.setup
                      (λ j. stores.holds j ∙ as_it_was s id j frame at),
                  leaves,
                  spend_one (s.meta_page k) set (spent but),
                ),
              )
        ]

  counted-Vacates :
      {k : ℕ} {s t : Zns E} {r : Result (Zns E)}
      → IsSound s
      → Keeps E s t
      → t.zone ≡ s.zone
      → Vacates k t r
      → Vacates k s r
  counted-Vacates {k = k} {s = s} {t = t} sound keeps zones (inl (u, run, (same, leaves, spent))) =
      inl (
        u,
        run,
        (
          SameStore-trans (Keeps-SameStore sound keeps) same,
          record {
            closed = λ i e. leaves.closed i (keeps.closed i e);
            bits = λ l e. rw (← keeps.meta_page) (leaves.bits l (keeps.closed (l / m) e));
          },
          spend_alike (spares E u) (spares-zones E s t zones)
              (ap (λ (f : ℕ → Bool). f k) keeps.meta_page) spent,
        ),
      )
  counted-Vacates {k = k} {s = s} {t = t} sound keeps zones (inr (fails, none_left, set)) =
      inr (fails, sym (spares-zones E s t zones) ∙ none_left, rw (← keeps.meta_page) set)

  -- Where the page is not in use, nothing has to be done.
  unset-Leaves : (k : ℕ) (s : Zns E) → s.meta_page k ≡ false → Leaves E m k s s
  unset-Leaves k s unset = record {
    closed = λ i e. e;
    bits = λ l e. elim (Bool-cases (k == l)) [
      | inl same ↦
          let at : k ≡ l = ground (arith, same) in rw same (ap s.meta_page (sym at) ∙ unset)
      | inr other ↦ rw other refl
    ];
  }

  -- What a recycling counts for each page that it moves.
  abbrev pub IsCount : (Zns E → Zns E) → Type 0
  IsCount note = (s : Zns E) → Keeps E s (note s) × ((note s).zone ≡ s.zone)

  module _ (rel : IsReliable E) (readable : IsReadable E) (tries : ℕ) (cf_of : Zns E → ℤ)
      (note : Zns E → Zns E) (count : IsCount note) where
    counted_page : (s : Zns E) → Keeps E s (inc_write_count E 1 (note s))
    counted_page s =
        Keeps-trans E (count s).0
          (counters-Keeps E (note s) (note s).io_count (add32 (note s).write_count 1))

    -- A page in use is read and written again.
    page_again :
        (l : ℕ) (s : Zns E)
        → IsSound s
        → s.meta_page l ≡ true
        → let buf : Frame = bytes_on E page_size (l * page_size) s in
          Vacates l s (write_page_gc E (suc tries) (cf_of s) (read_id buf) buf s)
    page_again l s sound set =
        let buf : Frame = bytes_on E page_size (l * page_size) s in
        let (id, found) = sound.consistent.mapping.owned l set in
        let at : stored E s id ≡ some buf = ap (frame_at E s) found in
        subst (λ i. Vacates l s (write_page_gc E (suc tries) (cf_of s) i buf s))
          (sym (sound.labels id buf at))
          (rewritten rel tries id (cf_of s) buf s l sound found at
            (length-bytes_on page_size (l * page_size) s) set)

    -- `move_page` of any page of the device.
    pub move_page-Vacates :
        (l : ℕ) (s : Zns E)
        → l / m < max_zone_num
        → IsSound s
        → Vacates l s (move_page E (suc tries) cf_of note (l * page_size) s)
    unfolding move_page
    move_page-Vacates l s h sound =
        let read = get_valid-meta_page E m sound.consistent.geometry l h in
        elim (Bool-cases (s.meta_page l)) [
          | inr unset ↦ inl (
            s,
            rw (read, unset) refl,
            (
              Keeps-SameStore sound (Keeps-refl E s),
              unset-Leaves l s unset,
              rw unset (omega arith),
            ),
          )
          | inl set ↦
              let t = inc_write_count E 1 (note s) in
              let keeps = counted_page s in
              let again =
                page_again l t (Keeps-SameStore sound keeps).sound (rw keeps.meta_page set) in
              let buf : Frame = bytes_on E page_size (l * page_size) t in
              let run : move_page E (suc tries) cf_of note (l * page_size) s
                  ≡ write_page_gc E (suc tries) (cf_of t) (read_id buf) buf t =
                rw (read, set, pread-bytes_on E readable page_size (l * page_size) t) refl in
              subst (Vacates l s) (sym run) (counted-Vacates sound keeps (count s).1 again)
        ]
