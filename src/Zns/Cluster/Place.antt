-- ===== src/Zns/Cluster/Place.antt =====
-- The loop of `write_cluster` over its page list: each page is moved as by a write, while the write
-- pointer stays behind by `q` bytes.
use zone_buffer.Base.{
  ℕ, suc, ◌+◌, ◌*◌, ◌≡◌, ◌<◌, ◌≤◌, refl, ◌∙◌, ap, sym, subst, Option, some, List, [], ◌∷◌, ◌==◌,
  ==_iff, if◌then◌else◌, inl, inr, Bool-cases, arith, Returns, length,
}
use zone_buffer.Env.{Env}
use zone_buffer.Zns.Stored.{SameSetup}
use zone_buffer.Zns.{exp_open, Zns, update}
use zone_buffer.Zns.Consistent.{IsConsistent, found-page}
use zone_buffer.Zns.Pages.{HasRoom}
use zone_buffer.Zns.Write.{place_pages}
use zone_buffer.Zns.Cluster.{shifted}
use zone_buffer.Zns.Cluster.Step.{
  placed, place_lem, placed-IsConsistent, placed-pointer, placed-find, placed-alike, plus_none,
  plus_one, one_fits, rest_fits,
}

module _ (E : Env) (m : ℕ) where
  open E.params use {page_size, max_zone_num}

  -- Every page id has an address.
  abbrev pub Known : List ℕ → (ℕ → Option ℕ) → Type 0
  Known [] f = Unit {0}
  Known (id ∷ ids) f = ((a : ℕ) × (f id ≡ some a)) × Known ids f

  Known-more :
      (ids : List ℕ) (f g : ℕ → Option ℕ)
      → ((j a : ℕ) → f j ≡ some a → (b : ℕ) × (g j ≡ some b))
      → Known ids f
      → Known ids g
  Known-more [] f g h known = tt
  Known-more (id ∷ ids) f g h (found, known) = (h id found.0 found.1, Known-more ids f g h known)

  -- The pages get the addresses from `a` on, one after the other.
  abbrev pub readdress : ℕ → List ℕ → (ℕ → Option ℕ) → ℕ → Option ℕ
  readdress a [] f = f
  readdress a (id ∷ ids) f = readdress (a + page_size) ids (λ j. if id == j then some a else f j)

  readdress-congr :
      (a : ℕ) (ids : List ℕ) (f g : ℕ → Option ℕ)
      → ((j : ℕ) → f j ≡ g j)
      → (j : ℕ) → readdress a ids f j ≡ readdress a ids g j
  readdress-congr a [] f g h j = h j
  readdress-congr a (id ∷ ids) f g h j =
      readdress-congr (a + page_size) ids _ _ (λ i. ap (λ o. if id == i then some a else o) (h i)) j

  pub record HasPlaced (w q a : ℕ) (ids : List ℕ) (t u : Zns E) : Type 0 where
    pub fill : ℕ → ℕ
    pub consistent : IsConsistent E m fill (shifted E w (q + length ids * page_size) u)
    pub pointer : (u.zone w).wp ≡ (t.zone w).wp
    pub device : u.device ≡ t.device
    pub alike : (i : ℕ) → ((u.zone i).cond ≡ (t.zone i).cond) × ((u.zone i).cf ≡ (t.zone i).cf)
    pub setup : SameSetup E t u
    pub table : (j : ℕ) → E.maps.find j u.table ≡ readdress a ids (λ i. E.maps.find i t.table) j

  more :
      (id a : ℕ) (u t : Zns E)
      → ((j : ℕ) → E.maps.find j u.table ≡ (if id == j then some a else E.maps.find j t.table))
      → (j b : ℕ) → E.maps.find j t.table ≡ some b
      → (x : ℕ) × (E.maps.find j u.table ≡ some x)
  more id a u t looked j b e = elim (Bool-cases (id == j)) [
    | inl same ↦ (a, looked j ∙ rw same refl)
    | inr other ↦ (b, looked j ∙ rw other e)
  ]

  -- The loop places every page.
  pub place_pages-HasPlaced :
      (w q a : ℕ) (ids : List ℕ) (fill : ℕ → ℕ) (t : Zns E)
      → IsConsistent E m fill (shifted E w q t)
      → w < max_zone_num
      → (t.zone w).cond ≡ exp_open
      → fill w * page_size + length ids * page_size ≤ t.cap
      → a ≡ (t.zone w).wp + q
      → Known ids (λ i. E.maps.find i t.table)
      → Returns (place_pages E a ids t) (HasPlaced w q a ids t)
  unfolding place_pages
  place_pages-HasPlaced w q a [] fill t c below opened fits at known = (
    t,
    refl,
    record {
      fill = fill;
      consistent = subst (λ n. IsConsistent E m fill (shifted E w n t)) (plus_none q page_size) c;
      pointer = refl;
      device = refl;
      alike = λ i. (refl, refl);
      setup = (refl, refl, refl, refl);
      table = λ j. refl;
    },
  )
  place_pages-HasPlaced w q a (id ∷ ids) fill t c below opened fits at ((b, found), known) =
      let (k, page, _, _) = found-page E m c id b found in
      let room : HasRoom E m fill w (shifted E w q t) = (
        below,
        one_fits (fill w * page_size) page_size (length ids) t.cap fits,
        rw ((==_iff w w).1 refl) opened,
      ) in
      let f = found ∙ ap some page in
      let u = placed E m fill w q id k t in
      let looked = placed-find E m fill w q t c room id k f in
      let same : (j : ℕ)
          → (if id == j then some ((t.zone w).wp + q) else E.maps.find j t.table)
            ≡ (if id == j then some a else E.maps.find j t.table) =
        λ j. ap (λ x. if id == j then some x else E.maps.find j t.table) (sym at) in
      let (v, run, p) =
        place_pages-HasPlaced w (q + page_size) (a + page_size) ids (update fill w (suc (fill w))) u
          (placed-IsConsistent E m fill w q t c room id k f) below
          (placed-pointer E m fill w q t c room id k f).1
          (rw ((==_iff w w).1 refl) (rest_fits (fill w) page_size (length ids) t.cap fits))
          (omega (arith, at, (placed-pointer E m fill w q t c room id k f).0))
          (Known-more ids _ _ (more id a u t (λ j. looked j ∙ same j)) known) in
      (
        v,
        ap (λ x. place_pages E x (id ∷ ids) t) at
            ∙ place_lem E m fill w q t c room id k f ids
            ∙ ap (λ x. place_pages E (x + page_size) ids u) (sym at)
            ∙ run,
        record {
          fill = p.fill;
          consistent =
              subst (λ n. IsConsistent E m p.fill (shifted E w n v))
                (plus_one q page_size (length ids)) p.consistent;
          pointer = p.pointer ∙ (placed-pointer E m fill w q t c room id k f).0;
          device = p.device;
          alike = λ i.
              let (c', f') = p.alike i in
              let (c'', f'') = placed-alike E m fill w q t c room id k f i in (c' ∙ c'', f' ∙ f'');
          setup = p.setup;
          table =
              λ j. p.table j ∙ readdress-congr (a + page_size) ids _ _ (λ i. looked i ∙ same i) j;
        },
      )
