-- ===== src/Buffer/Rounds/Victims.antt =====
-- Which candidates the levels of `evict_victim_ach` take.
use zone_buffer.Base.{
  ℕ, suc, ◌+◌, ◌≡◌, ◌≤◌, refl, ◌∙◌, ap, sym, subst, Bool, true, false, not, List, [], ◌∷◌, ◌==◌,
  if◌then◌else◌, Option, none, some, arith, ok, fault, or_fault, out_of_range, >>=-parts, count,
  length,
}
use zone_buffer.Base.Int.{ℤ, ltb_ℤ}
use zone_buffer.Env.{Env}
use zone_buffer.Buffer.{Buffer, get_page_id}
use zone_buffer.Buffer.Ach.{victims_of, ach_cluster, sub_int, threshold}

-- One candidate more, if it is taken.
abbrev picked : Bool → ℕ → List ℕ → List ℕ
picked hit i rest = if hit then i ∷ rest else rest

picked-le :
    (hit : Bool) (i : ℕ) (rest : List ℕ) (k : ℕ)
    → count k (picked hit i rest) ≤ (if i == k then 1 else 0) + count k rest
unfolding count
picked-le true i rest k = omega arith
picked-le false i rest k = omega arith

length-picked :
    (hit : Bool) (i : ℕ) (rest : List ℕ) → length (picked hit i rest) ≤ suc (length rest)
length-picked true i rest = omega arith
length-picked false i rest = omega arith

picked-once :
    (hit other : Bool) (i : ℕ) (xs ys : List ℕ) (k : ℕ)
    → other ≡ not hit
    → count k (picked hit i xs) + count k (picked other i ys)
      ≡ (if i == k then 1 else 0) + (count k xs + count k ys)
unfolding count
picked-once true true i xs ys k e = cc
picked-once true false i xs ys k e = omega arith
picked-once false true i xs ys k e = omega arith
picked-once false false i xs ys k e = cc

module _ (E : Env) where
  some_injective : {x y : ℤ × ℤ} → some x ≡ some y → x ≡ y
  some_injective {x} e = ap (λ o. elim o [ none ↦ x | some a ↦ a ]) e

  -- The parts of a call of `victims_of` that goes well.
  abbrev Parts : ℕ → ℕ → List ℕ → Buffer E → List ℕ → Type 0
  Parts cf i candidates b v =
      (acht : ℤ × ℤ) × (hit : Bool) × (rest : List ℕ) × (E.maps.find (get_page_id E i b) b.access_h
        ≡ some acht)
      × (ach_cluster E cf acht ≡ ok hit)
      × (victims_of E cf candidates b ≡ ok rest)
      × ((if hit then i ∷ rest else rest) ≡ v)

  ok_injective {ℓ} : {A : Type ℓ} {x y : A} → ok x ≡ ok y → x ≡ y
  ok_injective {x} e = ap (λ r. elim r [ ok a ↦ a | fault f ↦ x ]) e

  or_fault-ok {ℓ} :
      {A : Type ℓ} (o : Option A) (a : A) → or_fault o out_of_range ≡ ok a → o ≡ some a
  or_fault-ok none a e = cc
  or_fault-ok (some x) a e = ap some (ok_injective e)

  parts :
      (cf i : ℕ) (candidates : List ℕ) (b : Buffer E) (v : List ℕ)
      → victims_of E cf (i ∷ candidates) b ≡ ok v
      → Parts cf i candidates b v
  unfolding victims_of
  parts cf i candidates b v run =
      let look = E.maps.find (get_page_id E i b) b.access_h in
      let (acht, after, found) = >>=-parts _ (or_fault look out_of_range) v run in
      let (hit, then_rest, level) = >>=-parts _ (ach_cluster E cf acht) v after in
      let (rest, last, others) = >>=-parts _ (victims_of E cf candidates b) v then_rest in
      (acht, hit, rest, or_fault-ok look acht found, level, others, ok_injective last)

  -- A page is in exactly one of the levels 1 and 2.
  ach_cluster-opposite :
      (acht : ℤ × ℤ) (hit other : Bool)
      → ach_cluster E 1 acht ≡ ok hit
      → ach_cluster E 2 acht ≡ ok other
      → other ≡ not hit
  unfolding ach_cluster
  ach_cluster-opposite acht hit other near far =
      let (d, e, at) = >>=-parts _ (sub_int acht.1 acht.0) hit near in
      let (d', e', at') = >>=-parts _ (sub_int acht.1 acht.0) other far in
      let same = ok_injective (sym at' ∙ at) in
      sym (ok_injective e') ∙ ap (λ x. not (ltb_ℤ x (threshold E))) same ∙ ap not (ok_injective e)

  -- The victims are among the candidates.
  pub victims_of-within :
      (cf : ℕ) (candidates : List ℕ) (b : Buffer E) (v : List ℕ)
      → victims_of E cf candidates b ≡ ok v
      → ((k : ℕ) → count k v ≤ count k candidates) × (length v ≤ length candidates)
  unfolding victims_of count
  victims_of-within cf [] b v run =
      let e = ok_injective run in
      (λ k. subst (λ x. count k x ≤ 0) e (omega arith), subst (λ x. length x ≤ 0) e (omega arith))
  victims_of-within cf (i ∷ candidates) b v run =
      let (acht, hit, rest, found, level, others, last) = parts cf i candidates b v run in
      let (inside, short) = victims_of-within cf candidates b rest others in
      (
        λ k. omega (arith, picked-le hit i rest k, ap (count k) last, inside k),
        omega (arith, length-picked hit i rest, ap length last, short),
      )

  -- The two levels of the pages that were evicted before share the candidates.
  pub victims_of-split :
      (candidates : List ℕ) (b : Buffer E) (v w : List ℕ)
      → victims_of E 1 candidates b ≡ ok v
      → victims_of E 2 candidates b ≡ ok w
      → (k : ℕ) → count k v + count k w ≡ count k candidates
  unfolding victims_of count
  victims_of-split [] b v w near far k =
      let e = ok_injective near in
      let f = ok_injective far in
      subst (λ x. count k x + count k w ≡ 0) e (subst (λ y. 0 + count k y ≡ 0) f refl)
  victims_of-split (i ∷ candidates) b v w near far k =
      let (acht, hit, rest, found, level, others, last) = parts 1 i candidates b v near in
      let (acht', hit', rest', found', level', others', last') = parts 2 i candidates b w far in
      let rec = victims_of-split candidates b rest rest' others others' k in
      let same = some_injective (sym found' ∙ found) in
      let opposite =
        ach_cluster-opposite acht hit hit' level (ap (ach_cluster E 2) (sym same) ∙ level') in
      omega (
        arith,
        picked-once hit hit' i rest rest' k opposite,
        ap (count k) last,
        ap (count k) last',
        rec,
      )
