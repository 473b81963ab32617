-- ===== src/Zns/Mapping.antt =====
-- The table of page addresses against the bitmap. `find` gives the address of a page id, `bit` says
-- which pages of the device are in use, and `fill i` is the number of pages written in zone `i`. A
-- page of the device is in use exactly when one page id has it, and it has been written.
use native.Mathlib.Nat.{mul-div_cancel}
use zone_buffer.Base.{
  ℕ, suc, ◌*◌, ◌/◌, ◌%◌, ◌≡◌, ◌≢◌, ◌<◌, ◌∙◌, ap, sym, inl, inr, Bool, true, false, Option, none,
  some, ◌==◌, if◌then◌else◌, arith, Bool-cases,
}
use zone_buffer.Zns.{update}

pub page_injective : (p k l : ℕ) → 0 < p → k * p ≡ l * p → k ≡ l
page_injective p k l h e = sym (mul-div_cancel k h) ∙ ap (λ (a : ℕ). a / p) e ∙ mul-div_cancel l h

module _ (p m n : ℕ) where
  pub record IsMapping (fill : ℕ → ℕ) (find : ℕ → Option ℕ) (bit : ℕ → Bool) : Type 0 where
    pub mapped : (id a : ℕ) → find id ≡ some a → (k : ℕ) × (a ≡ k * p) × (bit k ≡ true)
    pub written : (k : ℕ) → bit k ≡ true → (k / m < n) × (k % m < fill (k / m))
    pub distinct : (i j a : ℕ) → find i ≡ some a → find j ≡ some a → i ≡ j
    pub owned : (k : ℕ) → bit k ≡ true → (id : ℕ) × (find id ≡ some (k * p))

  module _ (p_pos : 0 < p) {fill : ℕ → ℕ} {find : ℕ → Option ℕ} {bit : ℕ → Bool}
      (v : IsMapping fill find bit) where
    -- A page id loses its page, and the page its bit.
    pub drop-IsMapping :
        (id k : ℕ) (find' : ℕ → Option ℕ)
        → find id ≡ some (k * p)
        → ((j : ℕ) → find' j ≡ (if id == j then none else find j))
        → IsMapping fill find' (update bit k false)
    drop-IsMapping id k find' e f = record {
      mapped = λ j a h.
          let old : find j ≡ some a = ground (arith, f j) in
          let other : id ≢ j = ground (arith, f j) in
          let (l, at, b) = v.mapped j a old in
          (
            l,
            at,
            ground (arith, λ (same : k ≡ l). other (v.distinct id j a (rw (at, ← same) e) old)),
          );
      written = λ l h. v.written l (ground arith);
      distinct = λ i j a h h'. v.distinct i j a (ground (arith, f i)) (ground (arith, f j));
      owned = λ l h.
          let other : k ≢ l = ground arith in
          let (j, g) = v.owned l (ground arith) in
          (j, ground (arith, f j, page_injective p k l p_pos));
    }

    -- A page id without a page gets the next page of a zone.
    pub place-IsMapping :
        (id k : ℕ) (find' : ℕ → Option ℕ)
        → k / m < n
        → k % m ≡ fill (k / m)
        → find id ≡ none
        → ((j : ℕ) → find' j ≡ (if id == j then some (k * p) else find j))
        → IsMapping (update fill (k / m) (suc (fill (k / m)))) find' (update bit k true)
    place-IsMapping id k find' zone next new f =
        let unset : bit k ≢ true = λ h. omega (arith, (v.written k h).1) in
        let fresh : (j : ℕ) → find j ≢ some (k * p) = λ j h.
          let (l, at, b) = v.mapped j (k * p) h in ground (arith, page_injective p k l p_pos) in
        record {
          mapped = λ j a h. elim (Bool-cases (id == j)) [
            | inl same ↦ (k, ground (arith, f j), ground arith)
            | inr other ↦
                let (l, at, b) = v.mapped j a (ground (arith, f j)) in (l, at, ground arith)
          ];
          written = λ l h. ground (arith, v.written l);
          distinct = λ i j a h h'. ground (arith, f i, f j, v.distinct i j a, fresh i, fresh j);
          owned = λ l h. elim (Bool-cases (k == l)) [
            | inl same ↦ (id, ground (arith, f id))
            | inr other ↦ let (j, g) = v.owned l (ground arith) in (j, ground (arith, f j))
          ];
        }
