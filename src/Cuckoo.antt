-- ===== src/Cuckoo.antt =====
-- `libcuckoo::cuckoohash_map`, a library that the program calls: the operations that the program
-- uses, with their documented behaviour for one caller at a time. Keys are numbers.
use zone_buffer.Base.{ℕ, ◌≡◌, Option, none, some, ◌==◌, if◌then◌else◌, is_some}

pub record Cuckoo : Type 1 where
  pub Map : Type 0 → Type 0
  pub empty : {V : Type 0} → Map V
  pub find : {V : Type 0} → ℕ → Map V → Option V
  -- `insert` leaves a key that is there as it is.
  pub insert : {V : Type 0} → ℕ → V → Map V → Map V
  pub insert_or_assign : {V : Type 0} → ℕ → V → Map V → Map V
  pub erase : {V : Type 0} → ℕ → Map V → Map V
  pub find-empty : {V : Type 0} (k : ℕ) → find k (empty {V = V}) ≡ none
  pub find-insert :
      {V : Type 0} (j k : ℕ) (v : V) (m : Map V)
      → find j (insert k v m)
        ≡ (if k == j then (if is_some (find j m) then find j m else some v) else find j m)
  pub find-insert_or_assign :
      {V : Type 0} (j k : ℕ) (v : V) (m : Map V)
      → find j (insert_or_assign k v m) ≡ (if k == j then some v else find j m)
  pub find-erase :
      {V : Type 0} (j k : ℕ) (m : Map V) → find j (erase k m) ≡ (if k == j then none else find j m)
