-- ===== src/Lru.antt =====
-- src/zalp.cpp and include/zalp.h, class `LRU`. `std::unordered_map` is a function from keys; a key
-- that is not there gives an iterator that is not valid.
pub mod Track
pub mod Runs
use zone_buffer.Base.{
  ℕ, ◌==◌, Option, none, some, if◌then◌else◌, Result, ok, undefined, or_fault, ◌>>=◌,
}
use zone_buffer.StdList
use zone_buffer.StdList.{Iter, StdList, back, pop_back}

pub record Lru : Type 0 where
  pub l_list : StdList
  pub l_map : ℕ → Option Iter

unfoldable pub init : Lru
init = record { l_list = StdList.empty; l_map = λ id. none }

-- The map keeps its entry for the victim.
unfoldable pub get_victim : Lru → Result (ℕ × Lru)
get_victim l = do
  victim ← back l.l_list
  rest ← pop_back l.l_list
  ok (victim, record l { l_list = rest })

unfoldable pub push : ℕ → Lru → Lru
push id l =
    let (rest, begin) = StdList.push_front id l.l_list in
    record { l_list = rest; l_map = λ j. if id == j then some begin else l.l_map j }

unfoldable pub update : ℕ → Lru → Result Lru
update id l = do
  iter ← or_fault (l.l_map id) undefined
  rest ← StdList.erase iter l.l_list
  ok (push id (record l { l_list = rest }))
