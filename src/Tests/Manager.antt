-- ===== src/Tests/Manager.antt =====
-- The buffer over that controller and those policies.
use zone_buffer.Base.{
  ℕ, ◌+◌, ◌≡◌, ◌≢◌, ◌<◌, ◌==◌, ltb, refl, none, some, arith, count, true, false, ok, fault, Returns,
  if◌then◌else◌,
}
use zone_buffer.Base.Int.{pos, negsuc}
use zone_buffer.StdList
use zone_buffer.StdList.{size}
use zone_buffer.Zalp.{Zalp, push, get_frame}
use zone_buffer.Zalp
use zone_buffer.Zalp.View.{view, pushed, without}
use zone_buffer.Buffer.{Buffer, Modes, default_modes}
use zone_buffer.Buffer
use zone_buffer.Buffer.Access.{fix_page, claim}
use zone_buffer.Buffer.Ach.{ach_cluster}
use zone_buffer.Base.{[], ◌∷◌, ◌>>=◌}
use zone_buffer.Buffer.Access.{read, write}
use zone_buffer.Buffer.Write.{IsWritten, write-IsWritten, write-read, read-mapped}
use zone_buffer.Zns.{little_endian, read_id}
use zone_buffer.Buffer.Evict.{choose_victims}
use zone_buffer.Buffer.Choose.{IsChoice, choose_victims-IsChoice}
use zone_buffer.Buffer.Levels.{ach_cluster-twice}
use zone_buffer.Buffer.Coherent.{IsCoherent, fix_page-hit}
use zone_buffer.Buffer.Claim.{IsClaimed, claim-IsClaimed, claim-forgets, fix_page-miss}
use zone_buffer.Zalp.Inv.{init-IsValid}
use zone_buffer.Zalp.Evict.{IsShort}
use zone_buffer.Tests.{machine, maps, params}
use zone_buffer.Tests.Policy.{crowded, crowded-IsValid, crowded-is_evict}
use zone_buffer.Tests.Controller.{one_page}

-- The buffer as it is constructed.
abbrev pub fresh : Buffer machine
unfolding Buffer.init
fresh = Buffer.init machine (default_modes machine) one_page

fresh-IsCoherent : IsCoherent machine fresh
unfolding Buffer.init Zalp.init count
fresh-IsCoherent = record {
  valid = init-IsValid maps params;
  resident = λ p f e. cc;
  marked = λ f. refl;
}

-- All frames are in use, frame 3 is the clean one, and page 10 + f lies in frame f.
abbrev busy : Buffer machine
unfolding Buffer.init
busy = record fresh {
  strategy = crowded;
  frame_to_page = λ f. 10 + f;
  frame_dirty = λ f. ltb f 3;
  page2frame = λ p. if p == 11 then some 1 else none;
}

busy-IsCoherent : IsCoherent machine busy
unfolding Buffer.init push StdList.push_front count
busy-IsCoherent = record {
  valid = crowded-IsValid;
  resident = λ p f e. (ground arith, ground arith);
  marked = λ f. ground arith;
}

fix_page-hit_example : Returns (fix_page machine true 11 busy) (λ (g, d).
    (g ≡ 1)
    × (busy.frame_to_page 1 ≡ 11)
    × IsCoherent machine d
    × (d.page2frame ≡ busy.page2frame)
    × (d.buffer ≡ busy.buffer)
    × (d.zdsm ≡ busy.zdsm)
    × (d.modes ≡ busy.modes)
    × (d.hit_count ≡ busy.hit_count + 1)
    × (view maps d.strategy ≡ pushed 1 (busy.frame_dirty 1) (without 1 (view maps busy.strategy))))
unfolding busy
fix_page-hit_example = fix_page-hit machine busy refl busy-IsCoherent 11 1 true refl

fresh-IsShort : ¬ IsShort params (view maps fresh.strategy)
unfolding Buffer.init Zalp.init StdList.push_back Zalp.push_all
fresh-IsShort h = omega (arith, h.1)

fix_page-miss_example : Returns (fix_page machine true 5 fresh) (λ (f, d).
    IsCoherent machine d
    × (maps.find 5 d.page2frame ≡ some f)
    × (d.frame_dirty f ≡ false)
    × (d.zdsm ≡ fresh.zdsm)
    × (d.buffer ≡ fresh.buffer)
    × (d.modes ≡ fresh.modes)
    × ((p : ℕ)
        → p ≢ 5
        → p ≢ fresh.frame_to_page f
        → maps.find p d.page2frame ≡ maps.find p fresh.page2frame))
unfolding Buffer.init
fix_page-miss_example =
    fix_page-miss machine fresh refl fresh-IsCoherent 5 fresh-IsShort (omega arith) refl

claim-IsClaimed_example : Returns (claim machine busy) (λ (f, d).
    IsClaimed machine busy f d
    × (d.zdsm ≡ busy.zdsm)
    × (d.buffer ≡ busy.buffer)
    × (d.modes ≡ busy.modes))
unfolding push StdList.push_front busy
claim-IsClaimed_example = claim-IsClaimed machine busy busy-IsCoherent (omega arith)

-- Page 11 lies in frame 1, and lay in frame 3 before that frame was flushed.
abbrev twice : Buffer machine
twice = record busy { frame_to_page = λ f. if f == 3 then 11 else 10 + f }

abbrev after_claim : Buffer machine
unfolding push StdList.push_front StdList.pop_back StdList.erase StdList.erase_node StdList.back
    StdList.last StdList.init_nodes get_frame claim
after_claim = elim (claim machine twice) [ ok r ↦ r.1 | fault e ↦ twice ]

twice-claim : claim machine twice ≡ ok (3, after_claim)
unfolding push StdList.push_front StdList.pop_back StdList.erase StdList.erase_node StdList.back
    StdList.last StdList.init_nodes get_frame claim after_claim busy
twice-claim = refl

claim-forgets_example :
    (maps.find 11 after_claim.page2frame ≡ none)
    × (after_claim.frame_to_page 1 ≡ 11)
    × (after_claim.frame_dirty 1 ≡ true)
    × (after_claim.buffer 1 ≡ twice.buffer 1)
unfolding push StdList.push_front busy
claim-forgets_example = claim-forgets machine twice 3 after_claim 1 twice-claim refl refl

ach_cluster-twice_example :
    (ach_cluster machine 0 (negsuc 0, pos 9) ≡ ok true)
    × ((c : ℕ) × (0 < c) × (c < 3) × (ach_cluster machine c (negsuc 0, pos 9) ≡ ok true))
ach_cluster-twice_example = ach_cluster-twice machine 9 (omega arith)

write-IsWritten_example :
    Returns
      (write machine 5 (5 ∷ 0 ∷ []) fresh)
      (λ d. (f : ℕ) × IsWritten machine 5 (5 ∷ 0 ∷ []) f fresh d)
unfolding Buffer.init
write-IsWritten_example =
    write-IsWritten machine fresh refl fresh-IsCoherent 5 (omega arith) (λ e. fresh-IsShort)
      (5 ∷ 0 ∷ [])

write-read_example :
    Returns (write machine 5 (5 ∷ 0 ∷ []) fresh >>= read machine 5) (λ r. r.0 ≡ 5 ∷ 0 ∷ [])
unfolding Buffer.init little_endian read_id
write-read_example =
    write-read machine fresh refl fresh-IsCoherent 5 (omega arith) (λ e. fresh-IsShort) (5 ∷ 0 ∷ [])
      refl

-- Frame 1 has the bytes of page 11.
abbrev carrier : Buffer machine
carrier = record busy { buffer = λ f. 11 ∷ 0 ∷ [] }

carrier-IsCoherent : IsCoherent machine carrier
carrier-IsCoherent = record {
  valid = busy-IsCoherent.valid;
  resident = busy-IsCoherent.resident;
  marked = busy-IsCoherent.marked;
}

read-mapped_example :
    Returns (read machine 11 carrier) (λ r. (r.0 ≡ 11 ∷ 0 ∷ []) × IsCoherent machine r.1)
unfolding busy little_endian read_id
read-mapped_example = read-mapped machine 11 1 carrier refl carrier-IsCoherent refl refl

-- The same buffer, with the levels as clusters. The dirty frames are in levels 2, 0 and 2.
abbrev leveled : Buffer machine
unfolding Buffer.init busy
leveled = record busy {
  modes = record (default_modes machine) { zalp_wc = true };
  cluster_flag = λ f. if f == 1 then 0 else 2;
}

choose_victims-IsChoice_example :
    Returns
      (choose_victims machine leveled)
      (λ (victims, cf, c). IsChoice machine leveled victims cf c)
unfolding Buffer.init push StdList.push_front
choose_victims-IsChoice_example =
    choose_victims-IsChoice machine leveled refl refl (omega arith) crowded-IsValid crowded-is_evict
      (omega arith)
