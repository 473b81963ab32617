-- ===== src/Lru/Runs.antt =====
-- Sequences of calls of `LRU`: the list is in the order of the last use.
use zone_buffer.Base.{
  ℕ, ◌≡◌, refl, last_cases, sym, subst, inl, inr, List, [], ◌∷◌, ◌++◌, Option, ok, fault, undefined,
  Result, ◌>>=◌, ltb, if◌then◌else◌, arith, count, remove, Bool-cases,
}
use zone_buffer.StdList.{Iter, Node, values, values_of, last, init_nodes, back, pop_back}
use zone_buffer.StdList.Nodes.{map-append_last}
use zone_buffer.Lru.{Lru, init, get_victim, push, update}
use zone_buffer.Lru.Track.{
  Tracks, push-Tracks, Tracks-TracksBut, init-Tracks, values-push, update-Tracks, update-absent,
  shortened-Tracks,
}

-- The values of a list, and the last of them.
unfoldable pub split_values : List ℕ → Result (ℕ × List ℕ)
split_values [] = fault undefined
split_values (x ∷ []) = ok (x, [])
split_values (x ∷ y ∷ ys) = do (last, rest) ← split_values (y ∷ ys); ok (last, x ∷ rest)

split_values-append : (xs : List ℕ) (x : ℕ) → split_values (xs ++ x ∷ []) ≡ ok (x, xs)
unfolding split_values
split_values-append [] x = refl
split_values-append (y ∷ []) x = refl
split_values-append (y ∷ z ∷ xs) x = rw (split_values-append (z ∷ xs) x) refl

pub data LruCall : Type 0 where
  push_call update_call : ℕ → LruCall
  victim_call : LruCall

-- The victims of the calls so far, in order, and the policy.
unfoldable pub run_lru : List LruCall → List ℕ → Lru → Result (List ℕ × Lru)
run_lru [] victims l = ok (victims, l)
run_lru (push_call k ∷ calls) victims l = run_lru calls victims (push k l)
run_lru (update_call k ∷ calls) victims l = do m ← update k l; run_lru calls victims m
run_lru (victim_call ∷ calls) victims l = do
  (victim, m) ← get_victim l
  run_lru calls (victims ++ victim ∷ []) m

-- The same calls on the values alone, the latest used one first.
unfoldable pub run_order : List LruCall → List ℕ → List ℕ → Result (List ℕ × List ℕ)
run_order [] victims xs = ok (victims, xs)
run_order (push_call k ∷ calls) victims xs = run_order calls victims (k ∷ xs)
run_order (update_call k ∷ calls) victims xs =
    let rest = run_order calls victims (k ∷ remove k xs) in
    if ltb 0 (count k xs) then rest else fault undefined
run_order (victim_call ∷ calls) victims xs = do
  (victim, ys) ← split_values xs
  run_order calls (victims ++ victim ∷ []) ys

abbrev pub Refines : Result (List ℕ × Lru) → Result (List ℕ × List ℕ) → Type 0
Refines (ok (vs, l)) (ok (ws, xs)) = (vs ≡ ws) × (values l.l_list ≡ xs)
Refines (fault e) (fault stop) = e ≡ stop
Refines (ok l) (fault stop) = ⊥
Refines (fault e) (ok xs) = ⊥

last-append : (ms : List Node) (n : Node) → last (ms ++ n ∷ []) ≡ ok n
unfolding last
last-append [] n = refl
last-append (m ∷ []) n = refl
last-append (m ∷ k ∷ ms) n = last-append (k ∷ ms) n

init_nodes-append : (ms : List Node) (n : Node) → init_nodes (ms ++ n ∷ []) ≡ ok ms
unfolding init_nodes
init_nodes-append [] n = refl
init_nodes-append (m ∷ []) n = refl
init_nodes-append (m ∷ k ∷ ms) n = rw (init_nodes-append (k ∷ ms) n) refl

get_victim-nodes :
    (ms : List Node) (n : Node) (f : ℕ) (m : ℕ → Option Iter)
    → get_victim (record { l_list = record { nodes = ms ++ n ∷ []; fresh = f }; l_map = m })
      ≡ ok (n.value, record { l_list = record { nodes = ms; fresh = f }; l_map = m })
unfolding get_victim back pop_back
get_victim-nodes ms n f m = rw (last-append ms n, init_nodes-append ms n) refl

abbrev with_nodes : List Node → ℕ → (ℕ → Option Iter) → Lru
with_nodes nodes f m = record { l_list = record { nodes = nodes; fresh = f }; l_map = m }

abbrev VictimStep : List LruCall → List ℕ → Lru → Type 0
VictimStep calls victims l =
    Refines (get_victim l >>= λ r. run_lru calls (victims ++ r.0 ∷ []) r.1)
      (split_values (values l.l_list) >>= λ r. run_order calls (victims ++ r.0 ∷ []) r.1)

abbrev Follow : List LruCall → Type 0
Follow calls =
    (victims : List ℕ) (l : Lru)
    → Tracks l
    → Refines (run_lru calls victims l) (run_order calls victims (values l.l_list))

victim_last :
    (calls : List LruCall) (victims : List ℕ) (ms : List Node) (n : Node) (f : ℕ)
    (m : ℕ → Option Iter)
    → Tracks (with_nodes (ms ++ n ∷ []) f m)
    → Follow calls
    → VictimStep calls victims (with_nodes (ms ++ n ∷ []) f m)
victim_last calls victims ms n f m t follow =
    let next = follow (victims ++ n.value ∷ []) (with_nodes ms f m) (shortened-Tracks ms n f m t) in
    rw
      (
        get_victim-nodes ms n f m,
        map-append_last (λ x. x.value) ms n,
        split_values-append (values_of ms) n.value,
      )
      next

victim_none :
    (calls : List LruCall) (victims : List ℕ) (f : ℕ) (m : ℕ → Option Iter)
    → VictimStep calls victims (with_nodes [] f m)
unfolding get_victim back last split_values
victim_none calls victims f m = refl

victim_step :
    (calls : List LruCall) (victims : List ℕ) (nodes : List Node) (f : ℕ) (m : ℕ → Option Iter)
    → Tracks (with_nodes nodes f m)
    → Follow calls
    → VictimStep calls victims (with_nodes nodes f m)
victim_step calls victims nodes f m t follow = elim (last_cases nodes) [
  | inl e ↦
      subst (λ ns. VictimStep calls victims (with_nodes ns f m)) (sym e)
        (victim_none calls victims f m)
  | inr (ms, n, e) ↦
      subst (λ ns. VictimStep calls victims (with_nodes ns f m)) (sym e)
        (victim_last calls victims ms n f m (subst (λ ns. Tracks (with_nodes ns f m)) e t) follow)
]

run_lru-Refines :
    (calls : List LruCall) (victims : List ℕ) (l : Lru)
    → Tracks l
    → Refines (run_lru calls victims l) (run_order calls victims (values l.l_list))
unfolding run_lru run_order
run_lru-Refines [] victims l t = (refl, refl)
run_lru-Refines (push_call k ∷ calls) victims l t =
    let next =
      run_lru-Refines calls victims (push k l) (push-Tracks k l (Tracks-TracksBut k l t)) in
    rw (← values-push k l) next
run_lru-Refines (update_call k ∷ calls) victims l t =
    elim (Bool-cases (ltb 0 (count k (values l.l_list)))) [
      | inr absent ↦
          let out : count k (values l.l_list) ≡ 0 = ground arith in
          rw (absent, update-absent k l t out) refl
      | inl present ↦
          let (m, run, (tracks, same)) = update-Tracks k l t (ground arith) in
          rw (present, run)
            (subst (λ (xs : List ℕ). Refines (run_lru calls victims m) (run_order calls victims xs))
              same (run_lru-Refines calls victims m tracks))
    ]
run_lru-Refines (victim_call ∷ calls) victims l t =
    victim_step calls victims l.l_list.nodes l.l_list.fresh l.l_map t
      (λ vs m tracks. run_lru-Refines calls vs m tracks)

-- From the constructor of `LRU`, every sequence of calls of `push`, `update` and `get_victim` does
-- what it does on the list of pages in the order of their last use: both return, with the same
-- victims and the same list, or both are undefined, at an update of a page that is not in the list
-- or a victim of an empty one. A page that is pushed twice is in the list twice, and an update
-- moves its latest entry.
pub run_lru-run_order :
    (calls : List LruCall) → Refines (run_lru calls [] init) (run_order calls [] [])
unfolding init
run_lru-run_order calls = run_lru-Refines calls [] init init-Tracks
