-- ===== src/Dlist/Runs.antt =====
-- Sequences of calls of the pushes and the pops, from the constructor.
use mathlib.Core.List.{map-append}
use zone_buffer.Base.{
  ℕ, ◌≡◌, refl, ◌∙◌, ap, last_cases, sym, subst, true, some, ◌==◌, List, [], ◌∷◌, ◌++◌, append-nil,
  arith, Result, ok, fault, assert_failed, ◌>>=◌, inl, inr,
}
use zone_buffer.Base.Int.{ℤ}
use zone_buffer.Dlist.{Dlist, init, l_push, l_push_front, l_push_back, l_pop_front, l_pop_back}
use zone_buffer.Dlist.Cells.{Cells, contents}
use zone_buffer.Dlist.Inv.{IsList, init-IsList, load_node-ok}
use zone_buffer.Dlist.Push.{l_push-IsList}
use zone_buffer.Dlist.Erase.{l_erase-IsList, l_pop_front-l_erase, l_pop_back-l_erase}

pub data ListCall : Type 0 where
  push_front_call push_back_call : ℤ → ListCall
  pop_front_call pop_back_call : ListCall

abbrev pub call_list : ListCall → Dlist → Result Dlist
call_list (push_front_call d) l = l_push_front d l
call_list (push_back_call d) l = l_push_back d l
call_list pop_front_call l = l_pop_front l
call_list pop_back_call l = l_pop_back l

unfoldable pub run_list : List ListCall → Dlist → Result Dlist
run_list [] l = ok l
run_list (c ∷ calls) l = do m ← call_list c l; run_list calls m

unfoldable pub drop_last : List ℤ → Result (List ℤ)
drop_last [] = fault assert_failed
drop_last (d ∷ []) = ok []
drop_last (d ∷ e ∷ ds) = do rest ← drop_last (e ∷ ds); ok (d ∷ rest)

-- The same calls on a sequence.
abbrev pub call_values : ListCall → List ℤ → Result (List ℤ)
call_values (push_front_call d) ds = ok (d ∷ ds)
call_values (push_back_call d) ds = ok (ds ++ d ∷ [])
call_values pop_front_call [] = fault assert_failed
call_values pop_front_call (d ∷ ds) = ok ds
call_values pop_back_call ds = drop_last ds

unfoldable pub run_values : List ListCall → List ℤ → Result (List ℤ)
run_values [] ds = ok ds
run_values (c ∷ calls) ds = do es ← call_values c ds; run_values calls es

-- The list is valid, and its nodes carry the sequence.
abbrev pub Carries : Dlist → List ℤ → Type 0
Carries l ds = (xs : Cells) × IsList l xs × (contents xs ≡ ds)

abbrev pub Refines : Result Dlist → Result (List ℤ) → Type 0
Refines (ok l) (ok ds) = Carries l ds
Refines (fault e) (fault stop) = e ≡ stop
Refines (ok l) (fault stop) = ⊥
Refines (fault e) (ok ds) = ⊥

drop_last-append : (ds : List ℤ) (d : ℤ) → drop_last (ds ++ d ∷ []) ≡ ok ds
unfolding drop_last
drop_last-append [] d = refl
drop_last-append (e ∷ []) d = refl
drop_last-append (e ∷ f ∷ ds) d = rw (drop_last-append (f ∷ ds) d) refl

contents-append : (xs ys : Cells) → contents (xs ++ ys) ≡ contents xs ++ contents ys
contents-append xs ys = map-append (λ (c : ℕ × ℤ). c.1) xs ys

push_front-Carries :
    (d : ℤ) (l : Dlist) (xs : Cells)
    → IsList l xs
    → Refines (l_push_front d l) (ok (d ∷ contents xs))
unfolding l_push_front
push_front-Carries d l xs is =
    let (m, run, now) = l_push-IsList l [] xs is d in rw run ((l.fresh, d) ∷ xs, now, refl)

push_back-Carries :
    (d : ℤ) (l : Dlist) (xs : Cells)
    → IsList l xs
    → Refines (l_push_back d l) (ok (contents xs ++ d ∷ []))
unfolding l_push_back
push_back-Carries d l xs is =
    let (m, run, now) = l_push-IsList l xs [] (rw append-nil is) d in
    let there : l_push d l.listsize l ≡ ok m = ap (λ z. l_push d z l) is.size ∙ run in
    rw there (xs ++ (l.fresh, d) ∷ [], now, contents-append xs ((l.fresh, d) ∷ []))

pop_front-Carries :
    (l : Dlist) (xs : Cells)
    → IsList l xs
    → Refines (l_pop_front l) (call_values pop_front_call (contents xs))
unfolding l_pop_front
pop_front-Carries l [] is = rw (load_node-ok l l.head _ is.chain.0) refl
pop_front-Carries l ((x, v) ∷ xs) is =
    let (m, run, now) = l_erase-IsList l [] x v xs is in
    rw (l_pop_front-l_erase l x v xs is, run) (xs, now, refl)

pop_back-empty : (l : Dlist) → some l.head ≡ some l.tail → l_pop_back l ≡ fault assert_failed
unfolding l_pop_back
pop_back-empty l e = let same : (l.tail == l.head) ≡ true = ground (arith, e) in rw same refl

pop_back-last :
    (l : Dlist) (ys : Cells) (x : ℕ) (v : ℤ)
    → IsList l (ys ++ (x, v) ∷ [])
    → Refines (l_pop_back l) (drop_last (contents (ys ++ (x, v) ∷ [])))
pop_back-last l ys x v is =
    let (m, run, now) = l_erase-IsList l ys x v [] is in
    rw
      (
        l_pop_back-l_erase l ys x v is,
        run,
        contents-append ys ((x, v) ∷ []),
        drop_last-append (contents ys) v,
      )
      (ys, subst (IsList m) (append-nil ys) now, refl)

pop_back-Carries :
    (l : Dlist) (xs : Cells) → IsList l xs → Refines (l_pop_back l) (drop_last (contents xs))
unfolding drop_last
pop_back-Carries l xs is = elim (last_cases xs) [
  | inl e ↦
      let none_left : IsList l [] = subst (IsList l) e is in
      subst (λ zs. Refines (l_pop_back l) (drop_last (contents zs))) (sym e)
        (rw (pop_back-empty l none_left.ends) refl)
  | inr (ys, (x, v), e) ↦
      let ending : IsList l (ys ++ (x, v) ∷ []) = subst (IsList l) e is in
      subst (λ zs. Refines (l_pop_back l) (drop_last (contents zs))) (sym e)
        (pop_back-last l ys x v ending)
]

call_list-Refines :
    (c : ListCall) (l : Dlist) (xs : Cells)
    → IsList l xs
    → Refines (call_list c l) (call_values c (contents xs))
call_list-Refines (push_front_call d) l xs is = push_front-Carries d l xs is
call_list-Refines (push_back_call d) l xs is = push_back-Carries d l xs is
call_list-Refines pop_front_call l xs is = pop_front-Carries l xs is
call_list-Refines pop_back_call l xs is = pop_back-Carries l xs is

-- A call that refines its specification, and then calls that refine theirs.
and_then :
    (r : Result Dlist) (s : Result (List ℤ)) (next : Dlist → Result Dlist)
    (then : List ℤ → Result (List ℤ))
    → Refines r s
    → ((m : Dlist) (xs : Cells) → IsList m xs → Refines (next m) (then (contents xs)))
    → Refines (r >>= next) (s >>= then)
and_then (ok m) (ok ds) next then (xs, is, e) rest =
    subst (λ es. Refines (next m) (then es)) e (rest m xs is)
and_then (ok m) (fault stop) next then same rest = elim same [ ]
and_then (fault e) (ok ds) next then same rest = elim same [ ]
and_then (fault e) (fault stop) next then same rest = same

run_list-Refines :
    (calls : List ListCall) (l : Dlist) (xs : Cells)
    → IsList l xs
    → Refines (run_list calls l) (run_values calls (contents xs))
unfolding run_list run_values
run_list-Refines [] l xs is = (xs, is, refl)
run_list-Refines (c ∷ calls) l xs is =
    and_then (call_list c l) (call_values c (contents xs)) (run_list calls) (run_values calls)
      (call_list-Refines c l xs is) (λ m ys now. run_list-Refines calls m ys now)

-- From the constructor of `List`, every sequence of calls of `L_push_front`, `L_push_back`,
-- `L_pop_front` and `L_pop_back` does what it does on a sequence of values: both return, the list
-- is valid and its nodes carry the values in order, or both end with a failed assertion at a pop
-- of nothing.
pub run_list-run_values :
    (calls : List ListCall) → Refines (run_list calls init) (run_values calls [])
run_list-run_values calls = run_list-Refines calls init [] init-IsList
