-- ===== src/Bench/Parse/Words.antt =====
-- The first word of a line, which names the operation.
use zone_buffer.Base.{
  ◌≡◌, refl, ap, sym, ◌∙◌, true, false, [], ◌∷◌, ◌++◌, ◌==◌, arith, Option, some, none, ◌↔◌,
  if◌then◌else◌, length, take, inl, inr, Bool-cases,
}
use zone_buffer.Bench.{Operate, insert, scan, update, read_page}
use zone_buffer.Bench.Parse.{Text, find_char, eqb_text, operate_of, name_of, parse}

abbrev pub NoSpace : Text → Type 0
NoSpace [] = Unit {0}
NoSpace (c ∷ cs) = ((c == 32) ≡ false) × NoSpace cs

find_char-append : (a s : Text) → NoSpace a → find_char 32 (a ++ 32 ∷ s) ≡ some (length a)
unfolding find_char
find_char-append [] s h = refl
find_char-append (c ∷ cs) s h = rw (h.0, find_char-append cs s h.1) refl

take-append : (a s : Text) → take (length a) (a ++ s) ≡ a
take-append [] s = refl
take-append (c ∷ cs) s = ap (◌∷◌ c) (take-append cs s)

eqb_text-true : (xs ys : Text) → eqb_text xs ys ≡ true → xs ≡ ys
eqb_text-true [] [] e = refl
eqb_text-true [] (y ∷ ys) e = cc
eqb_text-true (x ∷ xs) [] e = cc
eqb_text-true (x ∷ xs) (y ∷ ys) e =
    let head : x ≡ y = ground (arith, e) in
    let tail = eqb_text-true xs ys (ground (arith, e)) in λ j. head j ∷ tail j

no_operate : {o : Operate} → none ≡ some o → ⊥
no_operate e = cc

same_operate : (p o : Operate) → some p ≡ some o → p ≡ o
same_operate p o e = ap (λ x. elim x [ none ↦ p | some q ↦ q ]) e

-- One test of the constructor.
tested :
    (a : Text) (p o : Operate) (before : Option Operate)
    → (if eqb_text a (name_of p) then some p else before) ≡ some o
    → (before ≡ some o → a ≡ name_of o)
    → a ≡ name_of o
tested a p o before e h = elim (Bool-cases (eqb_text a (name_of p))) [
  | inl yes_it ↦
      eqb_text-true a (name_of p) yes_it ∙ ap name_of (same_operate p o (sym (rw yes_it refl) ∙ e))
  | inr not_it ↦ h (sym (rw not_it refl) ∙ e)
]

operate_of-name_of : (a : Text) (o : Operate) → operate_of a ≡ some o → a ≡ name_of o
unfolding operate_of
operate_of-name_of a o e = tested a read_page o _ e λ e.
    tested a update o _ e
      λ e. tested a scan o _ e λ e. tested a insert o none e λ e. absurd (no_operate e)

name_of-operate_of : (o : Operate) → operate_of (name_of o) ≡ some o
unfolding operate_of
name_of-operate_of insert = refl
name_of-operate_of scan = refl
name_of-operate_of update = refl
name_of-operate_of read_page = refl

parse-operate_of : (a s : Text) → NoSpace a → (parse (a ++ 32 ∷ s)).operate ≡ operate_of a
unfolding parse
parse-operate_of a s h = rw (find_char-append a s h, take-append a (32 ∷ s)) refl

-- For a line whose first word is followed by a space, the constructor sets an operation exactly if
-- the word is the name of that operation.
pub parse-name_of :
    (a s : Text) (o : Operate)
    → NoSpace a
    → ((parse (a ++ 32 ∷ s)).operate ≡ some o) ↔ (a ≡ name_of o)
parse-name_of a s o h = (
  λ e. operate_of-name_of a o (sym (parse-operate_of a s h) ∙ e),
  λ e. parse-operate_of a s h ∙ ap operate_of e ∙ name_of-operate_of o,
)
