-- ===== src/Bench/Parse/Lines.antt =====
-- Files of instructions, each on its line: the name of the operation, a space and a number.
use zone_buffer.Base.{ℕ, ◌≡◌, refl, ap, false, List, [], ◌∷◌, ◌++◌, ◌==◌, arith, some, ok, map, ◌∙◌}
use zone_buffer.Bench.{Operate, insert, scan, update, read_page}
use zone_buffer.Bench.Parse.{
  Text, Parsed, find_char, operate_of, name_of, to_long, parse, getlines, read_instructions,
}
use zone_buffer.Bench.Parse.Numbers.{AllDigits, value, read_long-value}

-- An instruction as it is written: its number has a first digit and others.
pub record Entry : Type 0 where
  pub operate : Operate
  pub first : ℕ
  pub others : Text

abbrev pub digits : Entry → Text
digits e = e.first ∷ e.others

abbrev pub line_of : Entry → Text
line_of e = name_of e.operate ++ 32 ∷ digits e

abbrev pub file_of : List Entry → Text
file_of [] = []
file_of (e ∷ es) = line_of e ++ 10 ∷ file_of es

abbrev pub AreEntries : List Entry → Type 0
AreEntries [] = Unit {0}
AreEntries (e ∷ es) = AllDigits (digits e) × AreEntries es

-- The instruction that is meant: a number above the greatest `long` means that one.
abbrev pub meant : Entry → Parsed
meant e = record { operate = some e.operate; page_id = some (to_long false (value 0 (digits e))) }

abbrev NoNewline : Text → Type 0
NoNewline [] = Unit {0}
NoNewline (c ∷ cs) = ((c == 10) ≡ false) × NoNewline cs

getlines-append : (l rest : Text) → NoNewline l → getlines (l ++ 10 ∷ rest) ≡ l ∷ getlines rest
unfolding getlines
getlines-append [] rest h = refl
getlines-append (c ∷ cs) rest h = rw (h.0, getlines-append cs rest h.1) refl

digits-NoNewline : (s : Text) → AllDigits s → NoNewline s
digits-NoNewline [] h = tt
digits-NoNewline (c ∷ cs) h = (ground (arith, h.0), digits-NoNewline cs h.1)

line-NoNewline : (o : Operate) (s : Text) → NoNewline s → NoNewline (name_of o ++ 32 ∷ s)
line-NoNewline insert s h = (refl, (refl, (refl, (refl, (refl, (refl, (refl, h)))))))
line-NoNewline scan s h = (refl, (refl, (refl, (refl, (refl, h)))))
line-NoNewline update s h = (refl, (refl, (refl, (refl, (refl, (refl, (refl, h)))))))
line-NoNewline read_page s h = (refl, (refl, (refl, (refl, (refl, h)))))

parse-line :
    (o : Operate) (c : ℕ) (cs : Text)
    → AllDigits (c ∷ cs)
    → parse (name_of o ++ 32 ∷ c ∷ cs)
      ≡ record { operate = some o; page_id = some (to_long false (value 0 (c ∷ cs))) }
unfolding parse find_char operate_of
parse-line insert c cs h = rw (read_long-value c cs h) refl
parse-line scan c cs h = rw (read_long-value c cs h) refl
parse-line update c cs h = rw (read_long-value c cs h) refl
parse-line read_page c cs h = rw (read_long-value c cs h) refl

both : {x y : Parsed} {xs ys : List Parsed} → x ≡ y → xs ≡ ys → x ∷ xs ≡ y ∷ ys
both e f = λ j. e j ∷ f j

map-meant : (es : List Entry) → AreEntries es → map parse (getlines (file_of es)) ≡ map meant es
unfolding getlines
map-meant [] h = refl
map-meant (e ∷ es) h =
    let whole = line-NoNewline e.operate (digits e) (digits-NoNewline (digits e) h.0) in
    ap (map parse) (getlines-append (line_of e) (file_of es) whole)
    ∙ both (parse-line e.operate e.first e.others h.0) (map-meant es h.1)

-- From a file of lines that are each the name of an operation, a space and one digit or more,
-- `read_instructions` reads these operations in their order, with the numbers that the digits
-- spell, or the greatest `long` where the number is above it.
pub read_instructions-file_of :
    (es : List Entry) → AreEntries es → read_instructions (some (file_of es)) ≡ ok (map meant es)
unfolding read_instructions
read_instructions-file_of es h = ap ok (map-meant es h)
