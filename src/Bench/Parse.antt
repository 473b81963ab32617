-- ===== src/Bench/Parse.antt =====
-- link.h: the reading of a file of instructions. A text is the list of its bytes. `std::string` and
-- `std::stringstream` are those of the language.
pub mod Numbers
pub mod Words
pub mod Lines
use zone_buffer.Base.{
  ℕ, zero, suc, ◌+◌, ◌-◌, ◌*◌, ◌^◌, Bool, true, false, ◌&&◌, ◌||◌, List, [], ◌∷◌, Option, none,
  some, ◌==◌, leb, if◌then◌else◌, Result, ok, fault, assert_failed, map, take, drop,
}
use zone_buffer.Base.Int.{ℤ, pos, negsuc}
use zone_buffer.Bench.{Operate, insert, scan, update, read_page}

abbrev pub Text : Type 0
Text = List ℕ

-- An instruction as its constructor from a line leaves it. The operation is `none` where the
-- constructor does not set it.
pub record Parsed : Type 0 where
  pub operate : Option Operate
  pub page_id : Option ℤ

abbrev pub add_one : Option ℕ → Option ℕ
add_one none = none
add_one (some i) = some (suc i)

-- `s.find(c)`, where `none` is `npos`, which is -1 as an `int`.
unfoldable pub find_char : ℕ → Text → Option ℕ
find_char c [] = none
find_char c (x ∷ xs) = let rest = find_char c xs in if x == c then some 0 else add_one rest

-- `s.substr(0, sp)`; without a space it is the whole line,
abbrev pub first_part : Option ℕ → Text → Text
first_part none s = s
first_part (some sp) s = take sp s

-- and so is `s.substr(sp + 1, s.length())`.
abbrev pub second_part : Option ℕ → Text → Text
second_part none s = s
second_part (some sp) s = drop (suc sp) s

abbrev pub eqb_text : Text → Text → Bool
eqb_text [] [] = true
eqb_text [] (y ∷ ys) = false
eqb_text (x ∷ xs) [] = false
eqb_text (x ∷ xs) (y ∷ ys) = x == y && eqb_text xs ys

abbrev pub name_of : Operate → Text
name_of insert = b'I' ∷ b'N' ∷ b'S' ∷ b'E' ∷ b'R' ∷ b'T' ∷ []
name_of scan = b'S' ∷ b'C' ∷ b'A' ∷ b'N' ∷ []
name_of update = b'U' ∷ b'P' ∷ b'D' ∷ b'A' ∷ b'T' ∷ b'E' ∷ []
name_of read_page = b'R' ∷ b'E' ∷ b'A' ∷ b'D' ∷ []

-- The four tests, each of which sets the operation.
unfoldable pub operate_of : Text → Option Operate
operate_of a =
    let o = if eqb_text a (name_of insert) then some insert else none in
    let o = if eqb_text a (name_of scan) then some scan else o in
    let o = if eqb_text a (name_of update) then some update else o in
    if eqb_text a (name_of read_page) then some read_page else o

abbrev pub is_space : ℕ → Bool
is_space c = c == 32 || (leb 9 c && leb c 13)

abbrev pub is_digit : ℕ → Bool
is_digit c = leb b'0' c && leb c b'9'

unfoldable pub skip_spaces : Text → Text
skip_spaces [] = []
skip_spaces (c ∷ cs) = let rest = skip_spaces cs in if is_space c then rest else c ∷ cs

-- The number that the digits at the start spell behind `n`.
unfoldable pub read_digits : ℕ → Text → ℕ
read_digits n [] = n
read_digits n (c ∷ cs) =
    let rest = read_digits (n * 10 + (c - b'0')) cs in if is_digit c then rest else n

abbrev pub negate : ℕ → ℤ
negate zero = pos 0
negate (suc n) = negsuc n

-- A number that does not fit in a `long` becomes the nearest one that does.
abbrev pub to_long : Bool → ℕ → ℤ
to_long true n = if leb n (2 ^ 63) then negate n else negate (2 ^ 63)
to_long false n = if leb n (2 ^ 63 - 1) then pos n else pos (2 ^ 63 - 1)

abbrev pub read_signed : Text → Option ℤ
read_signed [] = none
read_signed (c ∷ cs) =
    if c == b'-'
    then some (to_long true (read_digits 0 cs))
    else if c == b'+'
    then some (to_long false (read_digits 0 cs))
    else some (to_long false (read_digits 0 (c ∷ cs)))

-- `strValue >> page_id`: at the end of the text `page_id` stays unset, and another text without a
-- number gives 0.
unfoldable pub read_long : Text → Option ℤ
read_long s = read_signed (skip_spaces s)

-- The constructor `Instruction(const std::string &s)`.
unfoldable pub parse : Text → Parsed
parse s =
    let sp = find_char 32 s in
    record { operate = operate_of (first_part sp s); page_id = read_long (second_part sp s) }

abbrev pub onto_line : ℕ → List Text → List Text
onto_line c [] = (c ∷ []) ∷ []
onto_line c (l ∷ ls) = (c ∷ l) ∷ ls

-- The loop over `getline`: the lines of a file, of which the last need not be ended.
unfoldable pub getlines : Text → List Text
getlines [] = []
getlines (c ∷ cs) = let rest = getlines cs in if c == 10 then [] ∷ rest else onto_line c rest

-- `read_instructions`, of a file that may not be there.
unfoldable pub read_instructions : Option Text → Result (List Parsed)
read_instructions none = fault assert_failed
read_instructions (some file) = ok (map parse (getlines file))
