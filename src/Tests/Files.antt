-- ===== src/Tests/Files.antt =====
-- Texts of instructions.
use zone_buffer.Base.{◌≡◌, refl, List, [], ◌∷◌, some, none, ok, map, ◌↔◌}
use zone_buffer.Base.Int.{pos}
use zone_buffer.Bench.{insert, read_page}
use zone_buffer.Bench.Parse.{
  parse, read_instructions, getlines, name_of, find_char, operate_of, read_long, skip_spaces,
  read_digits,
}
use zone_buffer.Bench.Parse.Words.{parse-name_of}
use zone_buffer.Bench.Parse.Lines.{Entry, file_of, meant, read_instructions-file_of}

abbrev two_lines : List Entry
two_lines =
    record { operate = read_page; first = b'1'; others = b'7' ∷ [] }
    ∷ record { operate = insert; first = b'0'; others = b'5' ∷ [] }
    ∷ []

read_instructions-file_of_example :
    read_instructions (some (file_of two_lines)) ≡ ok (map meant two_lines)
read_instructions-file_of_example =
    read_instructions-file_of two_lines ((refl, (refl, tt)), ((refl, (refl, tt)), tt))

parse-name_of_example :
    ((parse (b'D' ∷ b'E' ∷ b'L' ∷ 32 ∷ b'5' ∷ [])).operate ≡ some read_page)
    ↔ (b'D' ∷ b'E' ∷ b'L' ∷ [] ≡ name_of read_page)
parse-name_of_example =
    parse-name_of (b'D' ∷ b'E' ∷ b'L' ∷ []) (b'5' ∷ []) read_page (refl, (refl, (refl, tt)))

-- A line with neither a name nor a space, a name alone, and a line that ends with its space.
plain :
    read_instructions
      (some (b'1' ∷ b',' ∷ b'8' ∷ 10 ∷ b'R' ∷ b'E' ∷ b'A' ∷ b'D' ∷ 10 ∷ b'R' ∷ 32 ∷ []))
    ≡ ok (
        record { operate = none; page_id = some (pos 1) }
        ∷ record { operate = some read_page; page_id = some (pos 0) }
        ∷ record { operate = none; page_id = none }
        ∷ [])
unfolding read_instructions getlines parse find_char operate_of read_long skip_spaces read_digits
plain = refl
