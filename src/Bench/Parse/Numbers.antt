-- ===== src/Bench/Parse/Numbers.antt =====
-- What the constructor makes of the text of a number.
use zone_buffer.Base.{some, ℕ, ◌+◌, ◌-◌, ◌*◌, ◌≡◌, refl, ap, true, false, [], ◌∷◌, ◌==◌, arith}
use zone_buffer.Bench.Parse.{Text, is_digit, is_space, skip_spaces, read_digits, to_long, read_long}

-- One digit or more, and nothing else.
abbrev pub AllDigits : Text → Type 0
AllDigits [] = Unit {0}
AllDigits (c ∷ cs) = (is_digit c ≡ true) × AllDigits cs

-- The number that digits spell behind `n`.
abbrev pub value : ℕ → Text → ℕ
value n [] = n
value n (c ∷ cs) = value (n * 10 + (c - b'0')) cs

read_digits-value : (n : ℕ) (s : Text) → AllDigits s → read_digits n s ≡ value n s
unfolding read_digits
read_digits-value n [] h = refl
read_digits-value n (c ∷ cs) h = rw h.0 (read_digits-value (n * 10 + (c - b'0')) cs h.1)

-- A number is read as what its digits spell, or the greatest `long`.
pub read_long-value :
    (c : ℕ) (cs : Text)
    → AllDigits (c ∷ cs)
    → read_long (c ∷ cs) ≡ some (to_long false (value 0 (c ∷ cs)))
unfolding read_long skip_spaces
read_long-value c cs h =
    let dense : is_space c ≡ false = ground (arith, h.0) in
    let minus : (c == b'-') ≡ false = ground (arith, h.0) in
    let plus : (c == b'+') ≡ false = ground (arith, h.0) in
    rw (dense, minus, plus) (ap (λ n. some (to_long false n)) (read_digits-value 0 (c ∷ cs) h))
