-- ===== src/Approval/Numbers.antt =====
-- store/billing.py: the invoice numbers, `{prefix}-{year}-{sequence:06d}`, and
-- `_next_invoice_sequence`. A prefix has no character that LIKE reads as a pattern.
use openleg.Prelude.{
  ℕ, zero, suc, ◌+◌, ◌-◌, ◌*◌, ◌/◌, ◌%◌, ◌==◌, Bool, true, false, ◌&&◌, not, List, [], ◌∷◌, ◌++◌,
  all, any, ltb, leb, length, if◌then◌else◌,
}
use openleg.Prelude.Text.{Text, is_empty, text_eq}

abbrev pub hyphen : ℕ
hyphen = 45

-- The decimal digits of a number, within the fuel.
unfoldable pub digits_within : ℕ → ℕ → Text
digits_within zero n = []
digits_within (suc fuel) n =
    let rest = digits_within fuel (n / 10) in
    if ltb n 10 then (48 + n) ∷ [] else rest ++ ((48 + n % 10) ∷ [])

-- `str(n)`
unfoldable pub decimal : ℕ → Text
unfolding digits_within
decimal n = digits_within (suc n) n

unfoldable pub zeros : ℕ → Text → Text
zeros zero s = s
zeros (suc k) s = 48 ∷ zeros k s

-- `f"{n:06d}"`
unfoldable pub padded : ℕ → Text
unfolding zeros decimal
padded n = zeros (6 - length (decimal n)) (decimal n)

unfoldable pub number_prefix : Text → ℕ → Text
unfolding decimal
number_prefix prefix year = prefix ++ (hyphen ∷ decimal year ++ (hyphen ∷ []))

-- `f"{prefix}-{year}-{sequence:06d}"`
unfoldable pub invoice_number : Text → ℕ → ℕ → Text
unfolding number_prefix padded
invoice_number prefix year sequence = number_prefix prefix year ++ padded sequence

abbrev pub has_hyphen : Text → Bool
has_hyphen s = any (λ c. c == hyphen) s

-- `text.rsplit("-", 1)[-1]`
unfoldable pub last_part : Text → Text
last_part [] = []
last_part (c ∷ s) =
    let rest = last_part s in if has_hyphen s then rest else if c == hyphen then s else c ∷ s

abbrev pub is_digit : ℕ → Bool
is_digit c = leb 48 c && leb c 57

-- `int(text)` for decimal digits
abbrev pub value_from : ℕ → Text → ℕ
value_from acc [] = acc
value_from acc (c ∷ s) = value_from (10 * acc + (c - 48)) s

abbrev pub starts_with : Text → Text → Bool
starts_with [] s = true
starts_with (c ∷ p) [] = false
starts_with (c ∷ p) (d ∷ s) = (c == d) && starts_with p s

-- The sequence of a number, if it has one.
unfoldable pub sequence_of : Text → ℕ
unfolding last_part
sequence_of number =
    let suffix = last_part number in
    if not (is_empty suffix) && all is_digit suffix then value_from 0 suffix else 0

abbrev max : ℕ → ℕ → ℕ
max a b = if ltb a b then b else a

-- The loop of `_next_invoice_sequence`, over the numbers of the community.
unfoldable pub largest_sequence : Text → List Text → ℕ
unfolding sequence_of
largest_sequence p [] = 0
largest_sequence p (n ∷ ns) =
    let rest = largest_sequence p ns in if starts_with p n then max rest (sequence_of n) else rest

-- `_next_invoice_sequence`
unfoldable pub next_invoice_sequence : Text → ℕ → List Text → ℕ
unfolding largest_sequence number_prefix
next_invoice_sequence prefix year numbers = largest_sequence (number_prefix prefix year) numbers + 1

-- The unique index on the numbers of a community.
abbrev pub clashes : Text → List Text → Bool
clashes number numbers = any (λ n. text_eq n number) numbers
