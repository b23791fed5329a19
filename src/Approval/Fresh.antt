-- ===== src/Approval/Fresh.antt =====
-- store/billing.py: the number that `_next_invoice_sequence` leads to is free.
use openleg.Prelude.{
  ℕ, zero, suc, ◌+◌, ◌-◌, ◌*◌, ◌/◌, ◌%◌, ◌≤◌, ◌<◌, ◌≡◌, refl, sym, ap, ◌∙◌, Bool, true, false, List,
  [], ◌∷◌, ◌++◌, all, ltb, length, arith, Bool-cases, inl, inr,
}
use mathlib.Core.List.{append_assoc}
use openleg.Prelude.Text.{Text, is_empty, text_eq, eq_of_text_eq}
use openleg.Approval.Numbers.{
  hyphen, digits_within, decimal, zeros, padded, number_prefix, invoice_number, has_hyphen,
  last_part, is_digit, value_from, starts_with, sequence_of, largest_sequence,
  next_invoice_sequence, clashes,
}

value-append :
    (acc : ℕ) (s : Text) (c : ℕ) → value_from acc (s ++ (c ∷ [])) ≡ 10 * value_from acc s + (c - 48)
value-append acc [] c = refl
value-append acc (d ∷ s) c = value-append (10 * acc + (d - 48)) s c

-- With more fuel than the number the digits have its value.
digits_within-value : (fuel n : ℕ) → n < fuel → value_from 0 (digits_within fuel n) ≡ n
unfolding digits_within
digits_within-value zero n h = omega arith
digits_within-value (suc fuel) n h = elim (Bool-cases (ltb n 10)) [
  | inl e ↦ ground arith
  | inr e ↦
      let rest = digits_within-value fuel (n / 10) (ground arith) in
      ground (arith, value-append 0 (digits_within fuel (n / 10)) (48 + n % 10))
]

value-zeros : (k : ℕ) (s : Text) → value_from 0 (zeros k s) ≡ value_from 0 s
unfolding zeros
value-zeros zero s = refl
value-zeros (suc k) s = value-zeros k s

-- Digits alone.
all-append :
    (p : ℕ → Bool) (s : Text) (c : ℕ) → all p s ≡ true → p c ≡ true → all p (s ++ (c ∷ [])) ≡ true
all-append p [] c h e = ground arith
all-append p (d ∷ s) c h e = ground (arith, all-append p s c)

digits_within-digits : (fuel n : ℕ) → all is_digit (digits_within fuel n) ≡ true
unfolding digits_within
digits_within-digits zero n = refl
digits_within-digits (suc fuel) n = ground (
  arith,
  digits_within-digits fuel (n / 10),
  all-append is_digit (digits_within fuel (n / 10)) (48 + n % 10),
)

zeros-digits : (k : ℕ) (s : Text) → all is_digit s ≡ true → all is_digit (zeros k s) ≡ true
unfolding zeros
zeros-digits zero s h = h
zeros-digits (suc k) s h = zeros-digits k s h

-- A text of digits has no hyphen.
digits-no_hyphen : (s : Text) → all is_digit s ≡ true → has_hyphen s ≡ false
digits-no_hyphen [] h = refl
digits-no_hyphen (c ∷ s) h = ground (arith, digits-no_hyphen s)

last_part-no_hyphen : (s : Text) → has_hyphen s ≡ false → last_part s ≡ s
unfolding last_part
last_part-no_hyphen [] h = refl
last_part-no_hyphen (c ∷ s) h = ground arith

has_hyphen-append : (s t : Text) → has_hyphen (s ++ (hyphen ∷ t)) ≡ true
has_hyphen-append [] t = refl
has_hyphen-append (c ∷ s) t = ground (arith, has_hyphen-append s t)

-- What stands behind the last hyphen.
last_part-append : (s t : Text) → has_hyphen t ≡ false → last_part (s ++ (hyphen ∷ t)) ≡ t
unfolding last_part
last_part-append [] t h = ground arith
last_part-append (c ∷ s) t h = ground (arith, has_hyphen-append s t, last_part-append s t h)

padded-digits : (n : ℕ) → all is_digit (padded n) ≡ true
unfolding padded decimal
padded-digits n = zeros-digits (6 - length (decimal n)) (decimal n) (digits_within-digits (suc n) n)

padded-value : (n : ℕ) → value_from 0 (padded n) ≡ n
unfolding padded decimal
padded-value n =
    value-zeros (6 - length (decimal n)) (decimal n) ∙ digits_within-value (suc n) n (omega arith)

starts_with-append : (s t : Text) → starts_with s (s ++ t) ≡ true
starts_with-append [] t = refl
starts_with-append (c ∷ s) t = ground (arith, starts_with-append s t)

number-shape :
    (prefix year t : Text)
    → prefix ++ (hyphen ∷ year ++ (hyphen ∷ [])) ++ t ≡ (prefix ++ (hyphen ∷ year)) ++ (hyphen ∷ t)
number-shape prefix year t =
    append_assoc prefix (hyphen ∷ year ++ (hyphen ∷ [])) t
    ∙ ap (λ r. prefix ++ (hyphen ∷ r)) (append_assoc year (hyphen ∷ []) t)
    ∙ sym (append_assoc prefix (hyphen ∷ year) (hyphen ∷ t))

not_empty-append : (s : Text) (c : ℕ) → is_empty (s ++ (c ∷ [])) ≡ false
not_empty-append [] c = refl
not_empty-append (d ∷ s) c = refl

digits_within-not_empty : (fuel n : ℕ) → is_empty (digits_within (suc fuel) n) ≡ false
unfolding digits_within
digits_within-not_empty fuel n =
    ground (arith, not_empty-append (digits_within fuel (n / 10)) (48 + n % 10))

zeros-not_empty : (k : ℕ) (s : Text) → is_empty s ≡ false → is_empty (zeros k s) ≡ false
unfolding zeros
zeros-not_empty zero s h = h
zeros-not_empty (suc k) s h = refl

padded-not_empty : (n : ℕ) → is_empty (padded n) ≡ false
unfolding padded decimal
padded-not_empty n =
    zeros-not_empty (6 - length (decimal n)) (decimal n) (digits_within-not_empty n n)

-- The sequence that is read from a number is the one that was written, for every prefix and year.
sequence_of-invoice_number :
    (prefix : Text) (year sequence : ℕ)
    → sequence_of (invoice_number prefix year sequence) ≡ sequence
unfolding sequence_of invoice_number number_prefix
sequence_of-invoice_number prefix year sequence =
    let suffix : last_part (invoice_number prefix year sequence) ≡ padded sequence =
      ap last_part (number-shape prefix (decimal year) (padded sequence))
      ∙ last_part-append (prefix ++ (hyphen ∷ decimal year)) (padded sequence)
          (digits-no_hyphen (padded sequence) (padded-digits sequence)) in
    ground (arith, padded-not_empty sequence, padded-digits sequence, padded-value sequence)

largest-bound :
    (prefix : Text) (year sequence : ℕ) (numbers : List Text)
    → clashes (invoice_number prefix year sequence) numbers ≡ true
    → sequence ≤ largest_sequence (number_prefix prefix year) numbers
unfolding largest_sequence invoice_number
largest-bound prefix year sequence [] h = ground arith
largest-bound prefix year sequence (n ∷ ns) h =
    elim (Bool-cases (text_eq n (invoice_number prefix year sequence))) [
      | inl e ↦
          let same = eq_of_text_eq n (invoice_number prefix year sequence) e in
          let starts : starts_with (number_prefix prefix year) n ≡ true =
            ap (starts_with (number_prefix prefix year)) same
            ∙ starts_with-append (number_prefix prefix year) (padded sequence) in
          let value = ap sequence_of same ∙ sequence_of-invoice_number prefix year sequence in
          ground arith
      | inr e ↦ ground (arith, largest-bound prefix year sequence ns)
    ]

-- The next sequence gives a number that the community has not given yet.
pub next_invoice_sequence-fresh :
    (prefix : Text) (year sequence : ℕ) (numbers : List Text)
    → next_invoice_sequence prefix year numbers ≤ sequence
    → clashes (invoice_number prefix year sequence) numbers ≡ false
unfolding next_invoice_sequence
next_invoice_sequence-fresh prefix year sequence numbers h =
    elim (Bool-cases (clashes (invoice_number prefix year sequence) numbers)) [
      | inl e ↦ ground (arith, largest-bound prefix year sequence numbers e)
      | inr e ↦ e
    ]

-- After a number is given, the sequence behind it is free.
pub next_invoice_sequence-next :
    (prefix : Text) (year sequence : ℕ) (numbers : List Text)
    → next_invoice_sequence prefix year numbers ≤ sequence
    → next_invoice_sequence prefix year (invoice_number prefix year sequence ∷ numbers)
      ≤ sequence + 1
unfolding next_invoice_sequence largest_sequence
next_invoice_sequence-next prefix year sequence numbers h =
    let value = sequence_of-invoice_number prefix year sequence in ground arith
