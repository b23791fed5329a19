-- ===== src/Prelude/Text/Strip.antt =====
-- `str.strip` applied again changes nothing.
use mathlib.Core.Path.{◌≡◌, refl, sym, ap, ◌∙◌, subst}
use mathlib.Core.Bool.{Bool, false}
use mathlib.Core.Logic.{inl, inr}
use mathlib.Core.List as List
use mathlib.Core.List.{List, [], ◌∷◌, ◌++◌, reverse}
use native.Mathlib.Omega.{arith}
use openleg.Prelude.Tests.{Bool-cases}
use openleg.Prelude.Text.{Text, is_space, drop_spaces, strip}

abbrev first_space : Text → Bool
first_space [] = false
first_space (c ∷ s) = is_space c

drop_fixed : (s : Text) → first_space s ≡ false → drop_spaces s ≡ s
unfolding drop_spaces
drop_fixed [] h = refl
drop_fixed (c ∷ s) h = ground arith

drop_first : (s : Text) → first_space (drop_spaces s) ≡ false
unfolding drop_spaces
drop_first [] = refl
drop_first (c ∷ s) = elim (Bool-cases (is_space c)) [ inl e ↦ rw e (drop_first s) | inr e ↦ rw e e ]

drop_suffix : (s : Text) → (p : Text) × (p ++ drop_spaces s ≡ s)
unfolding drop_spaces
drop_suffix [] = ([], refl)
drop_suffix (c ∷ s) = elim (Bool-cases (is_space c)) [
  | inl e ↦ let (p, h) = drop_suffix s in rw e (c ∷ p, ap (λ t. c ∷ t) h)
  | inr e ↦ rw e ([], refl)
]

first_append : (s t : Text) → first_space (s ++ t) ≡ false → first_space s ≡ false
first_append [] t h = refl
first_append (c ∷ s) t h = h

pub strip-strip : (s : Text) → strip (strip s) ≡ strip s
unfolding strip
strip-strip s =
    let d = drop_spaces s in
    let u = drop_spaces (reverse d) in
    let (p, h) = drop_suffix (reverse d) in
    let front : reverse u ++ reverse p ≡ d =
      sym (List.reverse-append p u) ∙ ap reverse h ∙ List.reverse-reverse d in
    let start : first_space (reverse u) ≡ false =
      first_append (reverse u) (reverse p)
        (subst (λ t. first_space t ≡ false) (sym front) (drop_first s)) in
    ap (λ t. reverse (drop_spaces (reverse t))) (drop_fixed (reverse u) start)
    ∙ ap (λ t. reverse (drop_spaces t)) (List.reverse-reverse u)
    ∙ ap reverse (drop_fixed u (drop_first (reverse d)))
