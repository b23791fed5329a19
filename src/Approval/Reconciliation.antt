-- ===== src/Approval/Reconciliation.antt =====
-- billing_approval.py, `_validated_difference` and `_require_canonical_reconciliation`. The values of
-- the evidence may be finer than the millionths of the line items: they are whole numbers of a unit
-- of which 10 ^ `places` make a millionth. None stands for a missing key and for a value that is not
-- a number. Values of more than 28 digits, where the decimals of the program round, are left out.
use openleg.Prelude.{
  ℕ, zero, suc, ◌+◌, ◌*◌, ◌/◌, ◌^◌, ◌<◌, ◌==◌, ◌≡◌, refl, ap, ◌∙◌, Bool, true, false, ◌&&◌, not,
  inl, inr, Option, none, some, List, [], ◌∷◌, all, any, arith, if◌then◌else◌, Result, ok, ◌>>=◌,
  ◌>>◌, raise_if, or_raise, Result-cases, Bool-cases, &&_parts,
}
use openleg.Prelude.Int.{ℤ, pos, negsuc, negate, abs_ℤ, pos_part, eq_ℤ, ◌-ℤ◌, eq_of_eq_ℤ}
use mathlib.Core.Path.{subst}
use native.Mathlib.Nat.{div-lt_iff_lt-mul}
use openleg.Approval.Lines.{Error}
use openleg.Approval.Totals.{lookup_kwh}

-- A triple of `vnb…`, `engine…` and `difference…`.
pub record Node : Type 0 where
  pub vnb_kwh : Option ℤ
  pub engine_kwh : Option ℤ
  pub difference_kwh : Option ℤ

-- The evidence; a section that is no dictionary is none.
pub record Reconciliation : Type 0 where
  pub places : ℕ
  pub allocated : Node
  pub production : Node
  pub per_participant : Option (List (ℕ × Node))
  pub production_per_participant : Option (List (ℕ × Node))

-- `.quantize(_KWH_QUANTUM, rounding=ROUND_HALF_UP)`, where `unit` makes a millionth
abbrev quantize : ℕ → ℤ → ℤ
quantize unit (pos n) = pos ((2 * n + unit) / (2 * unit) * unit)
quantize unit (negsuc n) = negate ((2 * suc n + unit) / (2 * unit) * unit)

-- `_validated_difference`, on the three values
unfoldable difference_of : ℕ → Bool → Option ℤ → Option ℤ → Option ℤ → Result Error ℤ
difference_of unit vnb_basis vnb_kwh engine_kwh difference_kwh = do
  vnb ← or_raise vnb_kwh Error.inconsistent_reconciliation
  engine ← or_raise engine_kwh Error.inconsistent_reconciliation
  difference ← or_raise difference_kwh Error.inconsistent_reconciliation
  raise_if (not (eq_ℤ difference (quantize unit (engine -ℤ vnb)))) Error.inconsistent_reconciliation
  raise_if (not vnb_basis && not (eq_ℤ difference (pos 0))) Error.inconsistent_reconciliation
  ok (if vnb_basis then vnb else engine)

abbrev validated_difference : ℕ → Bool → Node → Result Error ℤ
validated_difference unit vnb_basis node =
    difference_of unit vnb_basis node.vnb_kwh node.engine_kwh node.difference_kwh

-- `set(entries) != set(billed_quantities)`
abbrev has_entry {ℓ} : {A : Type ℓ} → ℕ → List (ℕ × A) → Bool
has_entry p rows = any (λ r. r.0 == p) rows

abbrev same_participants : List (ℕ × Node) → List (ℕ × ℕ) → Bool
same_participants entries billed =
    all (λ e. has_entry e.0 billed) entries && all (λ b. has_entry b.0 entries) billed

abbrev or_zero_kwh : Option ℕ → ℕ
or_zero_kwh none = 0
or_zero_kwh (some kwh) = kwh

-- The loop over the entries of a section.
require_entries : ℕ → Bool → List (ℕ × ℕ) → List (ℕ × Node) → Result Error (Unit {0})
unfolding difference_of
require_entries unit vnb_basis billed [] = ok tt
require_entries unit vnb_basis billed ((p, node) ∷ entries) = do
  engine_kwh ← validated_difference unit vnb_basis node
  raise_if (not (eq_ℤ engine_kwh (pos (or_zero_kwh (lookup_kwh p billed) * unit))))
      Error.other_quantities
  require_entries unit vnb_basis billed entries

require_section : ℕ → Bool → List (ℕ × ℕ) → Option (List (ℕ × Node)) → Result Error (Unit {0})
unfolding require_entries
require_section unit vnb_basis billed section = do
  entries ← or_raise section Error.inconsistent_reconciliation
  raise_if (not (same_participants entries billed)) Error.other_participants
  require_entries unit vnb_basis billed entries

-- `sum(billed.values())`
abbrev pub sum_kwh : List (ℕ × ℕ) → ℕ
sum_kwh [] = 0
sum_kwh ((p, kwh) ∷ rows) = kwh + sum_kwh rows

-- `_require_canonical_reconciliation`
unfoldable pub require_canonical_reconciliation :
    Reconciliation → List (ℕ × ℕ) → List (ℕ × ℕ) → Bool → Result Error (Unit {0})
unfolding require_section
require_canonical_reconciliation r consumption_kwh production_kwh vnb_basis = do
  let unit = 10 ^ r.places
  engine_allocated ← validated_difference unit vnb_basis r.allocated
  engine_production ← validated_difference unit vnb_basis r.production
  require_section unit vnb_basis consumption_kwh r.per_participant
  require_section unit vnb_basis production_kwh r.production_per_participant
  raise_if (not (eq_ℤ engine_allocated (pos (sum_kwh consumption_kwh * unit))))
      Error.other_quantities
  raise_if (not (eq_ℤ engine_production (pos (sum_kwh production_kwh * unit))))
      Error.other_quantities

-- What the energy of the VNB is to the energy that is priced: the same on the basis of the VNB, and
-- else less than half a millionth away.
abbrev pub IsPriced : ℕ → Bool → ℤ → ℤ → Type 0
IsPriced unit true vnb kwh = vnb ≡ kwh
IsPriced unit false vnb kwh = 2 * abs_ℤ (kwh -ℤ vnb) < unit

zero_factor : (q unit : ℕ) → 0 < unit → q * unit ≡ 0 → q ≡ 0
zero_factor zero unit some_unit h = refl
zero_factor (suc q) unit some_unit h = absurd (omega arith)

below_half : (n unit : ℕ) → 0 < unit → (2 * n + unit) / (2 * unit) * unit ≡ 0 → 2 * n < unit
below_half n unit some_unit h =
    let none_left = zero_factor ((2 * n + unit) / (2 * unit)) unit some_unit h in
    let small =
      (div-lt_iff_lt-mul {k = 2 * unit} {x = 2 * n + unit} {y = 1} (omega arith)).0 (omega arith) in
    omega arith

negate-zero : (n : ℕ) → negate n ≡ pos 0 → n ≡ 0
negate-zero zero h = refl
negate-zero (suc n) h = absurd (ground arith)

quantize-zero : (unit : ℕ) (x : ℤ) → 0 < unit → quantize unit x ≡ pos 0 → 2 * abs_ℤ x < unit
quantize-zero unit (pos n) some_unit h = below_half n unit some_unit (ap pos_part h)
quantize-zero unit (negsuc n) some_unit h =
    below_half (suc n) unit some_unit (negate-zero ((2 * suc n + unit) / (2 * unit) * unit) h)

power_of_ten-pos : (k : ℕ) → 0 < 10 ^ k
power_of_ten-pos zero = omega arith
power_of_ten-pos (suc k) = omega (arith, power_of_ten-pos k)

-- The energy that the VNB names for a participant.
abbrev pub vnb_of : ℕ → List (ℕ × Node) → Option ℤ
vnb_of p [] = none
vnb_of p ((q, node) ∷ entries) =
    let rest = vnb_of p entries in if q == p then node.vnb_kwh else rest

-- The VNB names an energy, and it is the one that is priced, or close to it.
abbrev pub IsConfirmed : ℕ → Bool → Option ℤ → ℕ → Type 0
IsConfirmed unit vnb_basis vnb kwh =
    (v : ℤ) × (vnb ≡ some v) × IsPriced unit vnb_basis v (pos (kwh * unit))

-- Each quantity is confirmed by the energy that the VNB names for the participant.
pub VnbQuantities : ℕ → Bool → Option (List (ℕ × Node)) → List (ℕ × ℕ) → Type 0
VnbQuantities unit vnb_basis section billed =
    (p kwh : ℕ)
    → lookup_kwh p billed ≡ some kwh
    → (entries : List (ℕ × Node)) × (section ≡ some entries)
      × IsConfirmed unit vnb_basis (vnb_of p entries) kwh

has_entry-lookup :
    (p : ℕ) (rows : List (ℕ × ℕ)) (kwh : ℕ) (entries : List (ℕ × Node))
    → lookup_kwh p rows ≡ some kwh
    → all (λ b. has_entry b.0 entries) rows ≡ true
    → has_entry p entries ≡ true
has_entry-lookup p [] kwh entries h e = ground arith
has_entry-lookup p ((q, k) ∷ rows) kwh entries h e =
    ground (arith, has_entry-lookup p rows kwh entries)

module _ (unit : ℕ) (some_unit : 0 < unit) where
  -- How the quantity that is priced follows from the one of the VNB.
  difference_of-vnb :
      (vnb_basis : Bool) (vnb engine difference : Option ℤ) {kwh : ℤ}
      → difference_of unit vnb_basis vnb engine difference ≡ ok kwh
      → (v : ℤ) × (vnb ≡ some v) × IsPriced unit vnb_basis v kwh
  unfolding difference_of
  difference_of-vnb true (some v) (some n) (some d) h = (v, refl, ground arith)
  difference_of-vnb false (some v) (some n) (some d) {kwh} h =
      let near =
        quantize-zero unit (n -ℤ v) some_unit
          (ground (arith, eq_of_eq_ℤ d (quantize unit (n -ℤ v)), eq_of_eq_ℤ d (pos 0))) in
      let same : n ≡ kwh = ground arith in
      (v, refl, subst (λ x. 2 * abs_ℤ (x -ℤ v) < unit) same near)
  difference_of-vnb vnb_basis (some v) (some n) none h = absurd (ground arith)
  difference_of-vnb vnb_basis (some v) none difference h = absurd (ground arith)
  difference_of-vnb vnb_basis none engine difference h = absurd (ground arith)

  -- The quantity of a triple is the one that is billed.
  confirmed :
      (vnb_basis : Bool) (node : Node) (billed : ℕ) {kwh : ℤ}
      → validated_difference unit vnb_basis node ≡ ok kwh
      → eq_ℤ kwh (pos (billed * unit)) ≡ true
      → IsConfirmed unit vnb_basis node.vnb_kwh billed
  confirmed vnb_basis node billed {kwh} f e =
      let (v, there, priced) =
        difference_of-vnb vnb_basis node.vnb_kwh node.engine_kwh node.difference_kwh f in
      (v, there, subst (IsPriced unit vnb_basis v) (eq_of_eq_ℤ kwh (pos (billed * unit)) e) priced)

  require_entries-vnb :
      (vnb_basis : Bool) (billed : List (ℕ × ℕ)) (entries : List (ℕ × Node)) (p : ℕ)
      → require_entries unit vnb_basis billed entries ≡ ok tt
      → has_entry p entries ≡ true
      → IsConfirmed unit vnb_basis (vnb_of p entries) (or_zero_kwh (lookup_kwh p billed))
  unfolding require_entries
  require_entries-vnb vnb_basis billed [] p h e = absurd (ground arith)
  require_entries-vnb vnb_basis billed ((q, node) ∷ entries) p h e =
      elim (Result-cases (validated_difference unit vnb_basis node)) [
        | inl (x, f) ↦ absurd (ground arith)
        | inr (kwh, f) ↦ elim (Bool-cases (q == p)) [
          | inl same ↦
              let (v, there, priced) =
                confirmed vnb_basis node (or_zero_kwh (lookup_kwh q billed)) f (ground arith) in
              let q_p : q ≡ p = ground arith in
              (
                v,
                ap (λ b. if b then node.vnb_kwh else vnb_of p entries) same ∙ there,
                subst
                    (λ x.
                      IsPriced unit vnb_basis v (pos (or_zero_kwh (lookup_kwh x billed) * unit)))
                    q_p priced,
              )
          | inr other ↦
              let (v, there, priced) =
                require_entries-vnb vnb_basis billed entries p (ground arith) (ground arith) in
              (v, ap (λ b. if b then node.vnb_kwh else vnb_of p entries) other ∙ there, priced)
        ]
      ]

  require_section-vnb :
      (vnb_basis : Bool) (billed : List (ℕ × ℕ)) (section : Option (List (ℕ × Node)))
      → require_section unit vnb_basis billed section ≡ ok tt
      → VnbQuantities unit vnb_basis section billed
  unfolding require_section VnbQuantities
  require_section-vnb vnb_basis billed none h p kwh l = absurd (ground arith)
  require_section-vnb vnb_basis billed (some entries) h p kwh l =
      elim (Bool-cases (same_participants entries billed)) [
        | inl e ↦
            let covered =
              (&&_parts (all (λ e. has_entry e.0 billed) entries)
                (all (λ b. has_entry b.0 entries) billed) e).1 in
            let own =
              require_entries-vnb vnb_basis billed entries p (ground arith)
                (has_entry-lookup p billed kwh entries l covered) in
            (
              entries,
              refl,
              subst (λ o. IsConfirmed unit vnb_basis (vnb_of p entries) (or_zero_kwh o)) l own,
            )
        | inr e ↦ absurd (ground arith)
      ]

-- If the reconciliation of a draft is accepted, then the VNB names an energy for each participant
-- that is billed and for each total. On the basis of the VNB the billed quantities and totals are
-- exactly those; on the other basis each is less than half a millionth of a kWh from it.
pub reconciliation-by_vnb :
    (r : Reconciliation) (consumption production : List (ℕ × ℕ)) (vnb_basis : Bool)
    → require_canonical_reconciliation r consumption production vnb_basis ≡ ok tt
    → let unit = 10 ^ r.places in
      IsConfirmed unit vnb_basis r.allocated.vnb_kwh (sum_kwh consumption)
      × IsConfirmed unit vnb_basis r.production.vnb_kwh (sum_kwh production)
      × VnbQuantities unit vnb_basis r.per_participant consumption
      × VnbQuantities unit vnb_basis r.production_per_participant production
unfolding require_canonical_reconciliation
reconciliation-by_vnb r consumption production vnb_basis h =
    let unit = 10 ^ r.places in
    let some_unit = power_of_ten-pos r.places in
    elim (Result-cases (validated_difference unit vnb_basis r.allocated)) [
      | inl (x, e) ↦ absurd (ground arith)
      | inr (a, e) ↦ elim (Result-cases (validated_difference unit vnb_basis r.production)) [
        | inl (x, f) ↦ absurd (ground arith)
        | inr (b, f) ↦
            elim (Result-cases (require_section unit vnb_basis consumption r.per_participant)) [
              | inl (x, s) ↦ absurd (ground arith)
              | inr (u, s) ↦
                  elim (Result-cases
                    (require_section unit vnb_basis production r.production_per_participant)) [
                      | inl (x, t) ↦ absurd (ground arith)
                      | inr (w, t) ↦ (
                        confirmed unit some_unit vnb_basis r.allocated (sum_kwh consumption) e
                            (ground arith),
                        confirmed unit some_unit vnb_basis r.production (sum_kwh production) f
                            (ground arith),
                        require_section-vnb unit some_unit vnb_basis consumption r.per_participant
                            s,
                        require_section-vnb unit some_unit vnb_basis production
                            r.production_per_participant t,
                      )
                    ]
            ]
      ]
    ]
