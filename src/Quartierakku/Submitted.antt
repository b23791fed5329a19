-- ===== src/Quartierakku/Submitted.antt =====
-- quartierakku.py: what the form accepts, the validation of the stored config accepts.
use openleg.Prelude.Text.{Text, codes, text_eq, eq_of_text_eq, is_empty, strip}
use openleg.Prelude.Text.Strip.{strip-strip}
use openleg.Prelude.Decimals.{Number, Decimal}
use openleg.Prelude.{
  ℕ, ◌+◌, ◌==◌, ◌≡◌, refl, sym, ap, ◌∙◌, Bool, true, false, ◌&&◌, ◌||◌, not, Option, none, some,
  List, [], ◌∷◌, ◌++◌, length, All, all, any, ltb, if◌then◌else◌, Result, ok, err, arith, inl, inr,
  Bool-cases, Option-cases, ◌>>=◌,
}
use mathlib.Core.Path.{subst}
use openleg.Quartierakku.{
  Invalid, Config, within, valid_participant, normalized_shares, some_shares, total_share,
  has_share, share_max_pct, max_capacity_kwh, max_annual_cost_chf, validate_battery_config,
}
use openleg.Quartierakku.Costs.{battery}
use openleg.Quartierakku.RoundTrip.{stages-validate, split-again}
use openleg.Quartierakku.Form.{
  plain_decimal, form_value, bounded, zero_share, share_of, remove_prefix, Shares, add_share,
  read_share, form_shares, missing, participant_errors, values, given, accept, finish,
  validate_battery_form,
}

form_value-strip :
    (form : List (Text × Text)) (name : Text) → strip (form_value form name) ≡ form_value form name
unfolding form_value strip
form_value-strip [] name = refl
form_value-strip ((n, value) ∷ form) name = elim (Bool-cases (text_eq n name)) [
  | inl e ↦ rw e (strip-strip value)
  | inr e ↦ rw e (form_value-strip form name)
]

bounded-within :
    (low high : ℕ) (o : Option Number) {d : Decimal} {n : ℕ}
    → bounded low high o ≡ some (d, n)
    → within low high d ≡ some n
bounded-within low high none h = cc
bounded-within low high (some x) {d} {n} h =
    elim (Option-cases (within low high (Decimal.number x))) [
      | inl e ↦ ground arith
      | inr (m, e) ↦
          let same_n : m ≡ n = ground arith in
          let same_d : Decimal.number x ≡ d = ground arith in
          subst (λ y. within low high y ≡ some n) same_d (e ∙ ap some same_n)
    ]

-- A share that the form took.
abbrev IsTaken : Text × Decimal × ℕ → Type 0
IsTaken (p, d, n) = (is_empty (strip p) ≡ false) × (within 0 share_max_pct d ≡ some n)

zero_share-within : within 0 share_max_pct zero_share.0 ≡ some 0
unfolding within openleg.Prelude.Decimals.hundredths openleg.Prelude.Decimals.at_scale
    openleg.Prelude.Int.◌+ℤ◌
zero_share-within = refl

share_of-within :
    (digit : ℕ → Option ℕ) (text : Text) {d : Decimal} {n : ℕ}
    → share_of digit text ≡ some (d, n)
    → within 0 share_max_pct d ≡ some n
share_of-within digit text {d} {n} h = elim (Bool-cases (is_empty text)) [
  | inl e ↦
      let same_n : 0 ≡ n = ground arith in
      let same_d : zero_share.0 ≡ d = ground arith in
      subst (λ x. within 0 share_max_pct x ≡ some n) same_d (zero_share-within ∙ ap some same_n)
  | inr e ↦ bounded-within 0 share_max_pct (plain_decimal digit text) {d = d} (ground arith)
]

member-nonblank :
    (p : Text) (ms : List Text)
    → all (λ m. not (is_empty (strip m))) ms ≡ true
    → any (text_eq p) ms ≡ true
    → is_empty (strip p) ≡ false
member-nonblank p [] a h = cc
member-nonblank p (m ∷ ms) a h = elim (Bool-cases (text_eq p m)) [
  | inl e ↦
      let same = eq_of_text_eq p m e in
      subst (λ (x : Text). is_empty (strip x) ≡ false) (sym same) (ground arith)
  | inr e ↦ member-nonblank p ms (ground arith) (ground arith)
]

add_share-IsTaken :
    (name p : Text) (o : Option (Decimal × ℕ)) (r : Shares)
    → is_empty (strip p) ≡ false
    → ((d : Decimal) (n : ℕ) → o ≡ some (d, n) → within 0 share_max_pct d ≡ some n)
    → All IsTaken r.1
    → All IsTaken (add_share name p o r).1
add_share-IsTaken name p none r e w h = h
add_share-IsTaken name p (some (d, n)) r e w h = ((e, w d n refl), h)

read_share-IsTaken :
    (digit : ℕ → Option ℕ) (ms : List Text) (name value : Text) (o : Option Text) (r : Shares)
    → all (λ m. not (is_empty (strip m))) ms ≡ true
    → All IsTaken r.1
    → All IsTaken (read_share digit ms name value o r).1
read_share-IsTaken digit ms name value none r a h = h
read_share-IsTaken digit ms name value (some p) r a h =
    elim (Bool-cases (any (text_eq p) ms && not (is_empty p))) [
      | inl e ↦ rw e (
          add_share-IsTaken name p (share_of digit (strip value)) r
            (member-nonblank p ms a (ground arith)) (λ d n. share_of-within digit (strip value)) h)
      | inr e ↦ rw e h
    ]

form_shares-IsTaken :
    (digit : ℕ → Option ℕ) (ms : List Text) (form : List (Text × Text))
    → all (λ m. not (is_empty (strip m))) ms ≡ true
    → All IsTaken (form_shares digit ms form).1
unfolding form_shares
form_shares-IsTaken digit ms [] a = tt
form_shares-IsTaken digit ms ((name, value) ∷ form) a =
    read_share-IsTaken digit ms name value (remove_prefix (codes "share:") name)
      (form_shares digit ms form) a (form_shares-IsTaken digit ms form a)

taken-normalized :
    (shares : List (Text × Decimal × ℕ))
    → All IsTaken shares
    → normalized_shares (given shares) ≡ ok (values shares)
unfolding normalized_shares
taken-normalized [] h = refl
taken-normalized ((p, d, n) ∷ rest) ((e, w), hs) = ground (arith, taken-normalized rest hs)

some_shares-given :
    (shares : List (Text × Decimal × ℕ))
    → total_share (values shares) ≡ share_max_pct
    → some_shares (some (given shares)) ≡ ok (given shares)
some_shares-given [] h = absurd (omega arith)
some_shares-given ((p, d, n) ∷ rest) h = refl

finish-ok :
    (es : List (Text × Invalid)) (r : Result (List (Text × Invalid)) Config) {config : Config}
    → finish es r ≡ ok config
    → (es ≡ []) × (r ≡ ok config)
finish-ok [] r h = (refl, h)
finish-ok (e ∷ es) r h = cc

accepted_participant :
    (p : Text) (es : List (Text × Invalid))
    → strip p ≡ p
    → participant_errors p ++ es ≡ []
    → (valid_participant (some p) ≡ ok p) × (es ≡ [])
accepted_participant p es again h = elim (Bool-cases (is_empty p || ltb 64 (length p))) [
  | inl e ↦ ground arith
  | inr e ↦
      let test : is_empty (strip p) || ltb 64 (length (strip p)) ≡ false =
        ap (λ (x : Text). is_empty x || ltb 64 (length x)) again ∙ e in
      (
        ap (λ b. if b then err Invalid.bad_participant else ok (strip p)) test ∙ ap ok again,
        ground arith,
      )
]

not_missing :
    (field : Text) (e : Invalid) (o : Option (Decimal × ℕ)) (es : List (Text × Invalid))
    → missing field e o ++ es ≡ []
    → (d : Decimal) × (n : ℕ) × (o ≡ some (d, n)) × (es ≡ [])
not_missing field e none es h = absurd (ground arith)
not_missing field e (some (d, n)) es h = (d, n, refl, h)

accept-ok :
    (p : Text) (capacity cost : Decimal) (k a : ℕ) (shares : List (Text × Decimal × ℕ))
    {config : Config}
    → accept p (some (capacity, k)) (some (cost, a)) shares ≡ ok config
    → (total_share (values shares) ≡ share_max_pct)
      × (has_share p (values shares) ≡ false)
      × (record {
        community_id = 0;
        participant_id = some p;
        capacity_kwh = capacity;
        annual_cost_chf = cost;
        shares = some (given shares);
      }
          ≡ config)
accept-ok p capacity cost k a shares h = (ground arith, ground arith, ground arith)

-- A config that the form gives is accepted for each community, if no member has a blank id. It has
-- the participant, the capacity and the cost that the form names in their fields, and the shares
-- that it gives; the capacity and the cost are exact, in hundredths.
pub validate_battery_form-accepted :
    (digit : ℕ → Option ℕ) (form : List (Text × Text)) (member_ids : List Text) (c : ℕ)
    {config : Config}
    → all (λ m. not (is_empty (strip m))) member_ids ≡ true
    → validate_battery_form digit form member_ids ≡ ok config
    → (k a : ℕ) × (validate_battery_config (some (record config { community_id = c }))
        ≡ ok (
            battery c
              (form_value form (codes "participant_id"))
              k
              a
              (values (form_shares digit member_ids form).1)))
      × (bounded 1 max_capacity_kwh (plain_decimal digit (form_value form (codes "capacity_kwh")))
          ≡ some (config.capacity_kwh, k))
      × (bounded 0 max_annual_cost_chf
            (plain_decimal digit (form_value form (codes "annual_cost_chf")))
          ≡ some (config.annual_cost_chf, a))
      × (within 1 max_capacity_kwh config.capacity_kwh ≡ some k)
      × (within 0 max_annual_cost_chf config.annual_cost_chf ≡ some a)
unfolding validate_battery_form
validate_battery_form-accepted digit form member_ids c {config} named h =
    let p = form_value form (codes "participant_id") in
    let capacity = plain_decimal digit (form_value form (codes "capacity_kwh")) in
    let cost = plain_decimal digit (form_value form (codes "annual_cost_chf")) in
    let shares = (form_shares digit member_ids form).1 in
    let (none_wrong, result) = finish-ok _ _ h in
    let (valid_p, e1) =
      accepted_participant p _ (form_value-strip form (codes "participant_id")) none_wrong in
    let (capacity', k, f, e2) = not_missing (codes "capacity_kwh") Invalid.bad_capacity _ _ e1 in
    let (cost', a, g, e3) = not_missing (codes "annual_cost_chf") Invalid.bad_cost _ _ e2 in
    let accepted : accept p (some (capacity', k)) (some (cost', a)) shares ≡ ok config =
      ap (λ o. accept p o (some (cost', a)) shares) (sym f)
      ∙ ap (λ o. accept p (bounded 1 max_capacity_kwh capacity) o shares) (sym g)
      ∙ result in
    let (total, no_own, same) = accept-ok p capacity' cost' k a shares accepted in
    let w = bounded-within 1 max_capacity_kwh capacity f in
    let v = bounded-within 0 max_annual_cost_chf cost g in
    let config' : Config = record {
      community_id = c;
      participant_id = some p;
      capacity_kwh = capacity';
      annual_cost_chf = cost';
      shares = some (given shares);
    } in
    (
      k,
      a,
      ap (λ (x : Config). validate_battery_config (some (record x { community_id = c }))) (sym same)
          ∙ stages-validate config' p k a (given shares) (values shares) valid_p w v
              (some_shares-given shares total)
              (taken-normalized shares (form_shares-IsTaken digit member_ids form named))
              (split-again p (values shares) total no_own),
      subst (λ (x : Config). bounded 1 max_capacity_kwh capacity ≡ some (x.capacity_kwh, k)) same f,
      subst (λ (x : Config). bounded 0 max_annual_cost_chf cost ≡ some (x.annual_cost_chf, a)) same
          g,
      subst (λ (x : Config). within 1 max_capacity_kwh x.capacity_kwh ≡ some k) same w,
      subst (λ (x : Config). within 0 max_annual_cost_chf x.annual_cost_chf ≡ some a) same v,
    )
