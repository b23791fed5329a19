-- ===== src/Approval/Snapshots.antt =====
-- billing_approval.py, `prepare_invoice_snapshots`, for drafts without battery and without an E66
-- certificate (`battery_snapshot` is NULL, and the reconciliation has neither `precision_policy` nor the keys of
-- the old tolerance rule). Amounts of
-- an invoice are cents, those of a line are millionths of a franc. A snapshot keeps of the
-- provenance the registration and the rounding adjustment.
use openleg.Prelude.{
  ℕ, suc, ◌+◌, ◌*◌, ◌/◌, ◌==◌, Bool, true, false, ◌&&◌, ◌||◌, not, Option, none, some, List, [],
  ◌∷◌, any, all, find, map, ltb, leb, length, if◌then◌else◌, Result, ok, err, ◌>>=◌, ◌>>◌, raise_if,
}
use openleg.Prelude.Int.{ℤ, pos, negsuc, negate, ◌+ℤ◌}
use openleg.Prelude.Text.{Text, is_empty, strip}
use openleg.Approval.Lines.{ItemType, type_eq, Item, Error}
use openleg.Approval.Totals.{require_wellformed_line_items}
use openleg.Approval.Policy.{Policy, ValidPolicy, validate_persisted_policy}
use openleg.Approval.Reconciliation.{Reconciliation, require_canonical_reconciliation}
use openleg.Approval.Participants.{participants, items_of, sum_amounts}

pub data PeriodStatus : Type 0 where
  draft issued invalidated : PeriodStatus

-- A row of `billing_periods`.
pub record Period : Type 0 where
  pub id : ℕ
  pub community_id : ℕ
  pub period_start : ℕ
  pub period_end : ℕ
  pub input_fingerprint : Text
  pub source_document_ids : List Text
  pub reconciliation : Reconciliation
  pub participant_registrations : List (ℕ × Text)
  pub billing_policy_snapshot : Policy
  pub prepared_by : Option ℕ
  pub status : PeriodStatus

-- A date with its year and its day number.
pub record Date : Type 0 where
  pub year : ℕ
  pub day : ℕ

pub record Snapshot : Type 0 where
  pub participant_id : ℕ
  pub participant_registration_id : Option Text
  pub rounding_adjustment : Option (Option ℤ)
  pub line_items_snapshot : List Item
  pub net_chf : ℤ
  pub vat_rate_pct : ℕ
  pub vat_chf : ℤ
  pub gross_chf : ℤ
  pub issue_date : ℕ
  pub due_date : ℕ
  pub policy_snapshot : Policy

-- `(value / 10000).quantize(1, ROUND_HALF_UP)`: a half goes away from zero.
unfoldable pub half_up : ℤ → ℤ
half_up (pos n) = pos ((n + 5000) / 10000)
half_up (negsuc n) = negate ((suc n + 5000) / 10000)

-- `value * n`
abbrev pub times : ℤ → ℕ → ℤ
times (pos m) n = pos (m * n)
times (negsuc m) n = negate (suc m * n)

abbrev is_hex : ℕ → Bool
is_hex c = (leb 48 c && leb c 57) || (leb 97 c && leb c 102)

-- `_FINGERPRINT_PATTERN`
abbrev is_fingerprint : Text → Bool
is_fingerprint s = (length s == 64) && all is_hex s

abbrev no_sources : List Text → Bool
no_sources [] = true
no_sources (s ∷ ss) = false

abbrev registration_of : ℕ → List (ℕ × Text) → Option Text
registration_of p [] = none
registration_of p ((q, r) ∷ rows) =
    let rest = registration_of p rows in if q == p then some r else rest

abbrev rounding_of : List Item → Option (Option ℤ)
rounding_of items =
    elim (find (λ item. type_eq item.item_type ItemType.rounding_adjustment) items) [
      | none ↦ none
      | some item ↦ some item.amount_chf
    ]

-- One round of the loop over the participants.
unfoldable pub snapshot_of : Period → Date → ValidPolicy → List Item → ℕ → Snapshot
unfolding half_up
snapshot_of period issue_date policy line_items p =
    let items = items_of p line_items in
    let net = half_up (sum_amounts items) in
    let vat = half_up (times net policy.vat_rate) in
    record {
      participant_id = p;
      participant_registration_id = registration_of p period.participant_registrations;
      rounding_adjustment = rounding_of items;
      line_items_snapshot = items;
      net_chf = net;
      vat_rate_pct = policy.vat_rate;
      vat_chf = vat;
      gross_chf = net +ℤ vat;
      issue_date = issue_date.day;
      due_date = issue_date.day + policy.payment_days;
      policy_snapshot = period.billing_policy_snapshot;
    }

abbrev pub valid_policy : Period → Result Error ValidPolicy
valid_policy period =
    elim (validate_persisted_policy period.billing_policy_snapshot period.period_start
      period.community_id) [ ok policy ↦ ok policy | err e ↦ err Error.invalid_policy ]

abbrev require_draft : PeriodStatus → Result Error (Unit {0})
require_draft PeriodStatus.draft = ok tt
require_draft _ = err Error.not_draft

-- Its checks of the period.
abbrev pub require_period : Period → Result Error (Unit {0})
require_period period = do
  require_draft period.status
  raise_if (not (ltb period.period_start period.period_end)) Error.invalid_window
  raise_if (not (is_fingerprint period.input_fingerprint)) Error.invalid_fingerprint
  raise_if (no_sources period.source_document_ids) Error.missing_sources
  raise_if (any (λ s. is_empty (strip s)) period.source_document_ids) Error.invalid_source

-- `prepare_invoice_snapshots`; the items are in the order of their ids.
unfoldable pub prepare_invoice_snapshots : Period → List Item → Date → Result Error (List Snapshot)
unfolding snapshot_of
prepare_invoice_snapshots period line_items issue_date = do
  require_period period
  policy ← valid_policy period
  t ← require_wellformed_line_items line_items policy.internal_price policy.settlement_fee
  require_canonical_reconciliation period.reconciliation t.consumption_kwh t.production_kwh false
  raise_if (any (λ item. type_eq item.item_type ItemType.battery_cost_share) line_items)
      Error.unexpected_share
  ok (map (snapshot_of period issue_date policy line_items) (participants line_items))
