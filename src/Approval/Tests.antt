-- ===== src/Approval/Tests.antt =====
-- The theorems on the approval at a concrete draft: two consumers, a producer, and a rounding
-- adjustment of a millionth of a franc.
use openleg.Prelude.{
  ℕ, ◌+◌, ◌*◌, ◌≤◌, ◌≡◌, ◌≢◌, refl, arith, Bool, true, false, List, [], ◌∷◌, Option, some, none, ok,
  err, Result, find, length, map,
}
use openleg.Prelude.Int.{ℤ, pos, negsuc}
use openleg.Prelude.Text.{Text, codes}
use openleg.Invoices.State.{Building}
use openleg.Approval.Lines.{ItemType, Item}
use openleg.Approval.Totals.{require_wellformed_line_items}
use openleg.Approval.Balance.{pooled_total, wellformed-balanced}
use openleg.Approval.Bounds.{count_of, is_rounding, wellformed-rounding_bound}
use openleg.Approval.Policy.{Policy, VatMode, ValidPolicy}
use openleg.Approval.Reconciliation.{
  Node, Reconciliation, IsConfirmed, VnbQuantities, sum_kwh, reconciliation-by_vnb,
}
use openleg.Approval.Snapshots.{
  Period, PeriodStatus, Date, Snapshot, times, prepare_invoice_snapshots,
}
use openleg.Approval.Rounding.{distance_ℤ}
use openleg.Approval.Settlement.{sum_nets, fee_total, prepare-settles}
use openleg.Approval.Numbers.{invoice_number, next_invoice_sequence}
use openleg.Approval.Issue.{Community, IssuedInvoice, Db, approve_billing_period}
use openleg.Approval.Approved.{approve-dual_control, approve-issues, approve-again}

abbrev line : ℕ → ℕ → ItemType → ℕ → ℕ → ℤ → Item
line i p type quantity price amount = record {
  id = i;
  participant_id = p;
  item_type = type;
  quantity_kwh = some (pos quantity);
  unit_price_chf_per_kwh = some (pos price);
  amount_chf = some amount;
}

abbrev two_consumers : List Item
two_consumers =
    line 1 4 ItemType.consumer_charge 1_234_567 200_000 (pos 246_913)
    ∷ line 2 4 ItemType.settlement_fee 1_234_567 10_000 (pos 12_346)
    ∷ line 3 5 ItemType.consumer_charge 1_000_002 200_000 (pos 200_000)
    ∷ line 4 5 ItemType.settlement_fee 1_000_002 10_000 (pos 10_000)
    ∷ line 5 6 ItemType.producer_credit 2_234_569 200_000 (negsuc 446_913)
    ∷ record {
      id = 6;
      participant_id = 6;
      item_type = ItemType.rounding_adjustment;
      quantity_kwh = none;
      unit_price_chf_per_kwh = none;
      amount_chf = some (pos 1);
    }
    ∷ []

wellformed-balanced_example : pooled_total two_consumers ≡ pos 0
unfolding require_wellformed_line_items openleg.Approval.Totals.add_items
    openleg.Approval.Lines.validated_line_item openleg.Prelude.Int.◌+ℤ◌ openleg.Prelude.Int.◌-ℤ◌
wellformed-balanced_example = wellformed-balanced two_consumers 200_000 10_000 refl (omega arith)

wellformed-rounding_bound_example :
    (count_of is_rounding two_consumers ≤ 1) × (2_000_000 * 1 ≤ 3 * (200_000 + 1_000_000))
unfolding require_wellformed_line_items openleg.Approval.Totals.add_items
    openleg.Approval.Lines.validated_line_item openleg.Prelude.Int.◌+ℤ◌ openleg.Prelude.Int.◌-ℤ◌
wellformed-rounding_bound_example = wellformed-rounding_bound two_consumers 200_000 10_000 refl

-- Measurements to a ten-millionth of a kWh.
abbrev measured : ℕ → Node
measured kwh = record {
  vnb_kwh = some (pos (10 * kwh));
  engine_kwh = some (pos (10 * kwh));
  difference_kwh = some (pos 0);
}

-- The VNB names 4 ten-millionths of a kWh less than the 1.234567 kWh that are billed.
abbrev slightly_less : Node
slightly_less = record (measured 1_234_567) { vnb_kwh = some (pos 12_345_666) }

abbrev evidence : Reconciliation
evidence = record {
  places = 1;
  allocated = measured 2_234_569;
  production = measured 2_234_569;
  per_participant = some ((4, slightly_less) ∷ (5, measured 1_000_002) ∷ []);
  production_per_participant = some ((6, measured 2_234_569) ∷ []);
}

abbrev consumed : List (ℕ × ℕ)
consumed = (5, 1_000_002) ∷ (4, 1_234_567) ∷ []

abbrev produced : List (ℕ × ℕ)
produced = (6, 2_234_569) ∷ []

reconciliation-by_vnb_example :
    IsConfirmed 10 false evidence.allocated.vnb_kwh (sum_kwh consumed)
    × IsConfirmed 10 false evidence.production.vnb_kwh (sum_kwh produced)
    × VnbQuantities 10 false evidence.per_participant consumed
    × VnbQuantities 10 false evidence.production_per_participant produced
unfolding openleg.Approval.Reconciliation.require_canonical_reconciliation openleg.Prelude.Int.◌-ℤ◌
reconciliation-by_vnb_example = reconciliation-by_vnb evidence consumed produced false refl

abbrev prefix_text : Text
prefix_text = codes "LEG-A"

abbrev terms : Policy
terms = record {
  tariff_id = some 3;
  community_id = some 7;
  effective_from = some 1;
  internal_price_chf_per_kwh = some 200_000;
  grid_fee_chf_per_kwh = some 90_000;
  settlement_fee_chf_per_kwh = some 10_000;
  vat_mode = some VatMode.standard;
  vat_rate_pct = some 810;
  payment_days = some 30;
  invoice_prefix = some prefix_text;
}

abbrev june : Period
june = record {
  id = 2;
  community_id = 7;
  period_start = 150;
  period_end = 180;
  input_fingerprint = codes "0123456789abcdef0123456789abcdef0123456789abcdef0123456789abcdef";
  source_document_ids = codes "doc" ∷ [];
  reconciliation = evidence;
  participant_registrations = (4, codes "R4") ∷ (5, codes "R5") ∷ (6, codes "R6") ∷ [];
  billing_policy_snapshot = terms;
  prepared_by = some 8;
  status = PeriodStatus.draft;
}

abbrev july_first : Date
july_first = record { year = 2026; day = 181 }

abbrev snapshots : List Snapshot
unfolding prepare_invoice_snapshots
snapshots = elim (prepare_invoice_snapshots june two_consumers july_first) [
  | ok ss ↦ ss
  | err e ↦ []
]

prepare-settles_example :
    2 * distance_ℤ (times (sum_nets snapshots) 10_000) (fee_total two_consumers) ≤ 10_000 * 3
unfolding prepare_invoice_snapshots openleg.Prelude.Text.strip
    openleg.Approval.Policy.validate_persisted_policy require_wellformed_line_items
    openleg.Approval.Totals.add_items openleg.Approval.Lines.validated_line_item
    openleg.Prelude.Int.◌+ℤ◌ openleg.Prelude.Int.◌-ℤ◌
    openleg.Approval.Reconciliation.require_canonical_reconciliation sum_nets
    openleg.Approval.Participants.participants
prepare-settles_example = prepare-settles june two_consumers july_first refl (omega arith)

abbrev village : Community
village = record {
  community_id = 7;
  name = codes "Dorf";
  is_active = true;
  require_dual_control = true;
}

abbrev home : ℕ → Text → Building
home b code = record { building_id = b; referral_code = code; email = []; preferred_locale = 0 }

abbrev draft_db : Db
draft_db = record {
  communities = village ∷ [];
  periods = june ∷ [];
  line_items = map (λ item. (2, item)) two_consumers;
  buildings = home 4 (codes "R4") ∷ home 5 (codes "R5") ∷ home 6 (codes "R6") ∷ [];
  invoices = [];
}

approve-dual_control_example : (p a : ℕ) × (some 8 ≡ some p) × (some 9 ≡ some a) × (p ≢ a)
unfolding approve_billing_period openleg.Prelude.Text.strip openleg.Approval.Issue.issue_draft
    prepare_invoice_snapshots openleg.Approval.Policy.validate_persisted_policy
    require_wellformed_line_items openleg.Approval.Totals.add_items
    openleg.Approval.Lines.validated_line_item openleg.Prelude.Int.◌+ℤ◌ openleg.Prelude.Int.◌-ℤ◌
    openleg.Approval.Reconciliation.require_canonical_reconciliation
    openleg.Approval.Participants.participants openleg.Approval.Issue.numbers_of invoice_number
    next_invoice_sequence
approve-dual_control_example =
    approve-dual_control draft_db 2 7 july_first (some 9) village june refl refl refl refl refl

approve-issues_example :
    (answer : List IssuedInvoice) × (db' : Db) × (approve_billing_period draft_db 2 7 july_first
        (some 9)
      ≡ ok (answer, db'))
    × (length answer ≡ 3)
unfolding openleg.Prelude.Text.strip openleg.Approval.Issue.lock_original_registrations
    prepare_invoice_snapshots openleg.Approval.Policy.validate_persisted_policy
    require_wellformed_line_items openleg.Approval.Totals.add_items
    openleg.Approval.Lines.validated_line_item openleg.Prelude.Int.◌+ℤ◌ openleg.Prelude.Int.◌-ℤ◌
    openleg.Approval.Reconciliation.require_canonical_reconciliation
    openleg.Approval.Participants.participants openleg.Approval.Issue.period_invoices
approve-issues_example =
    approve-issues draft_db 2 7 july_first (some 9) village june _ _ refl refl refl refl refl refl
      refl

abbrev issued_db : Db
unfolding approve_billing_period
issued_db = elim (approve_billing_period draft_db 2 7 july_first (some 9)) [
  | ok (answer, db) ↦ db
  | err e ↦ draft_db
]

abbrev issued_invoices : List IssuedInvoice
unfolding approve_billing_period
issued_invoices = elim (approve_billing_period draft_db 2 7 july_first (some 9)) [
  | ok (answer, db) ↦ answer
  | err e ↦ []
]

abbrev july_second : Date
july_second = record { year = 2026; day = 182 }

approve-again_example :
    approve_billing_period issued_db 2 7 july_second none ≡ ok (issued_invoices, issued_db)
unfolding approve_billing_period openleg.Prelude.Text.strip openleg.Approval.Issue.issue_draft
    prepare_invoice_snapshots openleg.Approval.Policy.validate_persisted_policy
    require_wellformed_line_items openleg.Approval.Totals.add_items
    openleg.Approval.Lines.validated_line_item openleg.Prelude.Int.◌+ℤ◌ openleg.Prelude.Int.◌-ℤ◌
    openleg.Approval.Reconciliation.require_canonical_reconciliation
    openleg.Approval.Participants.participants openleg.Approval.Issue.numbers_of invoice_number
    next_invoice_sequence
approve-again_example =
    approve-again draft_db 2 7 july_first july_second (some 9) none {answer = issued_invoices}
      {db' = issued_db} refl
