-- ===== src/Approval/Issue.antt =====
-- store/billing.py, `approve_billing_period` and `record_billing_period_preparer`, and
-- store/invoice_identity.py, for periods whose `calculated_values_fingerprint` is NULL. The table of
-- the invoices stands newest first, the one of the line items in the order of the ids. The unique
-- index on the period and the participant is left out.
use openleg.Prelude.{
  ℕ, ◌+◌, ◌==◌, Bool, true, false, ◌&&◌, not, Option, none, some, List, [], ◌∷◌, any, all, find,
  select, update, ltb, if◌then◌else◌, Result, ok, err, ◌>>=◌, ◌>>◌, raise_if, or_raise,
}
use openleg.Prelude.Text.{Text, is_empty, strip, text_eq, codes}
use openleg.Invoices.State.{Building}
use openleg.Approval.Lines.{Item, Error}
use openleg.Approval.Snapshots.{Period, PeriodStatus, Date, Snapshot, prepare_invoice_snapshots}
use openleg.Approval.Numbers.{invoice_number, next_invoice_sequence, clashes}

pub record Community : Type 0 where
  pub community_id : ℕ
  pub name : Text
  pub is_active : Bool
  pub require_dual_control : Bool

-- A row of `invoices` with status issued; its amounts and dates are those of the snapshot.
pub record IssuedInvoice : Type 0 where
  pub billing_period_id : ℕ
  pub community_id : ℕ
  pub invoice_number : Text
  pub issuer : Text
  pub snapshot : Snapshot

pub record Db : Type 0 where
  pub communities : List Community
  pub periods : List Period
  -- the rows of `billing_line_items`, with the period
  pub line_items : List (ℕ × Item)
  pub buildings : List Building
  pub invoices : List IssuedInvoice

unfoldable pub insert_by_participant : IssuedInvoice → List IssuedInvoice → List IssuedInvoice
insert_by_participant i [] = i ∷ []
insert_by_participant i (j ∷ js) =
    let rest = insert_by_participant i js in
    if ltb j.snapshot.participant_id i.snapshot.participant_id then j ∷ rest else i ∷ j ∷ js

unfoldable pub sort_by_participant : List IssuedInvoice → List IssuedInvoice
unfolding insert_by_participant
sort_by_participant [] = []
sort_by_participant (i ∷ is) = insert_by_participant i (sort_by_participant is)

-- `_period_invoices`
unfoldable pub period_invoices : List IssuedInvoice → ℕ → List IssuedInvoice
unfolding sort_by_participant
period_invoices invoices period_id =
    sort_by_participant (select (λ i. i.billing_period_id == period_id) invoices)

-- The rows of the query of `_next_invoice_sequence`, before its pattern.
unfoldable pub numbers_of : ℕ → List IssuedInvoice → List Text
numbers_of community [] = []
numbers_of community (i ∷ is) =
    let rest = numbers_of community is in
    if i.community_id == community then i.invoice_number ∷ rest else rest

abbrev pub items_of_period : ℕ → List (ℕ × Item) → List Item
items_of_period period_id [] = []
items_of_period period_id ((p, item) ∷ rows) =
    let rest = items_of_period period_id rows in if p == period_id then item ∷ rest else rest

abbrev has_code : List Building → ℕ × Text → Bool
has_code buildings (p, code) = elim (find (λ b. b.building_id == p) buildings) [
  | none ↦ false
  | some b ↦ text_eq b.referral_code code
]

-- `lock_original_registrations`
unfoldable pub lock_original_registrations :
    List Building → List (ℕ × Text) → List Item → Result Error (Unit {0})
lock_original_registrations buildings registrations items = do
  raise_if (not (all (λ r. any (λ i. i.participant_id == r.0) items) registrations))
      Error.registrations_changed
  raise_if (not (all (λ i. any (λ r. r.0 == i.participant_id) registrations) items))
      Error.registrations_changed
  raise_if (any (λ r. is_empty r.1) registrations) Error.registrations_changed
  raise_if (not (all (has_code buildings) registrations)) Error.registrations_changed

-- The loop over the snapshots. The unique index on the community and the number refuses a number
-- that is there.
unfoldable pub insert_invoices :
    Text
    → ℕ
    → ℕ
    → Community
    → ℕ
    → List Snapshot
    → List IssuedInvoice
    → Result Error (List IssuedInvoice)
insert_invoices prefix year sequence c period_id [] invoices = ok invoices
insert_invoices prefix year sequence c period_id (s ∷ ss) invoices = do
  let number = invoice_number prefix year sequence
  raise_if (clashes number (numbers_of c.community_id invoices)) Error.store_error
  let row : IssuedInvoice = record {
    billing_period_id = period_id;
    community_id = c.community_id;
    invoice_number = number;
    issuer = c.name;
    snapshot = s;
  }
  insert_invoices prefix year (sequence + 1) c period_id ss (row ∷ invoices)

-- `str(snapshots[0]["policy_snapshot"]["invoice_prefix"])`
abbrev pub prefix_of : Snapshot → Text
prefix_of s = elim s.policy_snapshot.invoice_prefix [ none ↦ codes "None" | some prefix ↦ prefix ]

unfoldable pub issue_snapshots :
    Db → Community → ℕ → Date → List Snapshot → Result Error (List IssuedInvoice)
unfolding insert_invoices
issue_snapshots db c period_id issue_date [] = err Error.store_error
issue_snapshots db c period_id issue_date (s ∷ ss) =
    insert_invoices (prefix_of s) issue_date.year
      (next_invoice_sequence (prefix_of s) issue_date.year (numbers_of c.community_id db.invoices))
      c period_id (s ∷ ss) db.invoices

-- `UPDATE billing_periods SET status = 'issued'`
abbrev pub set_issued : ℕ → List Period → List Period
set_issued period_id periods =
    update (λ p. p.id == period_id) (λ p. record p { status = PeriodStatus.issued }) periods

-- The preparer is recorded and is not the approver.
abbrev pub is_dual : Option ℕ → Option ℕ → Bool
is_dual (some preparer) (some approver) = not (preparer == approver)
is_dual _ _ = false

-- The part of `approve_billing_period` for a draft.
unfoldable pub issue_draft :
    Db → Community → Period → Date → Option ℕ → Result Error (List IssuedInvoice × Db)
unfolding lock_original_registrations issue_snapshots
issue_draft db c period issue_date approver = do
  raise_if (c.require_dual_control && not (is_dual period.prepared_by approver)) Error.dual_control
  let items = items_of_period period.id db.line_items
  lock_original_registrations db.buildings period.participant_registrations items
  snapshots ← prepare_invoice_snapshots period items issue_date
  invoices ← issue_snapshots db c period.id issue_date snapshots
  let db' = record db { invoices = invoices; periods = set_issued period.id db.periods }
  ok (period_invoices invoices period.id, db')

unfoldable pub by_status :
    PeriodStatus
    → Db
    → Community
    → Period
    → Date
    → Option ℕ
    → Result Error (List IssuedInvoice × Db)
by_status PeriodStatus.issued db c period issue_date approver =
    elim (period_invoices db.invoices period.id) [
      | [] ↦ err Error.no_invoices
      | i ∷ is ↦ ok (i ∷ is, db)
    ]
by_status PeriodStatus.invalidated db c period issue_date approver = err Error.not_draft
by_status PeriodStatus.draft db c period issue_date approver =
    issue_draft db c period issue_date approver

abbrev pub is_period : ℕ → ℕ → Period → Bool
is_period period_id community p = p.id == period_id && p.community_id == community

abbrev pub is_community : ℕ → Community → Bool
is_community community c = c.community_id == community && c.is_active

-- `approve_billing_period`
unfoldable pub approve_billing_period :
    Db → ℕ → ℕ → Date → Option ℕ → Result Error (List IssuedInvoice × Db)
unfolding by_status
approve_billing_period db period_id community issue_date approver = do
  c ← or_raise (find (is_community community) db.communities) Error.community_inactive
  raise_if (is_empty (strip c.name)) Error.no_issuer
  period ← or_raise (find (is_period period_id community) db.periods) Error.period_not_found
  by_status period.status db c period issue_date approver

abbrev status_is_draft : PeriodStatus → Bool
status_is_draft PeriodStatus.draft = true
status_is_draft _ = false

-- `record_billing_period_preparer`
unfoldable record_billing_period_preparer : Db → ℕ → ℕ → Option ℕ → Bool × Db
record_billing_period_preparer db period_id community none = (false, db)
record_billing_period_preparer db period_id community (some actor) =
    let is_draft : Period → Bool =
      λ p. is_period period_id community p && status_is_draft p.status in
    (
      any is_draft db.periods,
      record db {
        periods = update is_draft (λ p. record p { prepared_by = some actor }) db.periods;
      },
    )
