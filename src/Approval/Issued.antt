-- ===== src/Approval/Issued.antt =====
-- store/billing.py: when `approve_billing_period` issues the invoices of a draft, and what a second
-- call does.
use openleg.Prelude.{
  ℕ, suc, ◌+◌, ◌≤◌, ◌==◌, ◌≡◌, refl, ◌∙◌, false, ◌&&◌, not, inl, inr, Option, some, List, [], ◌∷◌,
  find, select, count, length-select, length, arith, ok, ==_refl, Bool-cases, Result-cases,
}
use openleg.Prelude.Text.{Text}
use openleg.Approval.Snapshots.{Period, PeriodStatus, Date, Snapshot, prepare_invoice_snapshots}
use openleg.Approval.Numbers.{invoice_number, next_invoice_sequence, clashes}
use openleg.Approval.Fresh.{next_invoice_sequence-fresh, next_invoice_sequence-next}
use openleg.Approval.Issue.{
  Community, IssuedInvoice, Db, period_invoices, insert_by_participant, sort_by_participant,
  numbers_of, items_of_period, lock_original_registrations, insert_invoices, prefix_of,
  issue_snapshots, set_issued, is_dual, issue_draft, is_period,
}

-- From the next sequence on the index refuses no number.
pub insert_invoices-ok :
    (prefix : Text) (year sequence : ℕ) (c : Community) (period_id : ℕ) (ss : List Snapshot)
    (invoices : List IssuedInvoice)
    → next_invoice_sequence prefix year (numbers_of c.community_id invoices) ≤ sequence
    → (issued : List IssuedInvoice) × (insert_invoices prefix year sequence c period_id ss invoices
        ≡ ok issued)
unfolding insert_invoices numbers_of
insert_invoices-ok prefix year sequence c period_id [] invoices h = (invoices, refl)
insert_invoices-ok prefix year sequence c period_id (s ∷ ss) invoices h =
    let number = invoice_number prefix year sequence in
    let row : IssuedInvoice = record {
      billing_period_id = period_id;
      community_id = c.community_id;
      invoice_number = number;
      issuer = c.name;
      snapshot = s;
    } in
    let fresh =
      next_invoice_sequence-fresh prefix year sequence (numbers_of c.community_id invoices) h in
    let next =
      next_invoice_sequence-next prefix year sequence (numbers_of c.community_id invoices) h in
    let (issued, e) =
      insert_invoices-ok prefix year (sequence + 1) c period_id ss (row ∷ invoices)
        (ground (arith, ==_refl c.community_id)) in
    (issued, ground arith)

-- Each loop adds a row for the period, unless there is none to add.
pub insert_invoices-some :
    (prefix : Text) (year sequence : ℕ) (c : Community) (period_id : ℕ) (ss : List Snapshot)
    (invoices : List IssuedInvoice) {issued : List IssuedInvoice}
    → insert_invoices prefix year sequence c period_id ss invoices ≡ ok issued
    → count (λ i. i.billing_period_id == period_id) issued
      ≡ length ss + count (λ i. i.billing_period_id == period_id) invoices
unfolding insert_invoices
insert_invoices-some prefix year sequence c period_id [] invoices h = ground arith
insert_invoices-some prefix year sequence c period_id (s ∷ ss) invoices {issued} h =
    elim (Bool-cases
      (clashes (invoice_number prefix year sequence) (numbers_of c.community_id invoices))) [
        | inl e ↦ ground arith
        | inr e ↦
            let row : IssuedInvoice = record {
              billing_period_id = period_id;
              community_id = c.community_id;
              invoice_number = invoice_number prefix year sequence;
              issuer = c.name;
              snapshot = s;
            } in
            let rest =
              insert_invoices-some prefix year (sequence + 1) c period_id ss (row ∷ invoices)
                {issued = issued} (ground arith) in
            ground (arith, ==_refl period_id)
      ]

length-insert :
    (i : IssuedInvoice) (js : List IssuedInvoice)
    → length (insert_by_participant i js) ≡ suc (length js)
unfolding insert_by_participant
length-insert i [] = refl
length-insert i (j ∷ js) = ground (arith, length-insert i js)

length-sort : (js : List IssuedInvoice) → length (sort_by_participant js) ≡ length js
unfolding sort_by_participant
length-sort [] = refl
length-sort (j ∷ js) = ground (arith, length-insert j (sort_by_participant js), length-sort js)

pub length-period_invoices :
    (invoices : List IssuedInvoice) (period_id : ℕ)
    → length (period_invoices invoices period_id)
      ≡ count (λ i. i.billing_period_id == period_id) invoices
unfolding period_invoices
length-period_invoices invoices period_id =
    length-sort (select (λ i. i.billing_period_id == period_id) invoices)
    ∙ length-select (λ i. i.billing_period_id == period_id) invoices

-- Setting the status keeps which period is found.
pub find-set_issued :
    (period_id community : ℕ) (periods : List Period) {p : Period}
    → find (is_period period_id community) periods ≡ some p
    → find (is_period period_id community) (set_issued period_id periods)
      ≡ some (record p { status = PeriodStatus.issued })
find-set_issued period_id community [] h = ground arith
find-set_issued period_id community (q ∷ qs) {p} h = elim (Bool-cases (q.id == period_id)) [
  | inl e ↦ elim (Bool-cases (q.community_id == community)) [
    | inl f ↦ ground arith
    | inr f ↦ ground (arith, find-set_issued period_id community qs {p = p})
  ]
  | inr e ↦ ground (arith, find-set_issued period_id community qs {p = p})
]

-- What `issue_draft` has passed.
pub issue_draft-parts :
    (db : Db) (c : Community) (period : Period) (date : Date) (approver : Option ℕ)
    {result : List IssuedInvoice × Db}
    → issue_draft db c period date approver ≡ ok result
    → (s : Snapshot) × (ss : List Snapshot) × (issued : List IssuedInvoice)
      × ((c.require_dual_control && not (is_dual period.prepared_by approver)) ≡ false)
      × (prepare_invoice_snapshots period (items_of_period period.id db.line_items) date
          ≡ ok (s ∷ ss))
      × (insert_invoices
            (prefix_of s)
            date.year
            (next_invoice_sequence (prefix_of s) date.year (numbers_of c.community_id db.invoices))
            c
            period.id
            (s ∷ ss)
            db.invoices
          ≡ ok issued)
      × (result ≡ (
        period_invoices issued period.id,
        record db { invoices = issued; periods = set_issued period.id db.periods },
      ))
unfolding issue_draft issue_snapshots
issue_draft-parts db c period date approver {result} h =
    elim (Bool-cases (c.require_dual_control && not (is_dual period.prepared_by approver))) [
      | inl e ↦ ground arith
      | inr e ↦
          elim (Result-cases (
            lock_original_registrations db.buildings period.participant_registrations
              (items_of_period period.id db.line_items))) [
                | inl (x, f) ↦ ground arith
                | inr (u, f) ↦
                    elim (Result-cases (
                      prepare_invoice_snapshots period (items_of_period period.id db.line_items)
                        date)) [
                          | inl (x, g) ↦ ground arith
                          | inr ([], g) ↦ ground arith
                          | inr (s ∷ ss, g) ↦
                              elim (Result-cases (
                                insert_invoices (prefix_of s) date.year
                                  (next_invoice_sequence (prefix_of s) date.year
                                    (numbers_of c.community_id db.invoices))
                                  c period.id (s ∷ ss) db.invoices)) [
                                    | inl (x, k) ↦ ground arith
                                    | inr (issued, k) ↦ (s, ss, issued, e, g, k, ground arith)
                                  ]
                        ]
              ]
    ]
