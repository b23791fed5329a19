-- ===== src/Approval/Approved.antt =====
-- store/billing.py: the two answers of `approve_billing_period`, for a draft and for an issued period.
use openleg.Prelude.{
  ℕ, suc, ◌+◌, ◌≡◌, ◌≢◌, refl, sym, ap, ◌∙◌, true, false, ◌&&◌, not, inl, inr, Option, none, some,
  List, [], ◌∷◌, find, length, arith, ok, find_test, Bool-cases, Option-cases,
}
use mathlib.Core.Path.{subst}
use openleg.Prelude.Text.{is_empty, strip}
use openleg.Approval.Snapshots.{Period, PeriodStatus, Date, Snapshot, prepare_invoice_snapshots}
use openleg.Approval.Numbers.{next_invoice_sequence}
use openleg.Approval.Issue.{
  Community, IssuedInvoice, Db, period_invoices, numbers_of, items_of_period,
  lock_original_registrations, prefix_of, issue_snapshots, set_issued, is_dual, issue_draft,
  by_status, is_period, is_community, approve_billing_period,
}
use openleg.Approval.Issued.{
  issue_draft-parts, insert_invoices-ok, insert_invoices-some, find-set_issued,
  length-period_invoices,
}

-- What `approve_billing_period` reads first.
approve-parts :
    (db : Db) (period_id community : ℕ) (date : Date) (approver : Option ℕ)
    {result : List IssuedInvoice × Db}
    → approve_billing_period db period_id community date approver ≡ ok result
    → (c : Community) × (period : Period) × (find (is_community community) db.communities ≡ some c)
      × (is_empty (strip c.name) ≡ false)
      × (find (is_period period_id community) db.periods ≡ some period)
      × (by_status period.status db c period date approver ≡ ok result)
unfolding approve_billing_period
approve-parts db period_id community date approver {result} h =
    elim (Option-cases (find (is_community community) db.communities)) [
      | inl e ↦ ground arith
      | inr (c, e) ↦ elim (Bool-cases (is_empty (strip c.name))) [
        | inl f ↦ ground arith
        | inr f ↦ elim (Option-cases (find (is_period period_id community) db.periods)) [
          | inl g ↦ ground arith
          | inr (period, g) ↦ (c, period, e, f, g, ground arith)
        ]
      ]
    ]

approve-from :
    (db : Db) (period_id community : ℕ) (date : Date) (approver : Option ℕ) (c : Community)
    (period : Period)
    → find (is_community community) db.communities ≡ some c
    → is_empty (strip c.name) ≡ false
    → find (is_period period_id community) db.periods ≡ some period
    → approve_billing_period db period_id community date approver
      ≡ by_status period.status db c period date approver
unfolding approve_billing_period
approve-from db period_id community date approver c period e f g = ground arith

is_dual-parts :
    (preparer approver : Option ℕ)
    → is_dual preparer approver ≡ true
    → (p a : ℕ) × (preparer ≡ some p) × (approver ≡ some a) × (p ≢ a)
is_dual-parts (some p) (some a) h = (p, a, refl, refl, λ same. ground arith)
is_dual-parts none approver h = ground arith
is_dual-parts (some p) none h = ground arith

-- If the community requires dual control and a draft is approved, then its preparer is recorded, the
-- approver is named, and they are two persons.
pub approve-dual_control :
    (db : Db) (period_id community : ℕ) (date : Date) (approver : Option ℕ) (c : Community)
    (period : Period) {result : List IssuedInvoice × Db}
    → find (is_community community) db.communities ≡ some c
    → c.require_dual_control ≡ true
    → find (is_period period_id community) db.periods ≡ some period
    → period.status ≡ PeriodStatus.draft
    → approve_billing_period db period_id community date approver ≡ ok result
    → (p a : ℕ) × (period.prepared_by ≡ some p) × (approver ≡ some a) × (p ≢ a)
unfolding by_status
approve-dual_control db period_id community date approver c period {result} e d f s h =
    let (c', period', e', n, f', b) = approve-parts db period_id community date approver h in
    let same_c : c' ≡ c = ground arith in
    let named = subst (λ c. is_empty (strip c.name) ≡ false) same_c n in
    let run : by_status PeriodStatus.draft db c period date approver ≡ ok result =
      sym (ap (λ status. by_status status db c period date approver) s)
      ∙ sym (approve-from db period_id community date approver c period e named f)
      ∙ h in
    let parts = issue_draft-parts db c period date approver run in
    is_dual-parts period.prepared_by approver (ground arith)

-- If a draft of an active and named community passes the checks that come before the numbering, then
-- it is issued: the unique index of the numbers refuses none of its invoices, one for each snapshot.
pub approve-issues :
    (db : Db) (period_id community : ℕ) (date : Date) (approver : Option ℕ) (c : Community)
    (period : Period) (s : Snapshot) (ss : List Snapshot)
    → find (is_community community) db.communities ≡ some c
    → is_empty (strip c.name) ≡ false
    → find (is_period period_id community) db.periods ≡ some period
    → period.status ≡ PeriodStatus.draft
    → (c.require_dual_control && not (is_dual period.prepared_by approver)) ≡ false
    → lock_original_registrations db.buildings period.participant_registrations
        (items_of_period period.id db.line_items)
      ≡ ok tt
    → prepare_invoice_snapshots period (items_of_period period.id db.line_items) date ≡ ok (s ∷ ss)
    → (answer : List IssuedInvoice) × (db' : Db) × (approve_billing_period db period_id community
          date approver
        ≡ ok (answer, db'))
      × (length answer ≡ length (s ∷ ss) + length (period_invoices db.invoices period.id))
unfolding by_status issue_draft issue_snapshots
approve-issues db period_id community date approver c period s ss e n f st dual locked prepared =
    let first =
      next_invoice_sequence (prefix_of s) date.year (numbers_of c.community_id db.invoices) in
    let (issued, run) =
      insert_invoices-ok (prefix_of s) date.year first c period.id (s ∷ ss) db.invoices
        (omega arith) in
    let many =
      insert_invoices-some (prefix_of s) date.year first c period.id (s ∷ ss) db.invoices run in
    let all = length-period_invoices issued period.id in
    let before = length-period_invoices db.invoices period.id in
    let db' : Db = record db { invoices = issued; periods = set_issued period.id db.periods } in
    (
      period_invoices issued period.id,
      db',
      approve-from db period_id community date approver c period e n f
          ∙ ap (λ status. by_status status db c period date approver) st
          ∙ ground arith,
      omega arith,
    )

by_status-issued :
    (db : Db) (c : Community) (period : Period) (date : Date) (approver : Option ℕ) (n : ℕ)
    → length (period_invoices db.invoices period.id) ≡ suc n
    → by_status PeriodStatus.issued db c period date approver
      ≡ ok (period_invoices db.invoices period.id, db)
unfolding by_status
by_status-issued db c period date approver n h = elim (period_invoices db.invoices period.id) [
  | [] ↦ ground arith
  | i ∷ is ↦ ground arith
]

issued-unchanged :
    (db : Db) (c : Community) (period : Period) (date : Date) (approver : Option ℕ)
    {answer : List IssuedInvoice} {db' : Db}
    → by_status PeriodStatus.issued db c period date approver ≡ ok (answer, db')
    → db' ≡ db
unfolding by_status
issued-unchanged db c period date approver h = elim (period_invoices db.invoices period.id) [
  | [] ↦ ground arith
  | i ∷ is ↦ ground arith
]

same_id :
    (period_id community : ℕ) (periods : List Period) {period : Period}
    → find (is_period period_id community) periods ≡ some period
    → period.id ≡ period_id
same_id period_id community periods {period} h =
    let test = find_test (is_period period_id community) periods h in ground arith

-- If a call succeeds, then every later call for the period answers the same invoices and changes
-- nothing, whatever its date and its approver are.
pub approve-again :
    (db : Db) (period_id community : ℕ) (date later : Date) (approver other : Option ℕ)
    {answer : List IssuedInvoice} {db' : Db}
    → approve_billing_period db period_id community date approver ≡ ok (answer, db')
    → approve_billing_period db' period_id community later other ≡ ok (answer, db')
unfolding by_status
approve-again db period_id community date later approver other {answer} {db'} h =
    let (c, period, e, n, f, b) = approve-parts db period_id community date approver h in
    again_by period.status c period e n f refl b
  where
    again_by :
        (status : PeriodStatus) (c : Community) (period : Period)
        → find (is_community community) db.communities ≡ some c
        → is_empty (strip c.name) ≡ false
        → find (is_period period_id community) db.periods ≡ some period
        → period.status ≡ status
        → by_status status db c period date approver ≡ ok (answer, db')
        → approve_billing_period db' period_id community later other ≡ ok (answer, db')
    again_by PeriodStatus.issued c period e n f st b =
        subst (λ d. approve_billing_period d period_id community later other ≡ ok (answer, db'))
          (sym (issued-unchanged db c period date approver b))
          (approve-from db period_id community later other c period e n f
            ∙ ap (λ status. by_status status db c period later other) st
            ∙ b)
    again_by PeriodStatus.invalidated c period e n f st b = ground arith
    again_by PeriodStatus.draft c period e n f st b =
        let (s, ss, issued, dual, prepared, run, same) =
          issue_draft-parts db c period date approver b in
        let found = find-set_issued period_id community db.periods f in
        let own = same_id period_id community db.periods f in
        let next : Db = record db {
          invoices = issued;
          periods = set_issued period.id db.periods;
        } in
        let done : Period = record period { status = PeriodStatus.issued } in
        let stored = length-period_invoices issued period.id in
        let many =
          insert_invoices-some (prefix_of s) date.year
            (next_invoice_sequence (prefix_of s) date.year (numbers_of c.community_id db.invoices))
            c period.id (s ∷ ss) db.invoices run in
        subst (λ r. approve_billing_period r.1 period_id community later other ≡ ok r) (sym same)
          (approve-from next period_id community later other c done e n (
              subst
                (λ i. find (is_period period_id community) (set_issued i db.periods) ≡ some done)
                (sym own) found)
            ∙ by_status-issued next c done later other
                (length ss + length (period_invoices db.invoices period.id))
                (let before = length-period_invoices db.invoices period.id in omega arith))
