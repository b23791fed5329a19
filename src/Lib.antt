-- ===== src/Lib.antt =====
-- OpenLEG runs local electricity communities (LEG): it forms a community, keeps its members and
-- their roles, bills them, delivers the invoices, books the payments, and reports changes to the
-- grid operator. These modules model the parts that keep state behind those promises.
--
-- Parts, files and sources:
-- Lifecycle: billing_lifecycle.py, the states of an issued invoice and the table of changes
--   (`transitions`, `next_state`, `describe_invoice` as `describe_state`).
-- Invoices: the operations of store/billing.py on issued invoices. State has the rows, the lock
--   and the event log; Delivery the attempts to deliver; Transitions payment by hand and
--   cancellation; Correction the replacement of a cancelled invoice; Bank the import of bank
--   statements; Confirm the review of an open entry. Log says when the event log is a history of
--   the invoices, the History, Replacement and Imports files what each operation writes, and Reach
--   and Account what follows for any sequence of them.
-- Engine: billing_engine.py, the line items that the engine prices from a split of the energy. Loop,
--   Sums, Fees and Checks follow the approval through them.
-- Approval: billing_approval.py, the stored policy of billing_policy.py, and the issue of a draft in
--   store/billing.py. Lines and Totals have the checks of the line items, Reconciliation those of
--   the grid operator's figures, Snapshots the amounts of the invoices, Numbers their numbers, and
--   Issue `approve_billing_period`; Passed, Balance, Bounds, Participants, Rounding, Settlement, Fresh,
--   Issued and Approved what follows.
-- Questions: invoice_queries.py and store/invoice_query.py, the questions of members on invoices.
--   Changes has the operations on an open question, History and Reach say what the events tell.
-- Payment: payment_reconciliation.py, the match of a bank entry to an invoice.
-- Outbox: `enqueue_event` of store/operator_api.py, which the store operations call in their
--   transaction.
-- Clients: the credentials of the operator API and their requests, in store/operator_api.py. Gate
--   has the checks of `require_operator` in operator_api.py, Window the hourly budget.
-- Webhooks: the deliveries of operator events, in store/operator_api.py. Dispatch has the loop of a
--   worker in operator_api.py, Rows and Batch what a worker is given, Sent what the loop leaves in the
--   rows, Run a dispatch as a run of steps. Ledger sets the deliveries beside the claims given and the outcomes recorded; Sound,
--   Outcomes, Inserted and Invariant say what holds of them, Exhausted what a retry does.
-- Quartierakku: quartierakku.py, the shared battery of a community, and store/battery.py in Store.
--   Form has the form of an administrator and Submitted what follows for it, Costs the cost shares,
--   Period and Years the loop over the years of a period, Stored and RoundTrip the way through the
--   tables.
-- SdatE66: `exact_e66_kwh` of sdat_e66.py; Zeros, Thousandths and Exact say what it takes over.
-- Access: community_access.py and the updates of roles and dual control in store/formation.py.
-- Tokens: access_token.py and store/access_token.py, magic links.
-- EmailQueue: store/email_queue.py and the loop of email_automation.py. Rows and Kept have the keys of
--   the rows and what each statement keeps, Reach any statements in any order, Loop and Run one run
--   of the queue.
-- Formation: store/formation.py, `start_formation` of formation_wizard.py, and the start confirmation
--   and activation of store/formation_activation.py.
-- Vnb: the mutation cases of store/vnb_exchange.py; Rows has the tables, Operations the operations,
--   Cases the steps and the open cases, Final the cases that are closed.
-- Prelude: results that may raise, texts, integers, decimals, sorting, and lists as tables.
--
-- How the code is read:
-- A database is a record of tables, newest row first; an operation takes it and returns the new
--   one beside its answer, or an error. A transaction that raises leaves the database as it was,
--   and one that locks its rows is one step. Where a SELECT locks no row, as in `claim_mutation` and
--   `schedule_email`, an INSERT that comes later is a step of its own.
--   `fail_invoice_delivery` locks nothing but is one step too, so what is said of invoices is said of
--   operations that run one after another. A statement that the database itself refuses for
--   another reason than a modelled index is left out.
-- Identifiers, fingerprints and dates are numbers where the program only compares them; texts
--   that it inspects are lists of code points; amounts are integers at the scale of the decimals.
-- Code outside the repository is a parameter: the character tables of `str.upper` and
--   `str.isalnum`, the digits of Unicode, the SHA-256 digest, the mail server with its templates, the
--   transport of webhooks, the collation of the database, and drawn ids. A drawn claim is taken to
--   be new.
-- A loop is a recursion over its list. The decimal digits of a number take the number and one as
--   fuel, more than it has digits. The loop over the years of a period takes the years between its
--   ends and one as fuel, which is shown to be enough.
--
-- Not modelled: pages and routes, templates, translations, the sandbox, maps and forecasts, which
-- keep no state that others rely on; the parsing of XML and CSV, which rests on library parsers;
-- the allocation of intervals, which is in floating point, and the division of decimals of 28
-- digits; the battery lines of a draft, the rest of E66 and metering; and the documents and
-- signatures of a formation.
pub mod Access
pub mod Approval
pub mod Clients
pub mod EmailQueue
pub mod Engine
pub mod Formation
pub mod Invoices
pub mod Lifecycle
pub mod Outbox
pub mod Payment
pub mod Prelude
pub mod Quartierakku
pub mod Questions
pub mod SdatE66
pub mod Tokens
pub mod Vnb
pub mod Webhooks
