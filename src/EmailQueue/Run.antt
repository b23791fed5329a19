-- ===== src/EmailQueue/Run.antt =====
-- email_automation.py, `process_email_queue`: what one run leaves of the queue.
use openleg.Prelude.{
  ℕ, ◌≤◌, ◌≡◌, refl, sym, ap, ◌∙◌, true, false, not, Option, is_some, All, all, any, find, count,
  select, length, arith,
}
use mathlib.Core.Path.{subst}
use openleg.Prelude.Text.{Text}
use openleg.EmailQueue.{
  Email, Db, has_id, is_due, sort_due, get_pending_emails, process_email_queue,
  cleanup_finished_emails, email_queue_retention_days,
}
use openleg.EmailQueue.Rows.{
  HasKey, IsRow, rows-IsRow, select-All, sort_due-All, first-All, first-le, count-select,
  count-sort_due, count-first, All-implies,
}
use openleg.EmailQueue.Kept.{
  is_fine, IsKeyed, cleanup_finished_emails-is_fine, cleanup_finished_emails-IsKeyed,
}
use openleg.EmailQueue.Reach.{Step, Reach, late_steps}
use openleg.EmailQueue.Loop.{IsWaiting, IsHandled, process_emails-Loop}

module _ (deliver : Email → Option Text) (now : ℕ) where
  -- A run selects fifty emails at most, which are due, and counts those that it sent and the others.
  -- Each of them has its outcome in its row: it is sent, with the time and without its address, or
  -- it has one attempt more, with the error, and is failed from the third attempt on and pending
  -- before. The other rows stay as the clean-up left them. Where no other statement comes between
  -- those of the run, none of its marks is late.
  pub process_email_queue-IsHandled :
      (db : Db) {sent failed total : ℕ} {db' : Db}
      → IsKeyed db
      → all is_fine db.emails ≡ true
      → process_email_queue deliver now db ≡ (sent, failed, total, db')
      → let cleaned = (cleanup_finished_emails email_queue_retention_days now db).1 in
        let due = get_pending_emails 50 now cleaned in
        (length due ≤ 50)
        × All (λ e. IsRow cleaned.emails e × (is_due cleaned.buildings now e ≡ true)) due
        × All (IsHandled deliver now db') due
        × ((i : ℕ)
            → any (has_id i) due ≡ false
            → find (has_id i) db'.emails ≡ find (has_id i) cleaned.emails)
        × (sent ≡ count (λ e. not (is_some (deliver e))) due)
        × (failed ≡ count (λ e. is_some (deliver e)) due)
        × (total ≡ length due)
        × (all is_fine db'.emails ≡ true)
        × (r : Reach db db') × (late_steps r ≡ 0)
  unfolding process_email_queue get_pending_emails
  process_email_queue-IsHandled db {sent} {failed} {total} {db'} keyed fine run =
      let cleaned = (cleanup_finished_emails email_queue_retention_days now db).1 in
      let ready = select (is_due cleaned.buildings now) cleaned.emails in
      let due = get_pending_emails 50 now cleaned in
      let keyed' = cleanup_finished_emails-IsKeyed email_queue_retention_days now db keyed in
      let rows = first-All _ 50 (sort_due ready) (
        sort_due-All _ ready (
          select-All (IsRow cleaned.emails) (is_due cleaned.buildings now) cleaned.emails
            (rows-IsRow cleaned.emails keyed'.0))) in
      let waiting : All (IsWaiting cleaned) due =
        All-implies _ (IsWaiting cleaned) due (λ e h. (h.0, ground arith)) rows in
      let once : HasKey due = λ i. omega (
        arith,
        keyed'.0 i,
        count-select i (is_due cleaned.buildings now) cleaned.emails,
        count-sort_due i ready,
        count-first i 50 (sort_due ready),
      ) in
      let (s, f, db'', loop, (own, kept, is_s, is_f, fine', r, in_time)) =
        process_emails-Loop deliver now db due 0 0 cleaned waiting once keyed'
          (cleanup_finished_emails-is_fine email_queue_retention_days now db fine)
          (Reach.next Reach.here (Step.cleanup email_queue_retention_days now)) refl in
      let same_db : db'' ≡ db' = ground arith in
      let (all_steps, none_late) =
        subst (λ x. (t : Reach db x) × (late_steps t ≡ 0)) same_db (r, in_time) in
      (
        first-le 50 (sort_due ready),
        rows,
        subst (λ x. All (IsHandled deliver now x) due) same_db own,
        (λ i out. ap (λ (x : Db). find (has_id i) x.emails) (sym same_db) ∙ kept i out),
        ground arith,
        ground arith,
        ground arith,
        subst (λ (x : Db). all is_fine x.emails ≡ true) same_db fine',
        all_steps,
        none_late,
      )
