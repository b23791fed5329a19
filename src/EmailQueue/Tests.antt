-- ===== src/EmailQueue/Tests.antt =====
-- The theorems on the queue at concrete emails.
use openleg.Prelude.{
  ℕ, ◌+◌, ◌≤◌, ◌==◌, ◌≡◌, refl, true, false, not, All, all, any, find, count, length, Option, some,
  none, is_some, [], ◌∷◌, if◌then◌else◌,
}
use openleg.Prelude.Text.{Text, codes}
use openleg.EmailQueue.{
  Email, Db, is_active, is_due, has_id, insert_email, schedule_email, mark_email_sent,
  mark_email_failed, cleanup_finished_emails, get_pending_emails, process_email_queue,
}
use openleg.EmailQueue.Kept.{is_fine, IsKeyed}
use openleg.EmailQueue.Reach.{Step, Reach, late_steps, Reach-is_active}
use openleg.EmailQueue.Loop.{IsHandled}
use openleg.EmailQueue.Run.{process_email_queue-IsHandled}

abbrev empty_queue : Db
empty_queue = record { emails = []; buildings = 4 ∷ []; next_id = 1 }

unfoldable two_emails : Db
unfolding schedule_email
two_emails =
    (schedule_email 4 (codes "b@c") 2 2000 900
      (schedule_email 4 (codes "b@c") 1 1000 900 empty_queue).1).1

unfoldable tried : Db
unfolding mark_email_failed mark_email_sent two_emails
tried = (mark_email_failed 2 (codes "SMTP") (mark_email_sent 1 1100 two_emails).1).1

-- One email is sent, the other fails once, and then the first is scheduled again by an INSERT whose
-- SELECT came before the first was scheduled.
unfoldable twice : Db
unfolding tried insert_email
twice = insert_email 4 (codes "b@c") 1 3000 900 tried

abbrev run : Reach empty_queue two_emails
unfolding two_emails schedule_email
run =
    Reach.next (Reach.next Reach.here (Step.schedule 4 (codes "b@c") 1 1000 900))
      (Step.schedule 4 (codes "b@c") 2 2000 900)

abbrev late_run : Reach empty_queue twice
unfolding two_emails tried twice mark_email_sent mark_email_failed schedule_email insert_email
late_run =
    Reach.next
      (Reach.next (Reach.next run (Step.mark_sent 1 1100)) (Step.mark_failed 2 (codes "SMTP")))
      (Step.insert_late 4 (codes "b@c") 1 3000 900)

scheduled_twice : (count (is_active 4 1) twice.emails ≡ 2) × (late_steps late_run ≡ 1)
unfolding two_emails tried twice mark_email_sent mark_email_failed schedule_email insert_email
    late_run run
scheduled_twice = (refl, refl)

Reach-is_active_example :
    (count (is_active 4 1) twice.emails ≤ 1 + late_steps late_run)
    × (all is_fine twice.emails ≡ true)
    × IsKeyed twice
Reach-is_active_example = Reach-is_active 4 1 late_run refl

-- The mail server refuses the second email.
abbrev deliver : Email → Option Text
deliver e = if e.id == 2 then some (codes "SMTP") else none

unfoldable sent_db : Db
unfolding process_email_queue two_emails
sent_db = (process_email_queue deliver 3000 two_emails).3

two-IsKeyed : IsKeyed two_emails
two-IsKeyed = (Reach-is_active 4 1 run refl).2

process_email_queue-IsHandled_example :
    let cleaned = (cleanup_finished_emails 90 3000 two_emails).1 in
    let due = get_pending_emails 50 3000 cleaned in
    (length due ≤ 50)
    × All
        (λ e.
          (find (has_id e.id) cleaned.emails ≡ some e) × (is_due cleaned.buildings 3000 e ≡ true))
        due
    × All (IsHandled deliver 3000 sent_db) due
    × ((i : ℕ)
        → any (has_id i) due ≡ false
        → find (has_id i) sent_db.emails ≡ find (has_id i) cleaned.emails)
    × (1 ≡ count (λ e. not (is_some (deliver e))) due)
    × (1 ≡ count (λ e. is_some (deliver e)) due)
    × (2 ≡ length due)
    × (all is_fine sent_db.emails ≡ true)
    × (r : Reach two_emails sent_db) × (late_steps r ≡ 0)
unfolding process_email_queue two_emails sent_db openleg.EmailQueue.process_emails
    openleg.EmailQueue.get_pending_emails openleg.EmailQueue.cleanup_finished_emails
process_email_queue-IsHandled_example =
    process_email_queue-IsHandled deliver 3000 two_emails two-IsKeyed refl refl
