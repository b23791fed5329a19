-- ===== src/EmailQueue/Kept.antt =====
-- store/email_queue.py: what each statement on the queue keeps of an email and of the keys.
use openleg.Prelude.{
  ℕ, ◌+◌, ◌==◌, ◌≡◌, refl, ap, ◌∙◌, Bool, true, not, List, [], ◌∷◌, all, count, select, update, ltb,
  leb, arith, Bool-cases, inl, inr,
}
use mathlib.Core.Path.{subst}
use openleg.Prelude.Text.{Text, is_empty}
use openleg.EmailQueue.{
  Status, Email, Db, max_email_attempts, is_finished, has_id, fail_email, send_email, insert_email,
  mark_email_sent, mark_email_failed, cleanup_finished_emails,
}
use openleg.EmailQueue.Rows.{HasKey, is_drawn, count-update, count-select, count-drawn, drawn-next}

-- A pending email has attempts left, a failed one none; a sent or cancelled one has no address.
abbrev pub is_fine : Email → Bool
is_fine e = elim e.status [
  | Status.pending ↦ not (leb max_email_attempts e.retry_count)
  | Status.failed ↦ leb max_email_attempts e.retry_count
  | _ ↦ is_empty e.email
]

-- The primary key is drawn from a sequence.
abbrev pub IsKeyed : Db → Type 0
IsKeyed db = HasKey db.emails × (all (is_drawn db.next_id) db.emails ≡ true)

pub all-update :
    {A : Type 0} (q is : A → Bool) (f : A → A) (xs : List A)
    → ((x : A) → q x ≡ true → q (f x) ≡ true)
    → all q xs ≡ true
    → all q (update is f xs) ≡ true
all-update q is f [] keeps h = refl
all-update q is f (x ∷ xs) keeps h = ground (arith, all-update q is f xs keeps, keeps x)

pub all-select :
    {A : Type 0} (q is : A → Bool) (xs : List A) → all q xs ≡ true → all q (select is xs) ≡ true
all-select q is [] h = refl
all-select q is (x ∷ xs) h = ground (arith, all-select q is xs)

pub mark_email_sent-is_fine :
    (i now : ℕ) (db : Db)
    → all is_fine db.emails ≡ true
    → all is_fine (mark_email_sent i now db).1.emails ≡ true
unfolding mark_email_sent
mark_email_sent-is_fine i now db h =
    all-update is_fine (has_id i) (send_email now) db.emails (λ e k. refl) h

fail_email-is_fine : (error : Text) (e : Email) → is_fine (fail_email error e) ≡ true
fail_email-is_fine error e = elim (Bool-cases (leb max_email_attempts (e.retry_count + 1))) [
  | inl t ↦ rw t t
  | inr t ↦ ground arith
]

pub mark_email_failed-is_fine :
    (i : ℕ) (error : Text) (db : Db)
    → all is_fine db.emails ≡ true
    → all is_fine (mark_email_failed i error db).1.emails ≡ true
unfolding mark_email_failed
mark_email_failed-is_fine i error db h =
    all-update is_fine (has_id i) (fail_email error) db.emails (λ e k. fail_email-is_fine error e) h

pub cleanup_finished_emails-is_fine :
    (days now : ℕ) (db : Db)
    → all is_fine db.emails ≡ true
    → all is_fine (cleanup_finished_emails days now db).1.emails ≡ true
unfolding cleanup_finished_emails
cleanup_finished_emails-is_fine days now db h =
    all-select is_fine (λ e. not (is_finished days now e)) db.emails h

pub insert_email-IsKeyed :
    (b : ℕ) (email : Text) (t send_at now : ℕ) (db : Db)
    → IsKeyed db
    → IsKeyed (insert_email b email t send_at now db)
unfolding insert_email
insert_email-IsKeyed b email t send_at now db (key, drawn) = (
  (λ i. elim (Bool-cases (db.next_id == i)) [
    | inl new ↦
        let absent = count-drawn db.next_id db.emails drawn in
        let same : db.next_id ≡ i = ground arith in
        let none_yet = subst (λ j. count (has_id j) db.emails ≡ 0) same absent in ground arith
    | inr old ↦ let once = key i in ground arith
  ]),
  let rest = drawn-next db.next_id db.emails drawn in ground arith,
)

pub update-IsKeyed :
    (is : Email → Bool) (f : Email → Email) (db : Db)
    → ((e : Email) → (f e).id ≡ e.id)
    → IsKeyed db
    → IsKeyed (record db { emails = update is f db.emails })
update-IsKeyed is f db same (key, drawn) = (
  (λ i. let moved = count-update i is f db.emails same in let once = key i in omega arith),
  all-update (is_drawn db.next_id) is f db.emails (λ e h. ap (λ n. ltb n db.next_id) (same e) ∙ h)
      drawn,
)

pub mark_email_sent-IsKeyed :
    (i now : ℕ) (db : Db) → IsKeyed db → IsKeyed (mark_email_sent i now db).1
unfolding mark_email_sent
mark_email_sent-IsKeyed i now db h = update-IsKeyed (has_id i) (send_email now) db (λ e. refl) h

pub mark_email_failed-IsKeyed :
    (i : ℕ) (error : Text) (db : Db) → IsKeyed db → IsKeyed (mark_email_failed i error db).1
unfolding mark_email_failed
mark_email_failed-IsKeyed i error db h =
    update-IsKeyed (has_id i) (fail_email error) db (λ e. refl) h

pub cleanup_finished_emails-IsKeyed :
    (days now : ℕ) (db : Db) → IsKeyed db → IsKeyed (cleanup_finished_emails days now db).1
unfolding cleanup_finished_emails
cleanup_finished_emails-IsKeyed days now db (key, drawn) =
    let kept : Email → Bool = λ e. not (is_finished days now e) in
    (
      (λ i. let fewer = count-select i kept db.emails in let once = key i in omega arith),
      all-select (is_drawn db.next_id) kept db.emails drawn,
    )
