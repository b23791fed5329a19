-- ===== src/EmailQueue/Reach.antt =====
-- store/email_queue.py: what holds of the queue after any statements of workers and of the web
-- application, however they interleave.
use openleg.Prelude.{
  ℕ, ◌+◌, ◌≤◌, ◌==◌, ◌≡◌, refl, Bool, true, false, not, List, [], ◌∷◌, any, all, count, select,
  update, arith, Bool-cases, inl, inr, if◌then◌else◌,
}
use openleg.Prelude.Text.{Text}
use openleg.EmailQueue.{
  Status, status_eq, Email, Db, is_active, is_finished, is_pending_of, has_id, fail_email,
  send_email, cancel_email, insert_email, schedule_email, mark_email_sent, mark_email_failed,
  cancel_emails_for_building, cleanup_finished_emails,
}
use openleg.EmailQueue.Kept.{
  is_fine, IsKeyed, all-update, mark_email_sent-is_fine, mark_email_failed-is_fine,
  cleanup_finished_emails-is_fine, insert_email-IsKeyed, update-IsKeyed, mark_email_sent-IsKeyed,
  mark_email_failed-IsKeyed, cleanup_finished_emails-IsKeyed,
}
use openleg.EmailQueue.Rows.{only_pending, count-update-key}

-- A statement on the queue. An email is scheduled without another statement between the SELECT and
-- the INSERT, or its INSERT is late. A worker marks the id of any email, at any time.
pub data Step (db : Db) : Db → Type 0 where
  schedule :
      (building_id : ℕ) (email : Text) (template_key send_at now : ℕ)
      → Step db (schedule_email building_id email template_key send_at now db).1
  insert_late :
      (building_id : ℕ) (email : Text) (template_key send_at now : ℕ)
      → Step db (insert_email building_id email template_key send_at now db)
  mark_sent : (email_id now : ℕ) → Step db (mark_email_sent email_id now db).1
  mark_failed : (email_id : ℕ) (error : Text) → Step db (mark_email_failed email_id error db).1
  cancel : (building_id : ℕ) → Step db (cancel_emails_for_building building_id db).1
  cleanup : (days now : ℕ) → Step db (cleanup_finished_emails days now db).1

pub data Reach (db : Db) : Db → Type 0 where
  here : Reach db db
  next : {db' db'' : Db} → Reach db db' → Step db' db'' → Reach db db''

-- A mark is late if the email that it changes is no longer pending.
abbrev pub late_mark : ℕ → Db → ℕ
late_mark email_id db = if all (only_pending email_id) db.emails then 0 else 1

abbrev pub is_late : {db db' : Db} → Step db db' → ℕ
is_late (schedule b e t send_at now) = 0
is_late (insert_late b e t send_at now) = 1
is_late {db} (mark_sent i now) = late_mark i db
is_late {db} (mark_failed i error) = late_mark i db
is_late (cancel b) = 0
is_late (cleanup days now) = 0

-- How many inserts and marks were late.
abbrev pub late_steps : {db db' : Db} → Reach db db' → ℕ
late_steps here = 0
late_steps (next r s) = is_late s + late_steps r

Step-is_fine :
    {db db' : Db} → Step db db' → all is_fine db.emails ≡ true → all is_fine db'.emails ≡ true
unfolding schedule_email insert_email cancel_emails_for_building
Step-is_fine {db} (schedule b email t send_at now) h = ground arith
Step-is_fine {db} (insert_late b email t send_at now) h = ground arith
Step-is_fine {db} (mark_sent i now) h = mark_email_sent-is_fine i now db h
Step-is_fine {db} (mark_failed i error) h = mark_email_failed-is_fine i error db h
Step-is_fine {db} (cancel b) h =
    all-update is_fine (is_pending_of b) cancel_email db.emails (λ e k. refl) h
Step-is_fine {db} (cleanup days now) h = cleanup_finished_emails-is_fine days now db h

Step-IsKeyed : {db db' : Db} → Step db db' → IsKeyed db → IsKeyed db'
unfolding schedule_email cancel_emails_for_building
Step-IsKeyed {db} (schedule b email t send_at now) h =
    elim (Bool-cases (any (is_active b t) db.emails)) [
      | inl e ↦ rw e h
      | inr e ↦ rw e (insert_email-IsKeyed b email t send_at now db h)
    ]
Step-IsKeyed {db} (insert_late b email t send_at now) h =
    insert_email-IsKeyed b email t send_at now db h
Step-IsKeyed {db} (mark_sent i now) h = mark_email_sent-IsKeyed i now db h
Step-IsKeyed {db} (mark_failed i error) h = mark_email_failed-IsKeyed i error db h
Step-IsKeyed {db} (cancel b) h = update-IsKeyed (is_pending_of b) cancel_email db (λ e. refl) h
Step-IsKeyed {db} (cleanup days now) h = cleanup_finished_emails-IsKeyed days now db h

module _ (b t : ℕ) where
  count-update-le :
      (q is : Email → Bool) (f : Email → Email) (xs : List Email)
      → ((x : Email)
          → q x ≡ true
          → is x ≡ true
          → is_active b t (f x) ≡ true
          → is_active b t x ≡ true)
      → all q xs ≡ true
      → count (is_active b t) (update is f xs) ≤ count (is_active b t) xs
  count-update-le q is f [] less h = omega arith
  count-update-le q is f (x ∷ xs) less h = ground (arith, count-update-le q is f xs less, less x)

  count-select-le :
      (is : Email → Bool) (xs : List Email)
      → count (is_active b t) (select is xs) ≤ count (is_active b t) xs
  count-select-le is [] = omega arith
  count-select-le is (x ∷ xs) = ground (arith, count-select-le is xs)

  count-inactive :
      (b' t' : ℕ) (xs : List Email)
      → (b' == b) ≡ true
      → (t' == t) ≡ true
      → any (is_active b' t') xs ≡ false
      → count (is_active b t) xs ≡ 0
  count-inactive b' t' [] p q h = refl
  count-inactive b' t' (x ∷ xs) p q h = ground (arith, count-inactive b' t' xs)

  -- A mark adds no active email, unless it is late.
  mark-active :
      (i : ℕ) (f : Email → Email) (db : Db)
      → ((e : Email)
          → status_eq e.status Status.pending ≡ true
          → is_active b t (f e) ≡ true
          → is_active b t e ≡ true)
      → IsKeyed db
      → count (is_active b t) (update (has_id i) f db.emails)
        ≤ late_mark i db + count (is_active b t) db.emails
  mark-active i f db keeps (key, drawn) = elim (Bool-cases (all (only_pending i) db.emails)) [
    | inl due ↦
        let le =
          count-update-le (only_pending i) (has_id i) f db.emails (λ e k l. keeps e (ground arith))
            due in
        rw due (omega arith)
    | inr late ↦
        let once = key i in
        let more = count-update-key (is_active b t) i f db.emails in rw late (omega arith)
  ]

  Step-active :
      {db db' : Db} (n : ℕ) (s : Step db db')
      → all is_fine db.emails ≡ true
      → IsKeyed db
      → count (is_active b t) db.emails ≤ 1 + n
      → count (is_active b t) db'.emails ≤ 1 + (is_late s + n)
  unfolding schedule_email insert_email mark_email_sent mark_email_failed cancel_emails_for_building
      cleanup_finished_emails
  Step-active {db} n (schedule b' email t' send_at now) fine key h =
      ground (arith, count-inactive b' t' db.emails)
  Step-active {db} n (insert_late b' email t' send_at now) fine key h = ground arith
  Step-active {db} n (mark_sent i now) fine key h =
      omega (arith, mark-active i (send_email now) db (λ e k l. ground arith) key, h)
  Step-active {db} n (mark_failed i error) fine key h =
      omega (arith, mark-active i (fail_email error) db (λ e k l. ground arith) key, h)
  Step-active {db} n (cancel b') fine key h = omega (
    arith,
    count-update-le is_fine (is_pending_of b') cancel_email db.emails (λ e k l m. ground arith)
        fine,
    h,
  )
  Step-active {db} n (cleanup days now) fine key h =
      omega (arith, count-select-le (λ e. not (is_finished days now e)) db.emails, h)

  -- However the statements on an empty queue interleave, a building has a template once at most
  -- among the emails that are pending or sent, beside one for each late INSERT and each mark of an
  -- email that was no longer pending. A pending email has attempts left, a failed one has none, a
  -- sent or cancelled one keeps no address, and no two rows have an id.
  pub Reach-is_active :
      {db db' : Db} (r : Reach db db')
      → db.emails ≡ []
      → (count (is_active b t) db'.emails ≤ 1 + late_steps r)
        × (all is_fine db'.emails ≡ true)
        × IsKeyed db'
  Reach-is_active {db} here empty = rw empty (omega arith, refl, (λ i. omega arith, refl))
  Reach-is_active (next r s) empty =
      let (once, fine, key) = Reach-is_active r empty in
      (Step-active (late_steps r) s fine key once, Step-is_fine s fine, Step-IsKeyed s key)
