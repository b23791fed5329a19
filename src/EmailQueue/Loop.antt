-- ===== src/EmailQueue/Loop.antt =====
-- email_automation.py, the loop of `process_email_queue`: what it leaves in the row of each email.
use openleg.Prelude.{
  ℕ, suc, ◌+◌, ◌==◌, ◌≡◌, refl, sym, ap, ◌∙◌, true, false, not, Option, none, some, is_some, List,
  [], ◌∷◌, All, all, any, find, count, update, leb, arith, Option-cases, Bool-cases, inl, inr,
  if◌then◌else◌,
}
use openleg.Prelude.Text.{Text}
use openleg.EmailQueue.{
  Status, status_eq, Email, Db, has_id, send_email, fail_email, process_email, process_emails,
  mark_email_sent, mark_email_failed,
}
use openleg.EmailQueue.Rows.{HasKey, IsRow, row-only_pending}
use openleg.EmailQueue.Kept.{
  is_fine, IsKeyed, mark_email_sent-is_fine, mark_email_failed-is_fine, mark_email_sent-IsKeyed,
  mark_email_failed-IsKeyed,
}
use openleg.EmailQueue.Reach.{Step, Reach, late_mark, late_steps}

-- A row of the queue that is still to be sent.
abbrev pub IsWaiting : Db → Email → Type 0
IsWaiting db e = IsRow db.emails e × (status_eq e.status Status.pending ≡ true)

find-update :
    (i : ℕ) (f : Email → Email) (es : List Email) {e : Email}
    → ((x : Email) → (f x).id ≡ x.id)
    → find (has_id i) es ≡ some e
    → find (has_id i) (update (has_id i) f es) ≡ some (f e)
find-update i f [] same h = cc
find-update i f (x ∷ xs) {e} same h = elim (Bool-cases (x.id == i)) [
  | inl own ↦
      let is_e : x ≡ e = ground arith in
      let again : (f x).id == i ≡ true = ap (λ n. n == i) (same x) ∙ own in
      rw own (rw again (ap (λ y. some (f y)) is_e))
  | inr other ↦
      let rest = find-update i f xs {e = e} same (ground arith) in rw other (rw other rest)
]

find-apart :
    (i j : ℕ) (f : Email → Email) (es : List Email)
    → ((x : Email) → (f x).id ≡ x.id)
    → (i == j) ≡ false
    → find (has_id j) (update (has_id i) f es) ≡ find (has_id j) es
find-apart i j f [] same h = refl
find-apart i j f (x ∷ xs) same h = ground (arith, same x, find-apart i j f xs same)

IsWaiting-apart :
    (i : ℕ) (f : Email → Email) (db : Db) (es : List Email)
    → ((x : Email) → (f x).id ≡ x.id)
    → count (has_id i) es ≡ 0
    → All (IsWaiting db) es
    → All (IsWaiting (record db { emails = update (has_id i) f db.emails })) es
IsWaiting-apart i f db [] same h k = tt
IsWaiting-apart i f db (e ∷ es) same h ((row, p), ks) = (
  (find-apart i e.id f db.emails same (ground arith) ∙ row, p),
  IsWaiting-apart i f db es same (ground arith) ks,
)

any-count : (i : ℕ) (es : List Email) → count (has_id i) es ≡ 0 → any (has_id i) es ≡ false
any-count i [] h = refl
any-count i (e ∷ es) h = ground (arith, any-count i es)

module _ (deliver : Email → Option Text) (now : ℕ) where
  -- What a run leaves of an email: it is sent, at this time, and its address is removed; or it has
  -- one attempt more, with the error, and is pending up to the third attempt.
  abbrev pub handled : Email → Email
  handled e = elim (deliver e) [
    | none ↦ record e { status = Status.sent; sent_at = some now; email = [] }
    | some error ↦ record e {
      status = if leb 3 (e.retry_count + 1) then Status.failed else Status.pending;
      retry_count = e.retry_count + 1;
      error_message = some error;
    }
  ]

  abbrev pub IsHandled : Db → Email → Type 0
  IsHandled db e = find (has_id e.id) db.emails ≡ some (handled e)

  -- The emails and rows after the loop, from those before it.
  abbrev pub Loop : Db → List Email → Db → ℕ → ℕ → Db → Type 0
  Loop db0 es db sent failed db' =
      All (IsHandled db') es
      × ((i : ℕ)
          → any (has_id i) es ≡ false
          → find (has_id i) db'.emails ≡ find (has_id i) db.emails)
      × (sent ≡ count (λ e. not (is_some (deliver e))) es)
      × (failed ≡ count (λ e. is_some (deliver e)) es)
      × (all is_fine db'.emails ≡ true)
      × (r : Reach db0 db') × (late_steps r ≡ 0)

  not_late :
      (i : ℕ) (db : Db) {e : Email}
      → IsKeyed db
      → find (has_id i) db.emails ≡ some e
      → status_eq e.status Status.pending ≡ true
      → late_mark i db ≡ 0
  not_late i db (key, drawn) h p =
      let due = row-only_pending i db.emails (key i) h p in ap (λ b. if b then 0 else 1) due

  marked-sent :
      (e : Email) (sent failed : ℕ) (db : Db)
      → deliver e ≡ none
      → process_email deliver now e (sent, failed, db)
        ≡ (sent + 1, failed, (mark_email_sent e.id now db).1)
  marked-sent e sent failed db h = rw (process_email, h) refl

  marked-failed :
      (e : Email) (sent failed : ℕ) (db : Db) (error : Text)
      → deliver e ≡ some error
      → process_email deliver now e (sent, failed, db)
        ≡ (sent, failed + 1, (mark_email_failed e.id error db).1)
  marked-failed e sent failed db error h = rw (process_email, h) refl

  -- The rows after the loop, from those after its first mark.
  extend :
      (f : Email → Email) (e : Email) (es : List Email) (db db' : Db)
      → ((x : Email) → (f x).id ≡ x.id)
      → handled e ≡ f e
      → IsRow db.emails e
      → count (has_id e.id) es ≡ 0
      → All (IsHandled db') es
      → ((i : ℕ)
          → any (has_id i) es ≡ false
          → find (has_id i) db'.emails ≡ find (has_id i) (update (has_id e.id) f db.emails))
      → All (IsHandled db') (e ∷ es)
        × ((i : ℕ)
            → any (has_id i) (e ∷ es) ≡ false
            → find (has_id i) db'.emails ≡ find (has_id i) db.emails)
  extend f e es db db' same is_f row absent rest kept = (
    (
      kept e.id (any-count e.id es absent)
          ∙ find-update e.id f db.emails same row
          ∙ ap some (sym is_f),
      rest,
    ),
    (λ i out. kept i (ground arith) ∙ find-apart e.id i f db.emails same (ground arith)),
  )

  pub process_emails-Loop :
      (db0 : Db) (es : List Email) (sent failed : ℕ) (db : Db)
      → All (IsWaiting db) es
      → HasKey es
      → IsKeyed db
      → all is_fine db.emails ≡ true
      → (r : Reach db0 db) → late_steps r ≡ 0
      → (s f : ℕ) × (db' : Db) × (process_emails deliver now es (sent, failed, db)
          ≡ (sent + s, failed + f, db'))
        × Loop db0 es db s f db'
  unfolding process_emails mark_email_sent mark_email_failed
  process_emails-Loop db0 [] sent failed db h k keyed fine r in_time =
      (0, 0, db, ground arith, (tt, (λ i out. refl), refl, refl, fine, r, in_time))
  process_emails-Loop db0 (e ∷ es) sent failed db ((row, p), hs) k keyed fine r in_time =
      let absent : count (has_id e.id) es ≡ 0 = let once = k e.id in ground arith in
      let key : HasKey es = λ i. let once = k i in ground arith in
      let due = not_late e.id db keyed row p in
      elim (Option-cases (deliver e)) [
        | inl taken ↦
            let next = (mark_email_sent e.id now db).1 in
            let (s, f, db', run, (rest, kept, is_s, is_f, fine', r', in_time')) =
              process_emails-Loop db0 es (sent + 1) failed next
                (IsWaiting-apart e.id (send_email now) db es (λ x. refl) absent hs) key
                (mark_email_sent-IsKeyed e.id now db keyed)
                (mark_email_sent-is_fine e.id now db fine) (Reach.next r (Step.mark_sent e.id now))
                (omega arith) in
            let (own, others) =
              extend (send_email now) e es db db' (λ x. refl) (rw (handled, taken) refl) row absent
                rest kept in
            (
              suc s,
              f,
              db',
              ap (process_emails deliver now es) (marked-sent e sent failed db taken)
                  ∙ run
                  ∙ ap (λ n. (n, failed + f, db')) (omega arith),
              (own, others, ground arith, ground arith, fine', r', in_time'),
            )
        | inr (error, refused) ↦
            let next = (mark_email_failed e.id error db).1 in
            let (s, f, db', run, (rest, kept, is_s, is_f, fine', r', in_time')) =
              process_emails-Loop db0 es sent (failed + 1) next
                (IsWaiting-apart e.id (fail_email error) db es (λ x. refl) absent hs) key
                (mark_email_failed-IsKeyed e.id error db keyed)
                (mark_email_failed-is_fine e.id error db fine)
                (Reach.next r (Step.mark_failed e.id error)) (omega arith) in
            let (own, others) =
              extend (fail_email error) e es db db' (λ x. refl) (rw (handled, refused) refl) row
                absent rest kept in
            (
              s,
              suc f,
              db',
              ap (process_emails deliver now es) (marked-failed e sent failed db error refused)
                  ∙ run
                  ∙ ap (λ n. (sent + s, n, db')) (omega arith),
              (own, others, ground arith, ground arith, fine', r', in_time'),
            )
      ]
