-- ===== src/Webhooks/Ledger/Outcomes.antt =====
-- What a recorded outcome and an inserted delivery keep.
use openleg.Prelude.{
  ℕ, ◌≤◌, ◌==◌, ◌≡◌, refl, sym, Bool, true, false, ◌&&◌, Option, none, some, List, [], ◌∷◌, any,
  find, find_test, count, update, if◌then◌else◌, arith, inl, inr, Bool-cases, Option-cases,
}
use mathlib.Core.Path.{subst}
use openleg.Webhooks.{Status, Delivery, Db, has_id, holds, attempted, record_attempt}
use openleg.Webhooks.Dispatch.{is_retryable, state_of}
use openleg.Webhooks.Rows.{changed, find-update, count-update}
use openleg.Webhooks.Ledger.{Claim, Outcome, World, is_claim, is_outcome, logged}
use openleg.Webhooks.Ledger.Sound.{
  IsRowSound, IsSoundAt, IsLedger, reported-IsRowSound, other-IsSoundAt,
}

report-own :
    (max i c n code now : ℕ) (r : Option Delivery) (issued : List Claim) (log : List Outcome)
    → IsSoundAt max i r issued log
    → any (λ e. is_claim i c e && (e.attempt_count == n)) issued ≡ true
    → let status = state_of max n code in
      IsSoundAt max i
        (changed (holds i c) (attempted status code (is_retryable max n code) now) r)
        issued
        (logged i c status r log)
report-own max i c n code now none issued log s g = s
report-own max i c n code now (some d) issued log s g =
    let status = state_of max n code in
    let d' = attempted status code (is_retryable max n code) now d in
    let o : Outcome = record { delivery_id = i; claim_id = c; status = status } in
    elim (Bool-cases (holds i c d)) [
      | inl e ↦
          subst (λ b. IsRowSound max i (if b then d' else d) issued (if b then o ∷ log else log))
            (sym e) (reported-IsRowSound max i c n code now d issued log s e g)
      | inr e ↦
          subst (λ b. IsRowSound max i (if b then d' else d) issued (if b then o ∷ log else log))
            (sym e) s
    ]

changed-other :
    (i j c : ℕ) (f : Delivery → Delivery) (ds : List Delivery)
    → (j == i) ≡ false
    → changed (holds i c) f (find (has_id j) ds) ≡ find (has_id j) ds
changed-other i j c f ds e = elim (Option-cases (find (has_id j) ds)) [
  | inl n ↦ ground arith
  | inr (d, h) ↦ let t = find_test (has_id j) ds h in ground arith
]

logged-other :
    (max i j c : ℕ) (status : Status) (ri rj : Option Delivery) (issued : List Claim)
    (log : List Outcome)
    → (j == i) ≡ false
    → IsSoundAt max j rj issued log
    → IsSoundAt max j rj issued (logged i c status ri log)
logged-other max i j c status none rj issued log e s = s
logged-other max i j c status (some d) rj issued log e s =
    let o : Outcome = record { delivery_id = i; claim_id = c; status = status } in
    elim (Bool-cases (holds i c d)) [
      | inl h ↦
          subst (λ b. IsSoundAt max j rj issued (if b then o ∷ log else log)) (sym h)
            (other-IsSoundAt max j rj o issued log (ground arith) s)
      | inr h ↦ subst (λ b. IsSoundAt max j rj issued (if b then o ∷ log else log)) (sym h) s
    ]

logged-once :
    (max i j c x : ℕ) (status : Status) (r : Option Delivery) (issued : List Claim)
    (log : List Outcome)
    → IsSoundAt max i r issued log
    → count (is_outcome j x) log ≤ 1
    → count (is_outcome j x) (logged i c status r log) ≤ 1
logged-once max i j c x status none issued log s o = o
logged-once max i j c x status (some d) issued log s o = elim (Bool-cases (holds i c d)) [
  | inl h ↦
      let first = s.unlogged c h in
      elim (Bool-cases ((i == j) && (c == x))) [
        | inl e ↦
            let i_same : i ≡ j = ground arith in
            let c_same : c ≡ x = ground arith in
            let none_before : count (is_outcome j x) log ≡ 0 =
              subst (λ y. count (is_outcome j y) log ≡ 0) c_same
                (subst (λ y. count (is_outcome y c) log ≡ 0) i_same first) in
            ground arith
        | inr e ↦ ground arith
      ]
  | inr h ↦ ground arith
]

any-weaker :
    (i c n : ℕ) (es : List Claim)
    → any (λ e. is_claim i c e && (e.attempt_count == n)) es ≡ true
    → any (is_claim i c) es ≡ true
any-weaker i c n [] h = h
any-weaker i c n (e ∷ es) h = ground (arith, any-weaker i c n es)

logged-given :
    (i j c x : ℕ) (status : Status) (r : Option Delivery) (issued : List Claim) (log : List Outcome)
    → any (is_claim i c) issued ≡ true
    → any (is_claim j x) issued ≡ false
    → count (is_outcome j x) log ≡ 0
    → count (is_outcome j x) (logged i c status r log) ≡ 0
logged-given i j c x status none issued log g h o = o
logged-given i j c x status (some d) issued log g h o = elim (Bool-cases ((i == j) && (c == x))) [
  | inl e ↦
      let i_same : i ≡ j = ground arith in
      let c_same : c ≡ x = ground arith in
      let given_before : any (is_claim j x) issued ≡ true =
        subst (λ y. any (is_claim j y) issued ≡ true) c_same
          (subst (λ y. any (is_claim y c) issued ≡ true) i_same g) in
      cc
  | inr e ↦ ground arith
]

pub recorded-rows :
    (i c : ℕ) (status : Status) (code : ℕ) (retryable : Bool) (now : ℕ) (db : Db) {db' : Db}
    → record_attempt i c status code retryable now db ≡ some db'
    → record db {
      deliveries = update (holds i c) (attempted status code retryable now) db.deliveries;
    }
      ≡ db'
unfolding record_attempt
recorded-rows i c status code retryable now db h = ground arith

pub report-IsLedger :
    (max i c n code now : ℕ) (w : World) {db : Db}
    → IsLedger max w
    → any (λ e. is_claim i c e && (e.attempt_count == n)) w.issued ≡ true
    → record_attempt i c (state_of max n code) code (is_retryable max n code) now w.db ≡ some db
    → IsLedger max (record w {
      db = db;
      log = logged i c (state_of max n code) (find (has_id i) w.db.deliveries) w.log;
    })
report-IsLedger max i c n code now w l g h =
    let status = state_of max n code in
    let f = attempted status code (is_retryable max n code) now in
    let ds = w.db.deliveries in
    let log' = logged i c status (find (has_id i) ds) w.log in
    subst (λ db. IsLedger max (record w { db = db; log = log' }))
      (recorded-rows i c status code (is_retryable max n code) now w.db h)
      (record {
        key = λ j.
            let same = count-update j (holds i c) f ds (λ d. refl) in
            let once = l.key j in omega arith;
        rows = λ j.
            subst (λ r. IsSoundAt max j r w.issued log')
              (sym (find-update j (holds i c) f ds (λ d. refl)))
              (elim (Bool-cases (j == i)) [
                | inl e ↦
                    let same : i ≡ j = ground arith in
                    subst
                      (λ x.
                        IsSoundAt max x (changed (holds i c) f (find (has_id x) ds)) w.issued log')
                      same
                      (report-own max i c n code now (find (has_id i) ds) w.issued w.log (l.rows i)
                        g)
                | inr e ↦
                    subst (λ r. IsSoundAt max j r w.issued log') (sym (changed-other i j c f ds e))
                      (logged-other max i j c status (find (has_id i) ds) (find (has_id j) ds)
                        w.issued w.log e (l.rows j))
              ]);
        once = λ j x.
            logged-once max i j c x status (find (has_id i) ds) w.issued w.log (l.rows i)
              (l.once j x);
        given = λ j x no.
            logged-given i j c x status (find (has_id i) ds) w.issued w.log
              (any-weaker i c n w.issued g) no (l.given j x no);
      })
