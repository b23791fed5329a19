-- ===== src/Webhooks/Ledger/Sound.antt =====
-- What holds of one delivery and of the outcomes recorded for it, and what each change of it keeps.
use openleg.Prelude.{
  ℕ, ◌+◌, ◌<◌, ◌≤◌, ◌==◌, ◌≡◌, refl, sym, ap, ◌∙◌, Bool, true, false, ◌&&◌, ◌||◌, not, Option, none,
  some, List, [], ◌∷◌, ◌++◌, map, any, all, All, find, count, if◌then◌else◌, arith, inl, inr,
  Bool-cases,
}
use mathlib.Core.Path.{subst}
use openleg.Webhooks.{
  Status, status_eq, Delivery, Db, has_id, is_due, holds, claimed, attempted, retried,
}
use openleg.Webhooks.Dispatch.{is_retryable, state_of}
use openleg.Webhooks.Rows.{HasKey, IsRow}
use openleg.Webhooks.Ledger.{
  Claim, Outcome, World, is_claim, is_outcome, outcome_of, success_of, given,
}

-- A claim of the delivery was given with the attempt count.
abbrev pub agrees : ℕ → ℕ → ℕ → Claim → Bool
agrees i c n e = not (is_claim i c e) || (e.attempt_count == n)

abbrev pub bit : Bool → ℕ
bit b = if b then 1 else 0

pub record IsRowSound (max i : ℕ) (d : Delivery) (issued : List Claim) (log : List Outcome)
    : Type 0 where
  pub counted : d.attempt_count ≡ count (outcome_of i) log
  pub succeeded : count (success_of i) log ≡ bit (status_eq d.status Status.delivered)
  pub bounded : d.attempt_count ≤ max
  pub free : status_eq d.status Status.processing ≡ true → d.attempt_count < max
  pub exhausted : status_eq d.status Status.failed ≡ true → d.attempt_count ≡ max
  pub agreed : (c : ℕ) → holds i c d ≡ true → all (agrees i c d.attempt_count) issued ≡ true
  pub unlogged : (c : ℕ) → holds i c d ≡ true → count (is_outcome i c) log ≡ 0

abbrev pub IsSoundAt : ℕ → ℕ → Option Delivery → List Claim → List Outcome → Type 0
IsSoundAt max i none issued log = count (outcome_of i) log ≡ 0
IsSoundAt max i (some d) issued log = IsRowSound max i d issued log

pub record IsLedger (max : ℕ) (w : World) : Type 0 where
  pub key : HasKey w.db.deliveries
  pub rows : (i : ℕ) → IsSoundAt max i (find (has_id i) w.db.deliveries) w.issued w.log
  pub once : (i c : ℕ) → count (is_outcome i c) w.log ≤ 1
  pub given : (i c : ℕ) → any (is_claim i c) w.issued ≡ false → count (is_outcome i c) w.log ≡ 0

success-le : (i : ℕ) (log : List Outcome) → count (success_of i) log ≤ count (outcome_of i) log
success-le i [] = omega arith
success-le i (o ∷ log) = ground (arith, success-le i log)

-- Nothing but the delivery's own part of the tables matters.
fresh-agrees :
    (i c n : ℕ) (es : List Claim) → any (is_claim i c) es ≡ false → all (agrees i c n) es ≡ true
fresh-agrees i c n [] h = refl
fresh-agrees i c n (e ∷ es) h = ground (arith, fresh-agrees i c n es)

pub given-agrees :
    (ds : List Delivery) (i c : ℕ) (d : Delivery) (rows : List Delivery)
    → find (has_id i) ds ≡ some d
    → All (IsRow ds) rows
    → all (agrees i c d.attempt_count) (map given rows) ≡ true
given-agrees ds i c d [] f h = refl
given-agrees ds i c d (x ∷ xs) f (h, hs) = elim (Bool-cases (x.delivery_id == i)) [
  | inl e ↦
      let same : x.delivery_id ≡ i = ground arith in
      let found : some x ≡ some d = sym h ∙ ap (λ j. find (has_id j) ds) same ∙ f in
      let row : x ≡ d = ground arith in
      let count_same = ap (λ (y : Delivery). y.attempt_count) row in
      ground (arith, given-agrees ds i c d xs f hs)
  | inr e ↦ ground (arith, given-agrees ds i c d xs f hs)
]

pub all-append :
    {A : Type 0} (p : A → Bool) (xs ys : List A)
    → all p xs ≡ true
    → all p ys ≡ true
    → all p (xs ++ ys) ≡ true
all-append p [] ys h k = k
all-append p (x ∷ xs) ys h k = ground (arith, all-append p xs ys)

pub any-append-false :
    {A : Type 0} (p : A → Bool) (xs ys : List A) → any p (xs ++ ys) ≡ false → any p ys ≡ false
any-append-false p [] ys h = h
any-append-false p (x ∷ xs) ys h = any-append-false p xs ys (ground arith)

-- A due delivery was not delivered, has not failed, and has attempts left.
pub due-parts :
    (max : ℕ) (scope : Option ℕ) (now : ℕ) (db : Db) (d : Delivery)
    → is_due max scope now db d ≡ true
    → (status_eq d.status Status.delivered ≡ false) × (d.attempt_count < max)
unfolding is_due
due-parts max scope now db d h = ground arith

pub claimed-IsRowSound :
    (max i now : ℕ) (uuids : ℕ → ℕ) (d : Delivery) (issued issued' : List Claim)
    (log : List Outcome)
    → IsRowSound max i d issued log
    → d.delivery_id ≡ i
    → (status_eq d.status Status.delivered ≡ false) × (d.attempt_count < max)
    → ((c : ℕ) → all (agrees i c d.attempt_count) issued' ≡ true)
    → any (is_claim i (uuids i)) issued ≡ false
    → count (is_outcome i (uuids i)) log ≡ 0
    → IsRowSound max i (claimed uuids now d) (issued' ++ issued) log
claimed-IsRowSound max i now uuids d issued issued' log s own (open_row, left) new fresh
      none_logged =
    record {
      counted = s.counted;
      succeeded = s.succeeded ∙ ap bit open_row;
      bounded = s.bounded;
      free = λ h. left;
      exhausted = λ h. cc;
      agreed = λ c h.
          let drawn : uuids i ≡ c = let same = ap uuids own in ground arith in
          all-append (agrees i c d.attempt_count) issued' issued (new c) (
            fresh-agrees i c d.attempt_count issued
              (subst (λ x. any (is_claim i x) issued ≡ false) drawn fresh));
      unlogged = λ c h.
          let drawn : uuids i ≡ c = let same = ap uuids own in ground arith in
          subst (λ x. count (is_outcome i x) log ≡ 0) drawn none_logged;
    }

pub kept-IsRowSound :
    (max i : ℕ) (d : Delivery) (issued issued' : List Claim) (log : List Outcome)
    → IsRowSound max i d issued log
    → ((c : ℕ) → all (agrees i c d.attempt_count) issued' ≡ true)
    → IsRowSound max i d (issued' ++ issued) log
kept-IsRowSound max i d issued issued' log s new = record {
  counted = s.counted;
  succeeded = s.succeeded;
  bounded = s.bounded;
  free = s.free;
  exhausted = s.exhausted;
  agreed = λ c h. all-append (agrees i c d.attempt_count) issued' issued (new c) (s.agreed c h);
  unlogged = s.unlogged;
}

failed_open : (s : Status) → status_eq s Status.failed ≡ true → status_eq s Status.delivered ≡ false
failed_open s h = ground arith

pub retried-IsRowSound :
    (max i now : ℕ) (d : Delivery) (issued : List Claim) (log : List Outcome)
    → IsRowSound max i d issued log
    → status_eq d.status Status.failed ≡ true
    → IsRowSound max i (retried now d) issued log
retried-IsRowSound max i now d issued log s failed = record {
  counted = s.counted;
  succeeded = s.succeeded ∙ ap bit (failed_open d.status failed);
  bounded = s.bounded;
  free = λ h. cc;
  exhausted = λ h. cc;
  agreed = λ c h. ground arith;
  unlogged = λ c h. ground arith;
}

given-count :
    (i c n m : ℕ) (es : List Claim)
    → all (agrees i c m) es ≡ true
    → any (λ e. is_claim i c e && (e.attempt_count == n)) es ≡ true
    → n ≡ m
given-count i c n m [] a h = cc
given-count i c n m (e ∷ es) a h = ground (arith, given-count i c n m es)

state-never_processing :
    (max n code : ℕ) → status_eq (state_of max n code) Status.processing ≡ false
state-never_processing max n code = ground arith

state-failed :
    (max n code : ℕ) → status_eq (state_of max n code) Status.failed ≡ true → n < max → n + 1 ≡ max
state-failed max n code h l = ground arith

pub holds-processing :
    (i c : ℕ) (d : Delivery)
    → holds i c d ≡ true
    → (status_eq d.status Status.processing ≡ true) × (status_eq d.status Status.delivered ≡ false)
holds-processing i c d h = ground arith

never-holds :
    (i c : ℕ) (d : Delivery) → status_eq d.status Status.processing ≡ false → holds i c d ≡ false
never-holds i c d h = ground arith

pub reported-IsRowSound :
    (max i c n code now : ℕ) (d : Delivery) (issued : List Claim) (log : List Outcome)
    → IsRowSound max i d issued log
    → holds i c d ≡ true
    → any (λ e. is_claim i c e && (e.attempt_count == n)) issued ≡ true
    → let status = state_of max n code in
      IsRowSound max i
        (attempted status code (is_retryable max n code) now d)
        issued
        (record { delivery_id = i; claim_id = c; status = status } ∷ log)
reported-IsRowSound max i c n code now d issued log s h g =
    let same = given-count i c n d.attempt_count issued (s.agreed c h) g in
    let (processing, undelivered) = holds-processing i c d h in
    let left = s.free processing in
    let none_before = s.succeeded ∙ ap bit undelivered in
    let status = state_of max n code in
    let d' = attempted status code (is_retryable max n code) now d in
    record {
      counted = let before = s.counted in ground arith;
      succeeded = ground arith;
      bounded = omega arith;
      free = λ p. let never = state-never_processing max n code in ground arith;
      exhausted = λ f. let all_used = state-failed max n code f (omega arith) in omega arith;
      agreed =
          λ x p. let never = never-holds i x d' (state-never_processing max n code) in ground arith;
      unlogged =
          λ x p. let never = never-holds i x d' (state-never_processing max n code) in ground arith;
    }

pub other-IsSoundAt :
    (max i : ℕ) (r : Option Delivery) (o : Outcome) (issued : List Claim) (log : List Outcome)
    → outcome_of i o ≡ false
    → IsSoundAt max i r issued log
    → IsSoundAt max i r issued (o ∷ log)
other-IsSoundAt max i none o issued log e s = ground arith
other-IsSoundAt max i (some d) o issued log e s = record {
  counted = let x = s.counted in ground arith;
  succeeded = let x = s.succeeded in ground arith;
  bounded = s.bounded;
  free = s.free;
  exhausted = s.exhausted;
  agreed = s.agreed;
  unlogged = λ c h. let x = s.unlogged c h in ground arith;
}
