-- ===== src/Questions/History.antt =====
-- store/invoice_query.py: the events of the questions are their history.
use openleg.Prelude.{
  ℕ, ◌+◌, ◌<◌, ◌==◌, ◌≡◌, refl, sym, ap, Bool, true, ◌||◌, inl, inr, Option, none, some, List, [],
  ◌∷◌, All, All-find, find_test, find, update, if◌then◌else◌, arith, ok, Bool-cases, Result-cases,
  ==_refl,
}
use mathlib.Core.Path.{subst}
use openleg.Prelude.Text.{Text}
use openleg.Invoices.State.{Invoice, QueryStatus}
use openleg.Questions.{
  Category, Question, StatusEvent, status_event, Db, status_eq, may_change, validate_message,
  add_event, open_case,
}
use openleg.Questions.Changes.{
  unreminded, reminded, remind_found, with_status, with_reply, set_status,
}

-- The status that the newest event of a question names.
abbrev pub latest : ℕ → List StatusEvent → Option QueryStatus
latest id [] = none
latest id (e ∷ es) = if e.query_id == id then some e.new_status else latest id es

-- A first event opens; a later one keeps the status or changes it by the table.
abbrev is_allowed : Option QueryStatus → QueryStatus → Bool
is_allowed none s = status_eq s QueryStatus.opened
is_allowed (some s) t = status_eq s t || may_change s t

-- Each event starts from the status that the question had, and is allowed.
abbrev pub IsChain : List StatusEvent → Type 0
IsChain [] = Unit
IsChain (e ∷ es) =
    (e.previous_status ≡ latest e.query_id es)
    × (is_allowed e.previous_status e.new_status ≡ true)
    × IsChain es

abbrev pub IsCurrent : List StatusEvent → List Question → Type 0
IsCurrent es qs = All (λ q. latest q.id es ≡ some q.status) qs

-- The events are the history of the questions.
pub record IsHistory (db : Db) : Type 0 where
  pub chain : IsChain db.events
  pub current : IsCurrent db.events db.questions
  pub below : All (λ e. e.query_id < db.next_id) db.events

same_status : (s : QueryStatus) → status_eq s s ≡ true
same_status QueryStatus.opened = refl
same_status QueryStatus.acknowledged = refl
same_status QueryStatus.resolved = refl

below-later :
    (n : ℕ) (es : List StatusEvent)
    → All (λ e. e.query_id < n) es
    → All (λ e. e.query_id < n + 1) es
below-later n [] h = tt
below-later n (e ∷ es) (h, hs) = (omega arith, below-later n es hs)

latest-fresh : (n : ℕ) (es : List StatusEvent) → All (λ e. e.query_id < n) es → latest n es ≡ none
latest-fresh n [] h = refl
latest-fresh n (e ∷ es) (h, hs) = ground (arith, latest-fresh n es hs)

latest-below :
    (n id : ℕ) (s : QueryStatus) (es : List StatusEvent)
    → All (λ e. e.query_id < n) es
    → latest id es ≡ some s
    → id < n
latest-below n id s [] h l = ground arith
latest-below n id s (e ∷ es) (h, hs) l = elim (Bool-cases (e.query_id == id)) [
  | inl t ↦ ground arith
  | inr t ↦ ground (arith, latest-below n id s es hs)
]

-- An event that keeps the status keeps the questions current; so does one with a change of status.
pub IsCurrent-kept :
    (e : StatusEvent) (es : List StatusEvent) (qs : List Question)
    → latest e.query_id es ≡ some e.new_status
    → IsCurrent es qs
    → IsCurrent (e ∷ es) qs
IsCurrent-kept e es [] l c = tt
IsCurrent-kept e es (q ∷ qs) l (c, cs) = (
  elim (Bool-cases (e.query_id == q.id)) [
    | inl t ↦
        let same : e.query_id ≡ q.id = ground arith in
        let at = ap (λ i. latest i es) same in ground arith
    | inr t ↦ ground arith
  ],
  IsCurrent-kept e es qs l cs,
)

IsCurrent-reminded :
    (id : ℕ) (es : List StatusEvent) (qs : List Question)
    → IsCurrent es qs
    → IsCurrent es (update (unreminded id) reminded qs)
IsCurrent-reminded id es [] c = tt
IsCurrent-reminded id es (q ∷ qs) (c, cs) = (
  elim (Bool-cases (unreminded id q)) [
    | inl t ↦
        subst (λ b. let x = if b then reminded q else q in latest x.id es ≡ some x.status) (sym t) c
    | inr t ↦
        subst (λ b. let x = if b then reminded q else q in latest x.id es ≡ some x.status) (sym t) c
  ],
  IsCurrent-reminded id es qs cs,
)

IsCurrent-changed :
    (e : StatusEvent) (es : List StatusEvent) (qs : List Question)
    → IsCurrent es qs
    → IsCurrent (e ∷ es) (update (λ q. q.id == e.query_id) (with_status e.new_status) qs)
IsCurrent-changed e es [] c = tt
IsCurrent-changed e es (q ∷ qs) (c, cs) = (
  elim (Bool-cases (q.id == e.query_id)) [
    | inl t ↦
        subst
          (λ b.
            let x = if b then with_status e.new_status q else q in
            latest x.id (e ∷ es) ≡ some x.status)
          (sym t) (ground arith)
    | inr t ↦
        subst
          (λ b.
            let x = if b then with_status e.new_status q else q in
            latest x.id (e ∷ es) ≡ some x.status)
          (sym t) (ground arith)
  ],
  IsCurrent-changed e es qs cs,
)

IsCurrent-opened :
    (n : ℕ) (es : List StatusEvent) (qs : List Question) (e : StatusEvent)
    → All (λ e. e.query_id < n) es
    → IsCurrent es qs
    → e.query_id ≡ n
    → IsCurrent (e ∷ es) qs
IsCurrent-opened n es [] e b c i = tt
IsCurrent-opened n es (q ∷ qs) e b (c, cs) i = (
  let less = latest-below n q.id q.status es b c in ground arith,
  IsCurrent-opened n es qs e b cs i,
)

pub open_case-IsHistory :
    (i : Invoice) (category : Category) (message : Text) (attachment : Option (ℕ × ℕ))
    (due remind : ℕ) (db : Db)
    → IsHistory db
    → IsHistory ((open_case i category message attachment due remind db).1)
unfolding open_case add_event
open_case-IsHistory i category message attachment due remind db h =
    let fresh = latest-fresh db.next_id db.events h.below in
    record {
      chain = (sym fresh, refl, h.chain);
      current = (
        ground (arith, ==_refl db.next_id),
        IsCurrent-opened db.next_id db.events db.questions
            (status_event (db.next_id + 1) db.next_id i.participant_id none QueryStatus.opened none)
            h.below h.current refl,
      );
      below = (
        omega arith,
        below-later (db.next_id + 1) db.events (below-later db.next_id db.events h.below),
      );
    }

same_allowed : (s : QueryStatus) → is_allowed (some s) s ≡ true
same_allowed s = ground (arith, same_status s)

-- An event that names the status again.
pub kept-IsHistory :
    (id actor : ℕ) (s : QueryStatus) (reference : Option Text) (db : Db)
    → IsHistory db
    → latest id db.events ≡ some s
    → IsHistory (add_event id actor (some s) s reference db)
unfolding add_event
kept-IsHistory id actor s reference db h l = record {
  chain = (sym l, same_allowed s, h.chain);
  current =
      IsCurrent-kept (status_event db.next_id id actor (some s) s reference) db.events db.questions
        l h.current;
  below = (
    let less = latest-below db.next_id id s db.events h.below l in omega arith,
    below-later db.next_id db.events h.below,
  );
}

-- What is found by its id has the newest status of the id.
pub found-latest :
    (id : ℕ) (test : Question → Bool) (db : Db) {q : Question}
    → IsHistory db
    → find test db.questions ≡ some q
    → q.id ≡ id
    → latest id db.events ≡ some q.status
found-latest id test db {q} h e i =
    subst (λ j. latest j db.events ≡ some q.status) i
      (All-find (λ q. latest q.id db.events ≡ some q.status) test db.questions h.current e)

pub remind_found-IsHistory :
    (case_id actor : ℕ) (found : Option Question) (db : Db)
    → IsHistory db
    → find (unreminded case_id) db.questions ≡ found
    → IsHistory ((remind_found case_id actor found db).1)
unfolding remind_found
remind_found-IsHistory case_id actor none db h e = h
remind_found-IsHistory case_id actor (some q) db h e =
    let test = find_test (unreminded case_id) db.questions e in
    kept-IsHistory case_id actor q.status none
      (record db { questions = update (unreminded case_id) reminded db.questions })
      (record {
        chain = h.chain;
        current = IsCurrent-reminded case_id db.events db.questions h.current;
        below = h.below;
      })
      (found-latest case_id (unreminded case_id) db h e (ground arith))

pub with_reply-rows :
    (id actor : ℕ) (message : Option Text) (db : Db) {db' : Db}
    → with_reply id actor message db ≡ ok db'
    → (db'.events ≡ db.events) × (db'.questions ≡ db.questions) × (db'.next_id ≡ db.next_id)
unfolding with_reply
with_reply-rows id actor none db h = (ground arith, ground arith, ground arith)
with_reply-rows id actor (some message) db h = elim (Result-cases (validate_message message)) [
  | inl (x, e) ↦ ground arith
  | inr (text, e) ↦ (ground arith, ground arith, ground arith)
]

pub IsHistory-rows :
    (db db' : Db)
    → IsHistory db
    → (db'.events ≡ db.events) × (db'.questions ≡ db.questions) × (db'.next_id ≡ db.next_id)
    → IsHistory db'
IsHistory-rows db db' h (e, q, n) = record {
  chain = subst IsChain (sym e) h.chain;
  current =
      subst (λ es. IsCurrent es db'.questions) (sym e)
        (subst (IsCurrent db.events) (sym q) h.current);
  below =
      subst (λ es. All (λ e. e.query_id < db'.next_id) es) (sym e)
        (subst (λ n. All (λ e. e.query_id < n) db.events) (sym n) h.below);
}

-- A change of status that the table has.
pub set_status-IsHistory :
    (id community actor : ℕ) (s t : QueryStatus) (db : Db)
    → IsHistory db
    → latest id db.events ≡ some s
    → may_change s t ≡ true
    → IsHistory (set_status id community actor s t db)
unfolding set_status add_event
set_status-IsHistory id community actor s t db h l m = record {
  chain = (sym l, ground arith, h.chain);
  current =
      IsCurrent-changed (status_event db.next_id id actor (some s) t none) db.events db.questions
        h.current;
  below = (
    let less = latest-below db.next_id id s db.events h.below l in omega arith,
    below-later db.next_id db.events h.below,
  );
}
