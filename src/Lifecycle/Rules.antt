-- ===== src/Lifecycle/Rules.antt =====
-- What the lifecycle rules allow: the accepted changes, and how far a state can still move.
use openleg.Prelude.{ℕ, ◌≡◌, ◌↔◌, Bool, true, false, Option, none, some, ok, arith, is_some}
use openleg.Prelude.Text.{Text, is_empty, strip}
use openleg.Lifecycle.{State, Event, transitions, next_state}

-- The text is given and is more than white space.
abbrev pub HasText : Option Text → Type 0
HasText none = ⊥
HasText (some t) = is_empty (strip t) ≡ false

-- What an event needs besides an allowed change.
abbrev pub Carries : Event → Option Text → Option Text → Option ℕ → Type 0
Carries Event.deliver reason reference effective_date = Unit
Carries Event.pay reason reference effective_date =
    HasText reference × (is_some effective_date ≡ true)
Carries Event.cancel reason reference effective_date = HasText reason
Carries Event.correct reason reference effective_date = HasText reason

-- The states that a state can still become, itself included.
abbrev pub reaches : State → State → Bool
reaches State.issued t = true
reaches State.delivered State.delivered = true
reaches State.delivered State.paid = true
reaches State.delivered State.cancelled = true
reaches State.delivered State.corrected = true
reaches State.paid State.paid = true
reaches State.cancelled State.cancelled = true
reaches State.cancelled State.corrected = true
reaches State.corrected State.corrected = true
reaches _ _ = false

pub reaches_refl : (s : State) → reaches s s ≡ true
reaches_refl s = ground arith

pub reaches_trans : (s t u : State) → reaches s t ≡ true → reaches t u ≡ true → reaches s u ≡ true
reaches_trans s t u h k = ground arith

pub transitions-reaches :
    (s : State) (e : Event) {t : State} → transitions s e ≡ some t → reaches s t ≡ true
transitions-reaches s e h = ground arith

-- No change leads back: of two different states at most one reaches the other.
pub reaches_antisymm : (s t : State) → reaches s t ≡ true → reaches t s ≡ true → s ≡ t
reaches_antisymm s t h k = ground arith

next_state-Carries :
    (s : State) (e : Event) (reason reference : Option Text) (date : Option ℕ) (t : State)
    → next_state s e reason reference date ≡ ok t
    → (transitions s e ≡ some t) × Carries e reason reference date
unfolding next_state
next_state-Carries s Event.deliver reason reference date t h = ground arith
next_state-Carries s Event.pay reason none date t h = ground arith
next_state-Carries s Event.pay reason (some r) date t h = ground arith
next_state-Carries s Event.cancel none reference date t h = ground arith
next_state-Carries s Event.cancel (some r) reference date t h = ground arith
next_state-Carries s Event.correct none reference date t h = ground arith
next_state-Carries s Event.correct (some r) reference date t h = ground arith

Carries-next_state :
    (s : State) (e : Event) (reason reference : Option Text) (date : Option ℕ) (t : State)
    → transitions s e ≡ some t
    → Carries e reason reference date
    → next_state s e reason reference date ≡ ok t
unfolding next_state
Carries-next_state s Event.deliver reason reference date t h c = ground arith
Carries-next_state s Event.pay reason none date t h c = absurd c.0
Carries-next_state s Event.pay reason (some r) date t h c = ground arith
Carries-next_state s Event.cancel none reference date t h c = absurd c
Carries-next_state s Event.cancel (some r) reference date t h c = ground arith
Carries-next_state s Event.correct none reference date t h c = absurd c
Carries-next_state s Event.correct (some r) reference date t h c = ground arith

-- A change succeeds exactly when the table has it and the event carries what it needs: a
-- cancellation and a correction a reason, a payment a reference and a date.
pub next_state-accepts :
    (s : State) (e : Event) (reason reference : Option Text) (date : Option ℕ) (t : State)
    → (next_state s e reason reference date ≡ ok t)
      ↔ ((transitions s e ≡ some t) × Carries e reason reference date)
next_state-accepts s e reason reference date t = (
  next_state-Carries s e reason reference date t,
  λ h. Carries-next_state s e reason reference date t h.0 h.1,
)
