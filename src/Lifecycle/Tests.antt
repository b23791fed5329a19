-- ===== src/Lifecycle/Tests.antt =====
-- The theorems on the lifecycle at concrete changes.
use openleg.Prelude.{◌≡◌, ◌↔◌, some, none, ok, Option}
use openleg.Prelude.Text.{Text, codes}
use openleg.Lifecycle.{State, Event, transitions, next_state}
use openleg.Lifecycle.Rules.{Carries, next_state-accepts}

abbrev reason : Option Text
reason = some (codes " falscher Tarif ")

next_state-accepts_example :
    (next_state State.cancelled Event.correct reason none none ≡ ok State.corrected) ↔ (
      (transitions State.cancelled Event.correct ≡ some State.corrected)
      × Carries Event.correct reason none none)
next_state-accepts_example =
    next_state-accepts State.cancelled Event.correct reason none none State.corrected
