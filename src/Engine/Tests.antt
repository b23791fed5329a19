-- ===== src/Engine/Tests.antt =====
-- The theorem on the engine at a split of two consumers and two producers.
use openleg.Prelude.{ℕ, ◌≡◌, refl, arith, List, [], ◌∷◌, ok, err}
use openleg.Approval.Lines.{Item}
use openleg.Approval.Totals.{Totals, require_wellformed_line_items}
use openleg.Engine.{generate_line_items}
use openleg.Engine.Accepted.{generate_line_items-wellformed}

abbrev consumed : List (ℕ × ℕ)
consumed = (4, 1_234_567) ∷ (5, 1_000_002) ∷ []

abbrev produced : List (ℕ × ℕ)
produced = (7, 234_569) ∷ (6, 2_000_000) ∷ []

abbrev priced_items : List Item
unfolding generate_line_items
priced_items =
    elim (generate_line_items consumed produced (5 ∷ 4 ∷ []) (6 ∷ 7 ∷ []) 200_000 10_000) [
      | ok items ↦ items
      | err e ↦ []
    ]

generate_line_items-wellformed_example :
    (t : Totals) × (require_wellformed_line_items priced_items 200_000 10_000 ≡ ok t)
unfolding generate_line_items
generate_line_items-wellformed_example =
    generate_line_items-wellformed consumed produced (5 ∷ 4 ∷ []) (6 ∷ 7 ∷ []) 200_000 10_000
      ((refl, tt), (tt, tt)) ((refl, tt), (tt, tt)) refl (omega arith)
