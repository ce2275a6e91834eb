-- ===== src/Rendering/Keyboard.antt =====
-- The keyboard of a proposal.
use leetcode_coach_service.Base.{
  ℕ, ◌≤◌, List, [], ◌∷◌, ◌++◌, map, length, All, ◌≡◌, refl, ap, arith,
}
use leetcode_coach_service.Text.{codes, show_nat}
use leetcode_coach_service.Rendering.{Button, pick_button, proposal_keyboard}

abbrev pub concat : {A : Type 0} → List (List A) → List A
concat [] = []
concat (xs ∷ rest) = xs ++ concat rest

-- Every position has its button, in order, and behind them stands `Done`; no row has more than
-- four buttons.
pub proposal_keyboard_lem :
    (batch_id : ℕ) (positions : List ℕ)
    → (concat (proposal_keyboard batch_id positions)
        ≡ map (pick_button batch_id) positions
          ++ record { text = codes "Done"; callback_data = codes "v2pd:" ++ show_nat batch_id }
            ∷ [])
      × All (λ (row : List Button). length row ≤ 4) (proposal_keyboard batch_id positions)
unfolding proposal_keyboard
proposal_keyboard_lem batch_id [] = (refl, (omega arith, tt))
proposal_keyboard_lem batch_id (a ∷ []) = (refl, (omega arith, (omega arith, tt)))
proposal_keyboard_lem batch_id (a ∷ b ∷ []) = (refl, (omega arith, (omega arith, tt)))
proposal_keyboard_lem batch_id (a ∷ b ∷ c ∷ []) = (refl, (omega arith, (omega arith, tt)))
proposal_keyboard_lem batch_id (a ∷ b ∷ c ∷ d ∷ rest) =
    let (all_there, short) = proposal_keyboard_lem batch_id rest in
    (
      ap
          (λ r.
            pick_button batch_id a
            ∷ pick_button batch_id b
            ∷ pick_button batch_id c
            ∷ pick_button batch_id d
            ∷ r)
          all_there,
      (omega arith, short),
    )
