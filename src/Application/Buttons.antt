-- ===== src/Application/Buttons.antt =====
-- The data of the buttons, and what `handle_callback` reads from it.
use leetcode_coach_service.Base.{
  ℕ, some, List, [], ◌∷◌, ◌++◌, ◌≡◌, refl, ap, ◌∙◌, map, map-append, pos, ℤ,
}
use leetcode_coach_service.Text.{Text, codes, text_eq, show_nat}
use leetcode_coach_service.Rendering.{Button, pick_button, proposal_keyboard}
use leetcode_coach_service.Rendering.Keyboard.{concat, proposal_keyboard_lem}
use leetcode_coach_service.Application.Picking.{starts_with}
use leetcode_coach_service.Application.Threads.{review_button, review_keyboard}
use leetcode_coach_service.Application.Callbacks.{
  Action, pick, pick_done, review_action, extend, split_colon, parse_pick, parse_review, parse_id,
  parse_callback,
}
use leetcode_coach_service.Application.Numbers.{
  digits-show_nat, int_of-show_nat, split_colon-digits,
}

abbrev pub asked : Button → Action
asked b = parse_callback b.callback_data

parse_pick-numbers : (b p : ℕ) → parse_pick (show_nat b ++ 58 ∷ show_nat p) ≡ pick (pos b) (pos p)
unfolding parse_pick
parse_pick-numbers b p =
    rw
      (
        split_colon-digits (show_nat b) (show_nat p) (digits-show_nat b),
        int_of-show_nat b,
        int_of-show_nat p,
        parse_pick,
      )
      refl

parse-pick_button :
    (batch_id position : ℕ)
    → asked (pick_button batch_id position) ≡ pick (pos batch_id) (pos position)
unfolding parse_callback starts_with pick_button
parse-pick_button batch_id position = parse_pick-numbers batch_id position

parse_id-number : (action : ℤ → Action) (n : ℕ) → parse_id action (show_nat n) ≡ action (pos n)
unfolding parse_id
parse_id-number action n = rw (int_of-show_nat n, parse_id) refl

parse_done :
    (batch_id : ℕ) → parse_callback (codes "v2pd:" ++ show_nat batch_id) ≡ pick_done (pos batch_id)
unfolding parse_callback starts_with
parse_done batch_id = parse_id-number pick_done batch_id

parse_extend :
    (batch_id : ℕ) → parse_callback (codes "v2x:" ++ show_nat batch_id) ≡ extend (pos batch_id)
unfolding parse_callback starts_with
parse_extend batch_id = parse_id-number extend batch_id

-- The data of a review's button behind its prefix.
parse_review-number :
    (action : Text) (n : ℕ)
    → split_colon (action ++ 58 ∷ show_nat n) ≡ some (action, show_nat n)
    → parse_review (action ++ 58 ∷ show_nat n) ≡ review_action action (pos n)
unfolding parse_review
parse_review-number action n split = rw (split, int_of-show_nat n, parse_review) refl

parse-review_button :
    (label action : Text) (n : ℕ)
    → split_colon (action ++ 58 ∷ show_nat n) ≡ some (action, show_nat n)
    → asked (review_button label action n) ≡ review_action action (pos n)
unfolding parse_callback starts_with
parse-review_button label action n split = parse_review-number action n split

picks_asked :
    (batch_id : ℕ) (positions : List ℕ)
    → map asked (map (pick_button batch_id) positions)
      ≡ map (λ i. pick (pos batch_id) (pos i)) positions
picks_asked batch_id [] = refl
picks_asked batch_id (i ∷ is) =
    ap (λ a. a ∷ map asked (map (pick_button batch_id) is)) (parse-pick_button batch_id i)
    ∙ ap (λ as'. pick (pos batch_id) (pos i) ∷ as') (picks_asked batch_id is)

-- Every button asks for what it shows: those of a proposal for the picks of its positions and then
-- for the end of the selection, the four of a review for their action on it, and the one of an
-- expired proposal for its extension.
pub asked_lem :
    (batch_id review_id : ℕ) (positions : List ℕ)
    → (map asked (concat (proposal_keyboard batch_id positions))
        ≡ map (λ i. pick (pos batch_id) (pos i)) positions ++ pick_done (pos batch_id) ∷ [])
      × (map asked (concat (review_keyboard review_id))
          ≡ review_action (codes "skip") (pos review_id)
            ∷ review_action (codes "hint") (pos review_id)
            ∷ review_action (codes "solution") (pos review_id)
            ∷ review_action (codes "why") (pos review_id)
            ∷ [])
      × (parse_callback (codes "v2x:" ++ show_nat batch_id) ≡ extend (pos batch_id))
unfolding review_keyboard split_colon
asked_lem batch_id review_id positions = (
  ap (map asked) (proposal_keyboard_lem batch_id positions).0
      ∙ map-append asked (map (pick_button batch_id) positions) _
      ∙ ap (λ as'. as' ++ parse_callback (codes "v2pd:" ++ show_nat batch_id) ∷ [])
          (picks_asked batch_id positions)
      ∙ ap (λ a. map (λ i. pick (pos batch_id) (pos i)) positions ++ a ∷ []) (parse_done batch_id),
  rw
      (
        parse-review_button (codes "Skip") (codes "skip") review_id refl,
        parse-review_button (codes "Hint") (codes "hint") review_id refl,
        parse-review_button (codes "Saw solution") (codes "solution") review_id refl,
        parse-review_button (codes "Why") (codes "why") review_id refl,
      )
      refl,
  parse_extend batch_id,
)
