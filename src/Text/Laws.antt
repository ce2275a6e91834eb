-- ===== src/Text/Laws.antt =====
-- Laws of the text functions.
use leetcode_coach_service.Base.{◌≡◌, refl, true, [], ◌∷◌, ◌++◌, arith}
use leetcode_coach_service.Text.{Text, text_beq, text_beq_iff, text_eq, lower}

pub text_beq_refl : (s : Text) → text_beq s s ≡ true
text_beq_refl s = (text_beq_iff s s).1 refl

pub lower_idem : (s : Text) → lower (lower s) ≡ lower s
unfolding lower
lower_idem [] = refl
lower_idem (c ∷ s) = ground (arith, lower_idem s)

-- A common prefix cancels.
pub append_left_cancel : (p s t : Text) → p ++ s ≡ p ++ t → s ≡ t
append_left_cancel [] s t h = h
append_left_cancel (c ∷ p) s t h = append_left_cancel p s t (cc)
