-- ===== src/Application/Callbacks.antt =====
-- `handle_callback` of src/leetcode_coach/application.py: what the data of a button asks for.
use leetcode_coach_service.Base.{
  ℕ, zero, suc, ◌+◌, ◌-◌, ◌*◌, Bool, false, Option, none, some, [], ◌∷◌, ◌&&◌, ◌==◌, ℤ, pos, negsuc,
  nat_eq, nat_beq, leb, all, drop, if◌then◌else◌,
}
use leetcode_coach_service.Text.{Text, codes, text_eq, is_space}
use leetcode_coach_service.Application.Picking.{starts_with}

-- The data at the first colon; `none` where there is none.
unfoldable pub split_colon : Text → Option (Text × Text)
split_colon [] = none
split_colon (c ∷ s) =
    let rest = split_colon s in
    if nat_beq c 58
    then some ([], s)
    else elim rest [ none ↦ none | some (before, behind) ↦ some (c ∷ before, behind) ]

abbrev pub is_digit : ℕ → Bool
is_digit c = leb 48 c && leb c 57

abbrev pub starts_digit : Text → Bool
starts_digit [] = false
starts_digit (c ∷ s) = is_digit c

-- The digits behind a digit: single underscores may stand between them, and space behind them.
unfoldable pub int_from : ℕ → Text → Option ℕ
unfolding is_space
int_from acc [] = some acc
int_from acc (c ∷ s) =
    let rest = int_from (acc * 10 + (c - 48)) s in
    let next = int_from acc s in
    if is_digit c
    then rest
    else if nat_beq c 95
    then (if starts_digit s then next else none)
    else if is_space c && all is_space s
    then some acc
    else none

abbrev pub minus : ℕ → ℤ
minus zero = pos 0
minus (suc n) = negsuc n

abbrev pub map_option : {A B : Type 0} → (A → B) → Option A → Option B
map_option f none = none
map_option f (some a) = some (f a)

unfoldable pub unsigned : Text → Option ℕ
unfolding int_from
unsigned s = if starts_digit s then int_from 0 s else none

-- Behind the space in front.
unfoldable pub signed : Text → Option ℤ
unfolding unsigned
signed [] = none
signed (c ∷ s) =
    if nat_beq c 45
    then map_option minus (unsigned s)
    else if nat_beq c 43
    then map_option pos (unsigned s)
    else map_option pos (unsigned (c ∷ s))

-- `int(s)` of ASCII digits; `none` is the `ValueError`.
unfoldable pub int_of : Text → Option ℤ
unfolding signed is_space
int_of [] = none
int_of (c ∷ s) = let rest = int_of s in if is_space c then rest else signed (c ∷ s)

-- What a callback asks for. `malformed` is a known prefix whose numbers do not parse.
pub data Action : Type 0 where
  pick : ℤ → ℤ → Action
  pick_done : ℤ → Action
  review_action : Text → ℤ → Action
  extend : ℤ → Action
  accept_deficit show_queue snooze malformed unknown : Action

unfoldable pub parse_pick : Text → Action
unfolding split_colon int_of
parse_pick s = elim (split_colon s) [
  | none ↦ malformed
  | some (batch, position) ↦ elim (int_of batch) [
    | none ↦ malformed
    | some b ↦ elim (int_of position) [ none ↦ malformed | some p ↦ pick b p ]
  ]
]

unfoldable pub parse_review : Text → Action
unfolding split_colon int_of
parse_review s = elim (split_colon s) [
  | none ↦ malformed
  | some (action, review) ↦ elim (int_of review) [
    | none ↦ malformed
    | some id ↦ review_action action id
  ]
]

unfoldable pub parse_id : (ℤ → Action) → Text → Action
unfolding int_of
parse_id action s = elim (int_of s) [ none ↦ malformed | some id ↦ action id ]

-- The tests of `handle_callback` in their order; the prefixes hold the first colon.
unfoldable pub parse_callback : Text → Action
unfolding starts_with parse_pick parse_review parse_id
parse_callback s =
    if starts_with (codes "v2p:") s
    then parse_pick (drop 4 s)
    else if starts_with (codes "v2pd:") s
    then parse_id pick_done (drop 5 s)
    else if starts_with (codes "v2r:") s
    then parse_review (drop 4 s)
    else if starts_with (codes "v2x:") s
    then parse_id extend (drop 4 s)
    else if s == codes "v2n:accept"
    then accept_deficit
    else if s == codes "v2n:solve"
    then show_queue
    else if s == codes "v2n:snooze"
    then snooze
    else unknown
