-- ===== src/Calendar/Wall.antt =====
-- `local_wall_to_utc` of src/leetcode_coach/clock.py.
use leetcode_coach_service.Base.{
  ℕ, zero, suc, Bool, true, false, Option, none, some, ◌&&◌, ◌||◌, ◌==◌, ℤ, ◌-ℤ◌, int_eq, nat_eq,
  not, is_some, or_else, if◌then◌else◌, ◌≡◌, ap, sym, ◌∙◌, arith, int_beq_iff, Bool-cases, inl, inr,
}
use leetcode_coach_service.Text.{Text}

-- A time zone, in microseconds: the offset of a wall time with a fold, and the wall time of an
-- instant.
pub record Zone : Type 0 where
  pub offset : ℤ → ℕ → ℤ
  pub local : ℤ → ℤ

-- What `fromisoformat` gives: an instant, where the text has an offset, or a wall time.
pub data Moment : Type 0 where
  aware : ℤ → Moment
  naive : ℤ → Moment

pub data WallError : Type 0 where
  malformed_time nonexistent_time ambiguous_time bad_fold : WallError

pub data WallResult : Type 0 where
  instant : ℤ → WallResult
  refused : WallError → WallResult

-- `wall.replace(tzinfo=zone, fold=fold).astimezone(UTC)`
abbrev pub at_fold : Zone → ℤ → ℕ → ℤ
at_fold zone wall fold = wall -ℤ zone.offset wall fold

-- The instant has the wall time again.
abbrev pub is_valid : Zone → ℤ → ℕ → Bool
is_valid zone wall fold = zone.local (at_fold zone wall fold) == wall

abbrev pub is_ambiguous : Zone → ℤ → Bool
is_ambiguous zone wall =
    is_valid zone wall 0 && (is_valid zone wall 1 && not (zone.offset wall 0 == zone.offset wall 1))

unfoldable pub resolve_wall : Zone → ℤ → Option ℕ → WallResult
resolve_wall zone wall fold =
    let selected = or_else fold 0 in
    if not (is_valid zone wall 0 || is_valid zone wall 1)
    then refused nonexistent_time
    else if is_ambiguous zone wall && not (is_some fold)
    then refused ambiguous_time
    else if not (selected == 0 || selected == 1)
    then refused bad_fold
    else instant (at_fold zone wall selected)

unfoldable pub local_wall_to_utc : (Text → Option Moment) → Zone → Text → Option ℕ → WallResult
unfolding resolve_wall
local_wall_to_utc from_iso zone value fold = elim (from_iso value) [
  | none ↦ refused malformed_time
  | some (aware t) ↦ instant t
  | some (naive wall) ↦ resolve_wall zone wall fold
]

-- PEP 495: where the two folds of a wall time have different offsets, the clock went forward there,
-- and neither is valid, or it went back, and both are.
abbrev pub FoldsAgree : Zone → Type 0
FoldsAgree zone =
    (wall : ℤ)
    → (zone.offset wall 0 == zone.offset wall 1) ≡ false
    → is_valid zone wall 0 ≡ is_valid zone wall 1

folds_valid :
    (zone : Zone) (wall : ℤ)
    → FoldsAgree zone
    → (is_valid zone wall 0 || is_valid zone wall 1) ≡ true
    → (is_valid zone wall 0 ≡ true) × (is_valid zone wall 1 ≡ true)
folds_valid zone wall agree some_valid =
    elim (Bool-cases (zone.offset wall 0 == zone.offset wall 1)) [
      | inl same ↦
          let equal = (int_beq_iff (zone.offset wall 0) (zone.offset wall 1)).0 same in
          let both : is_valid zone wall 0 ≡ is_valid zone wall 1 =
            ap (λ (o : ℤ). zone.local (wall -ℤ o) == wall) equal in
          ground (arith, both, some_valid)
      | inr other ↦ ground (arith, agree wall other, some_valid)
    ]

resolve_wall_inv :
    (zone : Zone) (wall : ℤ) (fold : Option ℕ) (t : ℤ)
    → resolve_wall zone wall fold ≡ instant t
    → ((is_valid zone wall 0 || is_valid zone wall 1) ≡ true)
      × ((is_some fold || not (is_ambiguous zone wall)) ≡ true)
      × ((or_else fold 0 == 0 || or_else fold 0 == 1) ≡ true)
      × (at_fold zone wall (or_else fold 0) ≡ t)
unfolding resolve_wall
resolve_wall_inv zone wall fold t run = (ground arith, ground arith, ground arith, ground arith)

selected_valid :
    (zone : Zone) (wall : ℤ) (n : ℕ)
    → (n == 0 || n == 1) ≡ true
    → (is_valid zone wall 0 ≡ true) × (is_valid zone wall 1 ≡ true)
    → is_valid zone wall n ≡ true
selected_valid zone wall zero fold (zeroth, first) = zeroth
selected_valid zone wall (suc zero) fold (zeroth, first) = first
selected_valid zone wall (suc (suc n)) fold valid = absurd (ground (arith, fold))

-- An instant that a wall time resolves to has that wall time, whichever fold was asked for, if the
-- zone keeps to PEP 495; and a wall time with two offsets is not resolved without a fold.
pub resolve_wall_lem :
    (zone : Zone) (wall : ℤ) (fold : Option ℕ) (t : ℤ)
    → FoldsAgree zone
    → resolve_wall zone wall fold ≡ instant t
    → (zone.local t ≡ wall) × ((is_some fold || not (is_ambiguous zone wall)) ≡ true)
resolve_wall_lem zone wall fold t agree run =
    let (exists, clear, known, given) = resolve_wall_inv zone wall fold t run in
    let valid =
      selected_valid zone wall (or_else fold 0) known (folds_valid zone wall agree exists) in
    (
      ap zone.local (sym given)
          ∙ (int_beq_iff (zone.local (at_fold zone wall (or_else fold 0))) wall).0 valid,
      clear,
    )
