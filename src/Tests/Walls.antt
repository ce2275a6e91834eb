-- ===== src/Tests/Walls.antt =====
-- A wall time of a zone whose clock goes back, and a bounded value.
use leetcode_coach_service.Base.{
  ℕ, ◌==◌, nat_eq, int_eq, ltb_ℤ, ℤ, some, sym, subst, Bool-cases, inl, inr, if◌then◌else◌,
  int_beq_iff, true, pos, ◌+ℤ◌, ◌-ℤ◌, int_beq, ◌≡◌, refl, not, ◌||◌,
}
use leetcode_coach_service.Calendar.Wall.{
  Zone, FoldsAgree, instant, is_ambiguous, is_valid, resolve_wall, resolve_wall_lem,
}

-- The clock goes from offset 3 to offset 2 at the instant 100, so that it shows 102 twice.
abbrev autumn_offset : ℤ → ℕ → ℤ
autumn_offset wall fold =
    if wall == pos 102
    then (if fold == 0 then pos 3 else pos 2)
    else if ltb_ℤ wall (pos 102)
    then pos 3
    else pos 2

abbrev zone : Zone
zone = record {
  offset = autumn_offset;
  local = λ t. if ltb_ℤ t (pos 100) then t +ℤ pos 3 else t +ℤ pos 2;
}

shown_twice : is_valid zone (pos 102) 0 ≡ is_valid zone (pos 102) 1
unfolding int_beq ◌-ℤ◌ ◌+ℤ◌
shown_twice = refl

agree : FoldsAgree zone
agree wall other = elim (Bool-cases (wall == pos 102)) [
  | inl there ↦
      subst (λ w. is_valid zone w 0 ≡ is_valid zone w 1)
        (sym ((int_beq_iff wall (pos 102)).0 there)) shown_twice
  | inr elsewhere ↦
      let same : autumn_offset wall 0 ≡ autumn_offset wall 1 = rw elsewhere refl in
      absurd (cc ((int_beq_iff (autumn_offset wall 0) (autumn_offset wall 1)).1 same, other))
]

resolved : resolve_wall zone (pos 102) (some 1) ≡ instant (pos 100)
unfolding resolve_wall ◌-ℤ◌ ◌+ℤ◌ int_beq
resolved = refl

resolve_wall_lem_example :
    (zone.local (pos 100) ≡ pos 102) × ((true || not (is_ambiguous zone (pos 102))) ≡ true)
resolve_wall_lem_example = resolve_wall_lem zone (pos 102) (some 1) (pos 100) agree resolved
