-- ===== src/Adapter/Catalog.antt =====
-- What a catalog search returns.
use leetcode_coach_service.Base.{
  false, Any, ◌⊎◌, true, List, [], int_eq, nat_eq, select, map, All, ◌≡◌,
}
use leetcode_coach_service.Text.{Text, text_eq, codes, lower}
use leetcode_coach_service.Model.{Problem}
use leetcode_coach_service.Adapter.Search.{
  eligible_unsolved, solved_only, ineligible, all_problems, normalized, has_tag, is_difficulty,
  CatalogMode, Filters,
}

-- What the mode asks of a problem.
abbrev pub InMode : CatalogMode → Problem → Type 0
InMode eligible_unsolved p = (p.eligible ≡ true) × (p.solved ≡ false)
InMode solved_only p = p.solved ≡ true
InMode ineligible p = p.eligible ≡ false
InMode all_problems p = Unit

abbrev pub IsDifficulty : Text → Type 0
IsDifficulty d = (d ≡ codes "easy") ⊎ (d ≡ codes "medium") ⊎ (d ≡ codes "hard")

-- The filter names the problem's difficulty, or no known one.
abbrev pub InDifficulties : List Text → Text → Type 0
InDifficulties ds d =
    Any (λ x. IsDifficulty (lower x) × (lower x ≡ d)) ds ⊎ All (λ x. IsDifficulty (lower x) → ⊥) ds

-- What the filters ask of a problem; a tag that is blank asks nothing.
abbrev pub Fits : CatalogMode → Filters → Problem → Type 0
Fits m f p =
    InMode m p
    × InDifficulties f.difficulty p.difficulty
    × All (λ tag. (normalized tag ≡ []) ⊎ (has_tag (normalized tag) p ≡ true)) f.include_tags
    × All (λ tag. (normalized tag ≡ []) ⊎ (has_tag (normalized tag) p ≡ false)) f.exclude_tags
    × ((normalized f.topic ≡ []) ⊎ (has_tag (normalized f.topic) p ≡ true))

abbrev wanted_difficulties : List Text → List Text
wanted_difficulties ds = select is_difficulty (map lower ds)
