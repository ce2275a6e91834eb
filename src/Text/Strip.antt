-- ===== src/Text/Strip.antt =====
-- `str.rstrip` and `str.join`.
use mathlib.Core.List.{reverse}
use leetcode_coach_service.Base.{List, [], ◌∷◌, ◌++◌}
use leetcode_coach_service.Text.{Text, lstrip}

abbrev pub rstrip : Text → Text
rstrip s = reverse (lstrip (reverse s))

unfoldable pub join : Text → List Text → Text
join separator [] = []
join separator (s ∷ []) = s
join separator (s ∷ t ∷ rest) = s ++ (separator ++ join separator (t ∷ rest))
