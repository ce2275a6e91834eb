-- ===== src/Adapter/Search.antt =====
-- `search_problem_catalog` of src/leetcode_coach/runtime/adapters.py.
use leetcode_coach_service.Base.{
  ℕ, Bool, true, false, Option, none, some, List, [], ◌∷◌, ◌++◌, ◌&&◌, ◌||◌, if◌then◌else◌, ◌==◌, ℤ,
  int_eq, nat_eq, pos_part, select, any, all, not, ltb, take, map, min, max,
}
use leetcode_coach_service.Text.{Text, codes, text_eq, is_empty, strip, lower}
use leetcode_coach_service.Model.{Problem}
use leetcode_coach_service.Store.{Db}
use leetcode_coach_service.Adapter.{ProblemView, problem_view, order_by}

-- SQL's `text LIKE pattern`: `%` is any text, `_` any character, a backslash quotes the next one.
unfoldable pub any_suffix : (Text → Bool) → Text → Bool
any_suffix p [] = p []
any_suffix p (c ∷ t) = p (c ∷ t) || any_suffix p t

abbrev pub on_char : (ℕ → Bool) → (Text → Bool) → Text → Bool
on_char p rest [] = false
on_char p rest (c ∷ t) = p c && rest t

unfoldable pub like : Text → Text → Bool
unfolding any_suffix
like [] t = is_empty t
like (x ∷ []) t = if x == 37 then true else on_char (λ c. x == 95 || c == x) (λ t. is_empty t) t
like (x ∷ y ∷ rest) t =
    let any_text = any_suffix (like (y ∷ rest)) t in
    let quoted = on_char (λ c. c == y) (like rest) t in
    let one = on_char (λ c. x == 95 || c == x) (like (y ∷ rest)) t in
    if x == 37 then any_text else if x == 92 then quoted else one

-- `func.lower(tags).contains(tag)`, whose pattern is not escaped.
unfoldable pub has_tag : Text → Problem → Bool
unfolding like lower
has_tag tag p = like (codes "%" ++ (tag ++ codes "%")) (lower p.tags)

pub data CatalogMode : Type 0 where
  eligible_unsolved solved_only ineligible all_problems : CatalogMode

-- `none` is `ValueError("invalid catalog mode")`.
unfoldable pub parse_mode : Text → Option CatalogMode
parse_mode t =
    if t == codes "eligible_unsolved"
    then some eligible_unsolved
    else if t == codes "solved"
    then some solved_only
    else if t == codes "ineligible"
    then some ineligible
    else if t == codes "all"
    then some all_problems
    else none

abbrev pub is_in_mode : CatalogMode → Problem → Bool
is_in_mode eligible_unsolved p = p.eligible && not p.solved
is_in_mode solved_only p = p.solved
is_in_mode ineligible p = not p.eligible
is_in_mode all_problems p = true

pub record Filters : Type 0 where
  pub difficulty : List Text
  pub include_tags : List Text
  pub exclude_tags : List Text
  pub topic : Text

abbrev pub is_difficulty : Text → Bool
is_difficulty d = d == codes "easy" || (d == codes "medium" || d == codes "hard")

-- The known difficulties that the filter names; none of them is no restriction.
unfoldable pub difficulties : Filters → List Text
difficulties f = select is_difficulty (map lower f.difficulty)

abbrev pub in_difficulties : List Text → Text → Bool
in_difficulties [] d = true
in_difficulties (x ∷ xs) d = any (λ y. y == d) (x ∷ xs)

abbrev pub normalized : Text → Text
normalized t = lower (strip t)

unfoldable pub matches : CatalogMode → Filters → Problem → Bool
unfolding difficulties has_tag
matches mode f p =
    is_in_mode mode p
    && (in_difficulties (difficulties f) p.difficulty
        && (all (λ tag. is_empty (normalized tag) || has_tag (normalized tag) p) f.include_tags
            && (all (λ tag. is_empty (normalized tag) || not (has_tag (normalized tag) p))
                  f.exclude_tags
                && (is_empty (normalized f.topic) || has_tag (normalized f.topic) p))))

-- `times_attempted.desc(), slug`, slugs in the order of their code points.
unfoldable pub text_ltb : Text → Text → Bool
text_ltb [] [] = false
text_ltb [] (y ∷ ys) = true
text_ltb (x ∷ xs) [] = false
text_ltb (x ∷ xs) (y ∷ ys) = ltb x y || (x == y && text_ltb xs ys)

abbrev pub more_attempted : Problem → Problem → Bool
more_attempted a b =
    ltb b.times_attempted a.times_attempted
    || (a.times_attempted == b.times_attempted && text_ltb a.slug b.slug)

-- `max(1, min(limit, 20))`
abbrev pub page_limit : ℤ → ℕ
page_limit limit = max 1 (min (pos_part limit) 20)

unfoldable pub search_problem_catalog : Text → Filters → ℤ → Db → Option (List ProblemView)
unfolding matches order_by problem_view text_ltb
search_problem_catalog mode filters limit db = elim (parse_mode mode) [
  | none ↦ none
  | some m ↦ some (
      map problem_view (
        take (page_limit limit) (order_by more_attempted (select (matches m filters) db.problems))))
]
