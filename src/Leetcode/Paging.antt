-- ===== src/Leetcode/Paging.antt =====
-- The loop of `fetch_problemset`, src/leetcode_coach/integrations/leetcode.py, ends.
use leetcode_coach_service.Base.{
  ℕ, zero, suc, ◌+◌, ◌-◌, ◌<◌, Option, none, some, List, [], ◌∷◌, is_some, true, ◌≡◌, refl,
  Option-cases, inl, inr, arith, length, min, map,
}
use leetcode_coach_service.Text.{Text}
use leetcode_coach_service.Jobs.{ProblemRecord}
use leetcode_coach_service.Adapter.{upper_char}
use leetcode_coach_service.Leetcode.{Problemset, fetch_pages, append_records, fetch_problemset}

module _ (page : Problemset) (difficulty : Text) (total page_size : ℕ) where
  -- Every round that goes on has fetched at least one question.
  fetch_pages_ends :
      (fuel fetched skip : ℕ)
      → total < fetched + fuel
      → is_some (fetch_pages page difficulty total page_size fuel fetched skip) ≡ true
  unfolding fetch_pages
  fetch_pages_ends zero fetched skip enough = ground (arith, enough)
  fetch_pages_ends (suc fuel) fetched skip enough =
      let limit = min page_size (total - fetched) in
      elim (Option-cases (page difficulty limit skip)) [
        | inl raised ↦ ground (arith, raised)
        | inr (questions, given) ↦ ground (
          arith,
          given,
          enough,
          fetch_pages_ends fuel (fetched + length questions) (skip + limit),
        )
      ]

append_records_ends :
    (a b : Option (Option (List ProblemRecord)))
    → is_some a ≡ true
    → is_some b ≡ true
    → is_some (append_records a b) ≡ true
append_records_ends none b h k = cc h
append_records_ends (some none) b h k = refl
append_records_ends (some (some rs)) none h k = cc k
append_records_ends (some (some rs)) (some none) h k = refl
append_records_ends (some (some rs)) (some (some more)) h k = refl

-- The fuel that `fetch_problemset` gives its loop is always enough, whatever the pages hold, also
-- for a page size of zero and for pages that are longer than asked for.
pub fetch_problemset_ends :
    (page : Problemset) (total page_size : ℕ) (difficulties : List Text)
    → is_some (fetch_problemset page total page_size difficulties) ≡ true
unfolding fetch_problemset
fetch_problemset_ends page total page_size [] = refl
fetch_problemset_ends page total page_size (d ∷ ds) =
    append_records_ends _ _
      (fetch_pages_ends page (map upper_char d) total page_size (suc total) 0 0 (omega arith))
      (fetch_problemset_ends page total page_size ds)
