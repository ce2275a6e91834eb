-- ===== src/Leetcode.antt =====
-- The LeetCode adapter, src/leetcode_coach/integrations/leetcode.py: exact slugs and the problems that
-- LeetCode answers with.
pub mod Paging
pub mod Slugs
use leetcode_coach_service.Base.{
  ℕ, zero, suc, ◌+◌, ◌-◌, Bool, true, false, Option, none, some, List, [], ◌∷◌, ◌++◌, ◌&&◌, ◌||◌,
  ◌==◌, nat_eq, nat_beq, first, select, not, leb, ltb, map, is_some, length, min, if◌then◌else◌,
}
use leetcode_coach_service.Text.{Text, codes, text_eq, is_empty, strip, lower}
use leetcode_coach_service.Text.Strip.{join}
use leetcode_coach_service.Jobs.{ProblemRecord}
use leetcode_coach_service.Adapter.{upper_char}

-- What `urlparse` gives of a text, with `hostname` empty where it is `None`.
pub record Url : Type 0 where
  pub scheme : Text
  pub netloc : Text
  pub hostname : Text
  pub path : Text

abbrev pub is_slug_char : ℕ → Bool
is_slug_char c = (leb 97 c && leb c 122) || (leb 48 c && leb c 57)

-- Behind a character of a word, and where a word has to begin.
unfoldable pub in_slug : Bool → Text → Bool
in_slug inside [] = inside
in_slug inside (c ∷ s) =
    let rest = in_slug true s in
    let next = in_slug false s in
    if is_slug_char c then rest else if inside && nat_beq c 45 then next else false

-- `re.fullmatch(r"[a-z0-9]+(?:-[a-z0-9]+)*", s)`
unfoldable pub is_slug : Text → Bool
unfolding in_slug
is_slug s = in_slug false s

-- `[part for part in path.split("/") if part]`, in front of which stands the part `word`.
unfoldable pub path_parts : Text → Text → List Text
path_parts word [] = if is_empty word then [] else word ∷ []
path_parts word (c ∷ s) =
    let same = path_parts (word ++ c ∷ []) s in
    let rest = path_parts [] s in
    if nat_beq c 47 then (if is_empty word then rest else word ∷ rest) else same

-- The part behind `problems`.
abbrev pub problem_part : List Text → Option Text
problem_part (p ∷ slug ∷ rest) = if p == codes "problems" then some slug else none
problem_part _ = none

abbrev pub is_leetcode_url : Url → Bool
is_leetcode_url u =
    (u.scheme == codes "http" || u.scheme == codes "https")
    && (u.hostname == codes "leetcode.com" || u.hostname == codes "www.leetcode.com")

-- The text whose form is checked.
unfoldable pub slug_candidate : Url → Text → Option Text
unfolding path_parts
slug_candidate u text =
    if is_empty u.scheme && is_empty u.netloc
    then some text
    else if is_leetcode_url u
    then problem_part (path_parts [] u.path)
    else none

-- `none` is the `LeetCodeV2Error`.
unfoldable pub exact_problem_slug : (Text → Url) → Text → Option Text
unfolding slug_candidate is_slug
exact_problem_slug urlparse value =
    let text = strip value in
    elim (slug_candidate (urlparse text) text) [
      | none ↦ none
      | some slug ↦ if is_slug slug then some slug else none
    ]

-- A row of `questions`; the tags are the slugs of `topicTags`.
pub record Question : Type 0 where
  pub title_slug : Text
  pub title : Text
  pub difficulty : Text
  pub topic_tags : List Text

unfoldable pub record_of : Question → ProblemRecord
unfolding lower join
record_of q = record {
  slug = q.title_slug;
  title = q.title;
  difficulty = lower q.difficulty;
  tags = join (codes ",") q.topic_tags;
}

-- `search` is what `_post_once`, or `_post`, gives of the `questions` that match the keywords;
-- `none` is an exception.
unfoldable pub exact_question : (Text → Option (List Question)) → Text → Option ProblemRecord
unfolding record_of
exact_question search slug = elim (search slug) [
  | none ↦ none
  | some questions ↦ elim (first (λ (q : Question). q.title_slug == slug) questions) [
    | none ↦ none
    | some q ↦ some (record_of q)
  ]
]

unfoldable pub fetch_exact_problem :
    (Text → Url) → (Text → Option (List Question)) → Text → Option ProblemRecord
unfolding exact_problem_slug exact_question
fetch_exact_problem urlparse search value = elim (exact_problem_slug urlparse value) [
  | none ↦ none
  | some slug ↦ exact_question search slug
]

-- The records of the recent submissions, in order.
unfoldable pub exact_questions :
    (Text → Option (List Question)) → List Text → Option (List ProblemRecord)
unfolding exact_question
exact_questions search [] = some []
exact_questions search (slug ∷ slugs) =
    let rest = exact_questions search slugs in
    elim (exact_question search slug) [
      | none ↦ none
      | some r ↦ elim rest [ none ↦ none | some rs ↦ some (r ∷ rs) ]
    ]

-- `recent` is the `titleSlug`s of the submissions that LeetCode gives of a user, up to a limit.
unfoldable pub fetch_recent_solved :
    Text
    → (Text → ℕ → Option (List Text))
    → (Text → Option (List Question))
    → ℕ
    → Option (List ProblemRecord)
unfolding exact_questions
fetch_recent_solved username recent search limit =
    if is_empty username then some [] else elim (recent username (min limit 20)) [
      | none ↦ none
      | some slugs ↦ exact_questions search slugs
    ]

-- `difficulty`, `limit` and `skip` to the questions of a page.
abbrev pub Problemset : Type 0
Problemset = Text → ℕ → ℕ → Option (List Question)

-- The loop over the pages of a difficulty, with the records in front. `none` of the outer type
-- means that the fuel ran out, `none` of the inner one an exception.
unfoldable pub fetch_pages :
    Problemset → Text → ℕ → ℕ → ℕ → ℕ → ℕ → Option (Option (List ProblemRecord))
unfolding record_of
fetch_pages page difficulty total page_size zero fetched skip =
    if ltb fetched total then none else some (some [])
fetch_pages page difficulty total page_size (suc fuel) fetched skip =
    let limit = min page_size (total - fetched) in
    elim (page difficulty limit skip) [
      | none ↦ if ltb fetched total then some none else some (some [])
      | some questions ↦
          let rest =
            fetch_pages page difficulty total page_size fuel (fetched + length questions)
              (skip + limit) in
          if not (ltb fetched total) || nat_beq (length questions) 0
          then some (some [])
          else if ltb (length questions) limit
          then some (some (map record_of questions))
          else elim rest [
            | none ↦ none
            | some none ↦ some none
            | some (some records) ↦ some (some (map record_of questions ++ records))
          ]
    ]

abbrev pub append_records :
    Option (Option (List ProblemRecord))
    → Option (Option (List ProblemRecord))
    → Option (Option (List ProblemRecord))
append_records none rest = none
append_records (some none) rest = some none
append_records (some (some records)) none = none
append_records (some (some records)) (some none) = some none
append_records (some (some records)) (some (some more)) = some (some (records ++ more))

-- `per_difficulty_limit + 1` rounds are enough for each difficulty.
unfoldable pub fetch_problemset :
    Problemset → ℕ → ℕ → List Text → Option (Option (List ProblemRecord))
unfolding fetch_pages
fetch_problemset page total page_size [] = some (some [])
fetch_problemset page total page_size (d ∷ ds) =
    append_records (fetch_pages page (map upper_char d) total page_size (suc total) 0 0)
      (fetch_problemset page total page_size ds)
