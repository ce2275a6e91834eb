-- ===== src/Adapter/Practice.antt =====
-- `publish_practice_set`, `search_attempt_history` and `list_follow_ups` of
-- src/leetcode_coach/runtime/adapters.py.
use leetcode_coach_service.Base.{
  ℕ, Bool, true, false, Option, none, some, List, [], ◌∷◌, ◌++◌, ◌&&◌, ◌||◌, ⊤, ◌==◌, ℤ, int_eq,
  nat_eq, not, ltb, length, take, select, map, is_some, or_else, min, max, nat_beq, if◌then◌else◌,
}
use leetcode_coach_service.Text.{Text, codes, text_eq, is_empty, strip, lower, show_nat, show_int}
use leetcode_coach_service.Text.Decimal.{read_nat}
use leetcode_coach_service.Calendar.{Clock}
use leetcode_coach_service.Model.{Problem, Attempt, FollowUp}
use leetcode_coach_service.Store.{
  Db, Exec, ok, err, pure, raise_if, write, ◌>>=◌, ◌>>◌, value_error,
}
use leetcode_coach_service.BotStates.{find_state, set_bot_state}
use leetcode_coach_service.Attempts.{find_problem}
use leetcode_coach_service.Proposals.{ProposalSelection, HydratedCandidate, create_proposal}
use leetcode_coach_service.FollowUps.{sort_by_due}
use leetcode_coach_service.Jobs.{problem_url}
use leetcode_coach_service.Leetcode.{Url, exact_problem_slug}
use leetcode_coach_service.Adapter.{AttemptView, attempt_view, newer, order_by}
use leetcode_coach_service.Adapter.Search.{is_difficulty}

-- The fields of an item, empty where the item lacks them.
pub record RawSelection : Type 0 where
  pub slug : Text
  pub reasoning : Text
  pub coaching_hint : Text
  pub title : Text
  pub difficulty : Text
  pub tags : Text

-- `text or None`
abbrev pub text_or_none : Text → Option Text
text_or_none [] = none
text_or_none (c ∷ t) = some (c ∷ t)

abbrev pub parsed_selection : Text → RawSelection → ProposalSelection
parsed_selection slug r = record {
  slug = slug;
  reasoning = take 2000 r.reasoning;
  coaching_hint = take 2000 r.coaching_hint;
  title = text_or_none (take 300 (strip r.title));
  difficulty = text_or_none (lower (strip r.difficulty));
  tags = take 1000 r.tags;
}

-- `none` is the exception of a slug that is not exact.
unfoldable pub parse_selections : (Text → Url) → List RawSelection → Option (List ProposalSelection)
unfolding exact_problem_slug strip lower
parse_selections urlparse [] = some []
parse_selections urlparse (r ∷ rs) =
    let rest = parse_selections urlparse rs in
    elim (exact_problem_slug urlparse r.slug) [
      | none ↦ none
      | some slug ↦ elim rest [ none ↦ none | some ss ↦ some (parsed_selection slug r ∷ ss) ]
    ]

abbrev pub proposed_problem : ℕ → ProposalSelection → Problem
proposed_problem now s = record {
  slug = s.slug;
  title = or_else s.title [];
  url = problem_url s.slug;
  difficulty = or_else s.difficulty [];
  tags = s.tags;
  solved = false;
  eligible = false;
  last_attempted = none;
  times_attempted = 0;
  verified_solved = false;
  attempt_baseline_count = 0;
  attempt_baseline_last = none;
  created_at = now;
  updated_at = now;
}

abbrev pub lacks_metadata : ProposalSelection → Bool
lacks_metadata s = not (is_some s.title) || not (is_difficulty (or_else s.difficulty []))

-- A selected problem that is not stored is stored, as not eligible.
unfoldable pub ensure_selections : Clock → List ProposalSelection → Exec ⊤
ensure_selections clock [] db = (ok tt, db)
ensure_selections clock (s ∷ rest) db =
    let later = ensure_selections clock rest in
    if is_some (find_problem s.slug db)
    then later db
    else if lacks_metadata s
    then (err value_error, db)
    else later (record db { problems = db.problems ++ proposed_problem clock.now s ∷ [] })

unfoldable pub publish_key : (Text → Text) → ℤ → Text → Text
publish_key sha256 chat_id operation_key =
    codes "proposal_publish:" ++ sha256 (show_int chat_id ++ (codes ":" ++ operation_key))

-- The batch and its preview; `none` is the reply `{"replayed": True}`.
abbrev pub Practice : Type 0
Practice = ℕ × Option (List HydratedCandidate)

unfoldable pub publish_new : Clock → ℤ → List ProposalSelection → Text → Exec Practice
unfolding ensure_selections create_proposal set_bot_state
publish_new clock chat_id parsed key = do
  raise_if (nat_beq (length parsed) 0) value_error
  ensure_selections clock parsed
  (batch, preview) ← create_proposal clock chat_id parsed none
  set_bot_state clock chat_id key (show_nat batch.id)
  pure (batch.id, some preview)

unfoldable pub publish_once : Clock → ℤ → List ProposalSelection → Text → Exec Practice
unfolding publish_new
publish_once clock chat_id parsed key db = elim (find_state chat_id key db) [
  | none ↦ publish_new clock chat_id parsed key db
  | some state ↦ elim (read_nat state.value) [
    | none ↦ (err value_error, db)
    | some batch_id ↦ (ok (batch_id, none), db)
  ]
]

unfoldable pub publish_practice_set :
    (Text → Text) → (Text → Url) → Clock → ℤ → List RawSelection → Text → Exec Practice
unfolding publish_once parse_selections publish_key
publish_practice_set sha256 urlparse clock chat_id selections operation_key db =
    if ltb 20 (length selections)
    then (err value_error, db)
    else elim (parse_selections urlparse selections) [
      | none ↦ (err value_error, db)
      | some parsed ↦
          write (publish_once clock chat_id parsed (publish_key sha256 chat_id operation_key)) db
    ]

pub record HistoryFilters : Type 0 where
  pub include_reversed : Bool
  pub problem_slug : Text
  pub outcome : Text

-- The slug to look for, if one is asked for; `none` is the exception.
abbrev pub wanted_slug : (Text → Url) → Text → Option (Option Text)
wanted_slug urlparse value =
    if is_empty value
    then some none
    else elim (exact_problem_slug urlparse value) [ none ↦ none | some slug ↦ some (some slug) ]

abbrev pub is_wanted : Option Text → Text → Bool
is_wanted none slug = true
is_wanted (some wanted) slug = slug == wanted

abbrev pub in_history : ℤ → HistoryFilters → Option Text → Attempt → Bool
in_history chat_id f slug a =
    a.chat_id == chat_id
    && ((f.include_reversed || not (is_some a.reversed_at))
        && (is_wanted slug a.problem_slug && (is_empty f.outcome || a.outcome == f.outcome)))

-- `min(max(limit, 1), 50)`
abbrev pub history_limit : ℕ → ℕ
history_limit limit = min (max limit 1) 50

unfoldable pub search_attempt_history :
    (Text → Url) → ℤ → HistoryFilters → ℕ → Db → Option (List AttemptView)
unfolding exact_problem_slug order_by attempt_view
search_attempt_history urlparse chat_id f limit db = elim (wanted_slug urlparse f.problem_slug) [
  | none ↦ none
  | some slug ↦ some (
      map attempt_view (
        take (history_limit limit)
          (order_by newer (select (in_history chat_id f slug) db.attempts.rows))))
]

abbrev pub is_listed : ℤ → Text → FollowUp → Bool
is_listed chat_id status f = f.chat_id == chat_id && (status == codes "all" || f.status == status)

unfoldable pub list_follow_ups : ℤ → Text → ℕ → Db → List FollowUp
unfolding sort_by_due
list_follow_ups chat_id status limit db =
    take (history_limit limit) (sort_by_due (select (is_listed chat_id status) db.follow_ups))
