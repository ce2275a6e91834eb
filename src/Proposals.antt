-- ===== src/Proposals.antt =====
-- Proposals: `hydrate_proposal` (src/leetcode_coach/domain/proposals.py), the dataclasses of
-- domain/schemas.py, and `create_proposal`, `commit_picks`, `extend_proposal` of `CoachDomain`
-- (domain/services.py).
pub mod Hydration
pub mod Picks
pub mod Opening
pub mod Extension
use leetcode_coach_service.Base.{
  ℕ, zero, suc, ◌+◌, Bool, true, false, Option, none, some, List, [], ◌∷◌, ◌++◌, ◌&&◌, ◌||◌, ⊤,
  if◌then◌else◌, ◌==◌, ℤ, int_eq, nat_eq, nat_beq, first, select, update, any, length, map, Eq, not,
  leb, or_else, is_some,
}
use leetcode_coach_service.Text.{Text, codes, text_eq, is_empty, strip, show_nat}
use leetcode_coach_service.Calendar.{Clock, hours}
use leetcode_coach_service.Model.{
  Problem, ProposalBatch, ProposalCandidate, PendingReview, open_batch, picked, is_open_batch,
  is_expired_batch, available, selected, is_available, open_review,
}
use leetcode_coach_service.Store.{
  Db, Exec, Result, ok, err, insert, pure, raise, raise_if, or_raise, modify, gets, create, ◌>>=◌,
  ◌>>◌, wrong_count, empty_slug, duplicate_slug, unknown_slug, bad_picks, batch_not_found,
  batch_closed, picks_unavailable, bad_hours, not_extendable,
}
use leetcode_coach_service.BotStates.{operation_replayed}

pub record ProposalSelection : Type 0 where
  pub slug : Text
  pub reasoning : Text
  pub coaching_hint : Text
  pub title : Option Text
  pub difficulty : Option Text
  pub tags : Text

pub record HydratedCandidate : Type 0 where
  pub position : ℕ
  pub slug : Text
  pub title : Text
  pub url : Text
  pub difficulty : Text
  pub tags : Text
  pub reasoning : Text
  pub coaching_hint : Text

abbrev pub contains : List Text → Text → Bool
contains slugs s = any (λ t. t == s) slugs

-- `len(set(slugs)) == len(slugs)`
unfoldable pub distinct : List Text → Bool
distinct [] = true
distinct (s ∷ slugs) = not (contains slugs s) && distinct slugs

abbrev pub lookup_problem : Text → List Problem → Option Problem
lookup_problem slug = first (λ (p : Problem). p.slug == slug)

abbrev pub hydrated : ℕ → ProposalSelection → Problem → HydratedCandidate
hydrated index s p = record {
  position = index;
  slug = strip s.slug;
  title = p.title;
  url = p.url;
  difficulty = p.difficulty;
  tags = p.tags;
  reasoning = strip s.reasoning;
  coaching_hint = strip s.coaching_hint;
}

-- The candidates from position `index` on; `none` at a slug that names no problem.
unfoldable pub hydrate_from :
    List Problem → ℕ → List ProposalSelection → Option (List HydratedCandidate)
hydrate_from problems index [] = some []
hydrate_from problems index (s ∷ rest) =
    let later = hydrate_from problems (index + 1) rest in
    elim (lookup_problem (strip s.slug) problems) [
      | none ↦ none
      | some p ↦ elim later [ none ↦ none | some cs ↦ some (hydrated index s p ∷ cs) ]
    ]

abbrev pub wrong_number : Option ℕ → ℕ → Bool
wrong_number none n = false
wrong_number (some expected) n = not (n == expected)

abbrev pub stripped_slugs : List ProposalSelection → List Text
stripped_slugs = map (λ (s : ProposalSelection). strip s.slug)

-- `required_mix` is deleted unread.
unfoldable pub hydrate_proposal : Option ℕ → List ProposalSelection → Exec (List HydratedCandidate)
hydrate_proposal expected_count selections = do
  raise_if (wrong_number expected_count (length selections)) wrong_count
  let slugs = stripped_slugs selections
  raise_if (nat_beq (length slugs) 0 || any is_empty slugs) empty_slug
  raise_if (not (distinct slugs)) duplicate_slug
  candidates ← gets (λ db. hydrate_from db.problems 1 selections)
  or_raise candidates unknown_slug

abbrev pub new_batch : Clock → ℤ → ℕ → ℕ → ProposalBatch
new_batch clock chat_id expires_at id = record {
  id = id;
  chat_id = chat_id;
  proposed_on = clock.today;
  status = open_batch;
  telegram_message_id = none;
  expires_at = expires_at;
  extended_until = none;
  created_at = clock.now;
}

abbrev pub new_candidate : ℕ → HydratedCandidate → ℕ → ProposalCandidate
new_candidate batch_id c id = record {
  id = id;
  batch_id = batch_id;
  position = c.position;
  problem_slug = c.slug;
  reasoning = c.reasoning;
  coaching_hint = c.coaching_hint;
  status = available;
}

unfoldable pub add_candidates : ℕ → List HydratedCandidate → Db → Db
add_candidates batch_id [] db = db
add_candidates batch_id (c ∷ cs) db =
    add_candidates batch_id cs
      (record db { candidates = insert (new_candidate batch_id c) db.candidates })

unfoldable pub add_batch : Clock → ℤ → ℕ → Db → ProposalBatch × Db
add_batch clock chat_id expires_at db =
    let row = new_batch clock chat_id expires_at in
    (row db.batches.next_id, record db { batches = insert row db.batches })

unfoldable pub create_proposal :
    Clock → ℤ → List ProposalSelection → Option ℕ → Exec (ProposalBatch × List HydratedCandidate)
create_proposal clock chat_id selections expires_at = do
  preview ← hydrate_proposal none selections
  batch ← create (add_batch clock chat_id (or_else expires_at (clock.now + hours 24)))
  modify (add_candidates batch.id preview)
  pure (batch, preview)

abbrev pub find_batch : ℕ → Db → Option ProposalBatch
find_batch id db = first (λ (b : ProposalBatch). b.id == id) db.batches.rows

-- `sorted(candidates, key=position)`: stable insertion.
unfoldable pub insert_by_position :
    ProposalCandidate → List ProposalCandidate → List ProposalCandidate
insert_by_position c [] = c ∷ []
insert_by_position c (d ∷ ds) =
    if leb c.position d.position then c ∷ d ∷ ds else d ∷ insert_by_position c ds

unfoldable pub sort_by_position : List ProposalCandidate → List ProposalCandidate
unfolding insert_by_position
sort_by_position [] = []
sort_by_position (c ∷ cs) = insert_by_position c (sort_by_position cs)

abbrev pub is_pick : ℕ → List Text → ProposalCandidate → Bool
is_pick batch_id slugs c = c.batch_id == batch_id && contains slugs c.problem_slug

abbrev pub new_review : Clock → ℤ → ProposalBatch → ProposalCandidate → ℕ → PendingReview
new_review clock chat_id batch c id = record {
  id = id;
  chat_id = chat_id;
  candidate_id = some c.id;
  batch_id = some batch.id;
  problem_slug = c.problem_slug;
  telegram_message_id = none;
  proposed_on = batch.proposed_on;
  status = open_review;
  created_at = clock.now;
  updated_at = clock.now;
}

-- `candidate.status = SELECTED` and the new review, for each candidate in order.
unfoldable pub select_candidates :
    Clock → ℤ → ProposalBatch → List ProposalCandidate → Db → List PendingReview × Db
select_candidates clock chat_id batch [] db = ([], db)
select_candidates clock chat_id batch (c ∷ cs) db =
    let review = new_review clock chat_id batch c in
    let (rest, db') = select_candidates clock chat_id batch cs (record db {
      candidates = record (db.candidates) {
        rows =
            update (λ (d : ProposalCandidate). d.id == c.id) (λ d. record d { status = selected })
              db.candidates.rows;
      };
      reviews = insert review db.reviews;
    }) in
    (review db.reviews.next_id ∷ rest, db')

unfoldable pub set_batch : ℕ → (ProposalBatch → ProposalBatch) → Db → Db
set_batch id f db = record db {
  batches = record (db.batches) {
    rows = update (λ (b : ProposalBatch). b.id == id) f db.batches.rows;
  };
}

-- The checks of `commit_picks`, which give the batch and its picked candidates.
unfoldable pub check_picks :
    Clock → ℤ → ℕ → List Text → Exec (ProposalBatch × List ProposalCandidate)
check_picks clock chat_id batch_id slugs = do
  raise_if (nat_beq (length slugs) 0 || not (distinct slugs)) bad_picks
  found ← gets (find_batch batch_id)
  batch ← or_raise found batch_not_found
  raise_if (not (batch.chat_id == chat_id)) batch_not_found
  raise_if (not (is_open_batch batch.status) || leb batch.expires_at clock.now) batch_closed
  candidates ← gets (λ db. select (is_pick batch_id slugs) db.candidates.rows)
  raise_if
      (not (length candidates == length slugs)
        || any (λ (c : ProposalCandidate). not (is_available c.status)) candidates)
      picks_unavailable
  pure (batch, candidates)

unfoldable pub take_picks :
    Clock → ℤ → ProposalBatch → List ProposalCandidate → Db → List PendingReview × Db
unfolding select_candidates set_batch sort_by_position
take_picks clock chat_id batch candidates db =
    let (reviews, db') = select_candidates clock chat_id batch (sort_by_position candidates) db in
    (reviews, set_batch batch.id (λ b. record b { status = picked }) db')

unfoldable pub commit_picks : Clock → ℤ → ℕ → List Text → Exec (List PendingReview)
commit_picks clock chat_id batch_id slugs = do
  (batch, candidates) ← check_picks clock chat_id batch_id slugs
  create (take_picks clock chat_id batch candidates)

abbrev pub can_extend : ProposalBatch → Bool
can_extend b = is_open_batch b.status || is_expired_batch b.status

abbrev pub extended : Clock → ℕ → ProposalBatch → ProposalBatch
extended clock n b = record b {
  status = open_batch;
  extended_until = some (clock.now + hours n);
  expires_at = clock.now + hours n;
}

-- `none` is the reply `{"replayed": True}`.
unfoldable pub extend_proposal :
    (Text → Text) → Clock → ℤ → ℕ → ℕ → Option Text → Exec (Option ProposalBatch)
extend_proposal sha256 clock chat_id batch_id n operation_key = do
  raise_if (not (leb 1 n && leb n 72)) bad_hours
  replayed ←
      operation_replayed sha256 clock chat_id (codes "extend") (show_nat batch_id) operation_key
  if replayed then pure none else do
    found ← gets (find_batch batch_id)
    batch ← or_raise found batch_not_found
    raise_if (not (batch.chat_id == chat_id)) batch_not_found
    raise_if (not (can_extend batch)) not_extendable
    modify (set_batch batch_id (extended clock n))
    pure (some (extended clock n batch))
