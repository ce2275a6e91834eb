-- ===== src/Application/Picking.antt =====
-- `_direct_pick` and `_commit_direct_picks` of src/leetcode_coach/application.py.
use leetcode_coach_service.Base.{
  ℕ, Bool, true, false, Option, none, some, List, [], ◌∷◌, ◌++◌, ◌&&◌, ⊤, ◌==◌, ℤ, int_eq, nat_eq,
  nat_beq, select, not, map, length, if◌then◌else◌,
}
use leetcode_coach_service.Text.{Text, codes, text_eq}
use leetcode_coach_service.Calendar.{Clock}
use leetcode_coach_service.Model.{PendingReview, BotState, ProposalBatch, is_available, is_picked}
use leetcode_coach_service.Store.{Db, Exec, ok, err, pure, gets, modify, ◌>>=◌, ◌>>◌, key_error}
use leetcode_coach_service.BotStates.{find_state, set_bot_state}
use leetcode_coach_service.Proposals.{contains, find_batch, commit_picks}
use leetcode_coach_service.Application.{
  Codec, Codecs, Choice, find_candidate, is_live, pick_key, delivery_key, press_prefix,
  delete_states, delete_state,
}

-- `list.remove` of an item that is there.
unfoldable pub remove_slug : Text → List Text → List Text
remove_slug s [] = []
remove_slug s (t ∷ ts) = if t == s then ts else t ∷ remove_slug s ts

unfoldable pub toggled : Text → List Text → Text × List Text
unfolding remove_slug
toggled slug chosen =
    if contains chosen slug
    then (codes "Unselected", remove_slug slug chosen)
    else (codes "Selected", chosen ++ slug ∷ [])

-- What the state of a selection holds; any other value counts as no selection.
unfoldable pub chosen_slugs : Codec (List Text) → Option BotState → List Text
chosen_slugs codec none = []
chosen_slugs codec (some state) = elim (codec.load state.value) [ none ↦ [] | some slugs ↦ slugs ]

unfoldable pub save_choice : Codec (List Text) → Clock → ℤ → Text → List Text → Exec ⊤
save_choice codec clock chat_id key [] = do
  state ← gets (find_state chat_id key)
  modify (delete_state state)
save_choice codec clock chat_id key (s ∷ slugs) = do
  set_bot_state clock chat_id key (codec.dump (s ∷ slugs))
  pure tt

-- A press that was not seen before turns the candidate's selection over.
unfoldable pub press : Codecs → Clock → ℤ → ℕ → Text → Text → Exec (Option Choice)
unfolding toggled chosen_slugs save_choice
press codecs clock chat_id batch_id callback_key slug = do
  before ← gets (λ db. chosen_slugs codecs.slugs (find_state chat_id (pick_key batch_id) db))
  let (action, after) = toggled slug before
  let choice : Choice = record { action = action; slug = slug; count = length after }
  save_choice codecs.slugs clock chat_id (pick_key batch_id) after
  set_bot_state clock chat_id callback_key (codecs.choice.dump choice)
  pure (some choice)

-- A press that was seen is answered from its state.
unfoldable pub press_once : Codecs → Clock → ℤ → ℕ → Text → Text → Exec (Option Choice)
unfolding press
press_once codecs clock chat_id batch_id callback_key slug db =
    elim (find_state chat_id callback_key db) [
      | none ↦ press codecs clock chat_id batch_id callback_key slug db
      | some replay ↦ elim (codecs.choice.load replay.value) [
        | none ↦ (err key_error, db)
        | some choice ↦ (ok (some choice), db)
      ]
    ]

-- `choose`: `none` if the batch or the candidate cannot be picked.
unfoldable pub choose : Codecs → Clock → ℤ → ℕ → ℕ → Text → Exec (Option Choice)
unfolding is_live press_once
choose codecs clock chat_id batch_id position callback_key db = elim (find_batch batch_id db) [
  | none ↦ (ok none, db)
  | some batch ↦
      if not (is_live clock chat_id batch)
      then (ok none, db)
      else elim (find_candidate batch_id position db) [
        | none ↦ (ok none, db)
        | some c ↦
            if not (is_available c.status)
            then (ok none, db)
            else press_once codecs clock chat_id batch_id callback_key c.problem_slug db
      ]
]

abbrev pub review_ids : List PendingReview → List ℕ
review_ids = map (λ (r : PendingReview). r.id)

abbrev pub is_under : ℕ → Option ℕ → Bool
is_under batch_id none = false
is_under batch_id (some n) = n == batch_id

-- The reviews that the batch has in the chat.
unfoldable pub batch_reviews : ℤ → ℕ → Db → List ℕ
batch_reviews chat_id batch_id db = review_ids (
    select (λ (r : PendingReview). r.chat_id == chat_id && is_under batch_id r.batch_id)
      db.reviews.rows)

-- `key.startswith(prefix)`
unfoldable pub starts_with : Text → Text → Bool
starts_with [] t = true
starts_with (c ∷ p) [] = false
starts_with (c ∷ p) (d ∷ t) = nat_beq c d && starts_with p t

-- The states of a selection that was committed.
abbrev pub is_leftover : ℤ → ℕ → BotState → Bool
is_leftover chat_id batch_id s = s.chat_id == chat_id && starts_with (press_prefix batch_id) s.key

unfoldable pub clean_up : ℤ → ℕ → BotState → Db → Db
clean_up chat_id batch_id state db =
    delete_state (find_state chat_id (delivery_key batch_id) db)
      (delete_states (is_leftover chat_id batch_id) (delete_state (some state) db))

-- The new reviews of a selection; an empty one is none.
unfoldable pub commit_slugs : Clock → ℤ → ℕ → BotState → List Text → Exec (Option (List ℕ))
unfolding clean_up
commit_slugs clock chat_id batch_id state [] = pure none
commit_slugs clock chat_id batch_id state (s ∷ slugs) = do
  reviews ← commit_picks clock chat_id batch_id (s ∷ slugs)
  modify (clean_up chat_id batch_id state)
  pure (some (review_ids reviews))

unfoldable pub commit_selection : Codecs → Clock → ℤ → ℕ → BotState → Exec (Option (List ℕ))
unfolding commit_slugs
commit_selection codecs clock chat_id batch_id state = elim (codecs.slugs.load state.value) [
  | none ↦ pure none
  | some slugs ↦ commit_slugs clock chat_id batch_id state slugs
]

-- A batch that is not picked yet: the selection, if it is active and there is one.
unfoldable pub commit_active : Codecs → Clock → ℤ → ℕ → ProposalBatch → Exec (Option (List ℕ))
unfolding is_live commit_selection
commit_active codecs clock chat_id batch_id batch db =
    if not (is_live clock chat_id batch)
    then (ok none, db)
    else elim (find_state chat_id (pick_key batch_id) db) [
      | none ↦ (ok none, db)
      | some state ↦ commit_selection codecs clock chat_id batch_id state db
    ]

-- `commit`: `none` if nothing can be committed.
unfoldable pub commit_direct_picks : Codecs → Clock → ℤ → ℕ → Exec (Option (List ℕ))
unfolding commit_active batch_reviews
commit_direct_picks codecs clock chat_id batch_id db = elim (find_batch batch_id db) [
  | none ↦ (ok none, db)
  | some batch ↦
      if batch.chat_id == chat_id && is_picked batch.status
      then (ok (some (batch_reviews chat_id batch_id db)), db)
      else commit_active codecs clock chat_id batch_id batch db
]
