-- ===== src/Application/Replay.antt =====
-- A press of a pick button that is delivered twice.
use mathlib.Core.Path.{subst₂}
use leetcode_coach_service.Base.{
  ℕ, true, Option, none, some, List, [], ◌∷◌, ◌≡◌, refl, ap, sym, ◌∙◌, ℤ, arith, Option-cases, inl,
  inr, length,
}
use leetcode_coach_service.Text.{Text}
use leetcode_coach_service.Calendar.{Clock}
use leetcode_coach_service.Model.{ProposalBatch, BotState, is_available}
use leetcode_coach_service.Store.{Db, ok}
use leetcode_coach_service.Store.Bind.{returned_eq}
use leetcode_coach_service.BotStates.{find_state, set_bot_state}
use leetcode_coach_service.BotStates.Setting.{
  SameButStates, SameButStates-trans, set_bot_state_rest, set_bot_state_returns,
}
use leetcode_coach_service.Jobs.Nudge.{set_bot_state_found}
use leetcode_coach_service.Proposals.{find_batch}
use leetcode_coach_service.Application.{
  Codec, Codecs, Choice, find_candidate, is_live, pick_key, delete_state,
}
use leetcode_coach_service.Application.Picking.{
  toggled, chosen_slugs, save_choice, press, press_once, choose,
}

pub delete_state_rest : (o : Option BotState) (db : Db) → SameButStates db (delete_state o db)
delete_state_rest none db = refl
delete_state_rest (some s) db = refl

save_choice_rest :
    (codec : Codec (List Text)) (clock : Clock) (chat_id : ℤ) (key : Text) (slugs : List Text)
    (db : Db)
    → (save_choice codec clock chat_id key slugs db
        ≡ (ok tt, (save_choice codec clock chat_id key slugs db).1))
      × SameButStates db (save_choice codec clock chat_id key slugs db).1
unfolding save_choice
save_choice_rest codec clock chat_id key [] db =
    (refl, delete_state_rest (find_state chat_id key db) db)
save_choice_rest codec clock chat_id key (s ∷ slugs) db =
    let value = codec.dump (s ∷ slugs) in
    let (row, run) = set_bot_state_returns clock chat_id key value db in
    let rest = set_bot_state_rest clock chat_id key value db in rw run (refl, rest)

-- A fresh press returns its choice, remembers it under its key and leaves the other tables alone.
press_found :
    (codecs : Codecs) (clock : Clock) (chat_id : ℤ) (batch_id : ℕ) (key slug : Text) (db : Db)
    → (choice : Choice) × (s : BotState) × (db' : Db) × (press codecs clock chat_id batch_id key
          slug db
        ≡ (ok (some choice), db'))
      × (find_state chat_id key db' ≡ some s)
      × (s.value ≡ codecs.choice.dump choice)
      × SameButStates db db'
unfolding press
press_found codecs clock chat_id batch_id key slug db =
    let chosen = chosen_slugs codecs.slugs (find_state chat_id (pick_key batch_id) db) in
    let (action, after) = toggled slug chosen in
    let choice : Choice = record { action = action; slug = slug; count = length after } in
    let (saved, rest) = save_choice_rest codecs.slugs clock chat_id (pick_key batch_id) after db in
    let mid = (save_choice codecs.slugs clock chat_id (pick_key batch_id) after db).1 in
    let value = codecs.choice.dump choice in
    let (row, run) = set_bot_state_returns clock chat_id key value mid in
    let (s, found, held) = set_bot_state_found clock chat_id key value mid in
    let same = set_bot_state_rest clock chat_id key value mid in
    (
      choice,
      s,
      (set_bot_state clock chat_id key value mid).1,
      rw (saved, run) refl,
      found,
      held,
      SameButStates-trans db mid (set_bot_state clock chat_id key value mid).1 rest same,
    )

-- A pick that went through, pressed again with the same callback while the proposal is active,
-- gives the same choice and writes nothing: a redelivered press does not turn the selection back.
pub choose_again :
    (codecs : Codecs) (clock clock' : Clock) (chat_id : ℤ) (batch_id position : ℕ) (key : Text)
    (choice : Choice) (db db' : Db)
    → choose codecs clock chat_id batch_id position key db ≡ (ok (some choice), db')
    → ((b : ProposalBatch) → find_batch batch_id db ≡ some b → is_live clock' chat_id b ≡ true)
    → choose codecs clock' chat_id batch_id position key db' ≡ (ok (some choice), db')
unfolding choose press_once
choose_again codecs clock clock' chat_id batch_id position key choice db db' run active =
    elim (Option-cases (find_batch batch_id db)) [
      | inl missing ↦ absurd (ground (arith, missing))
      | inr (b, found) ↦ elim (Option-cases (find_candidate batch_id position db)) [
        | inl missing ↦ absurd (ground (arith, found, missing))
        | inr (c, there) ↦ elim (Option-cases (find_state chat_id key db)) [
          | inl fresh ↦
              let (choice', s, after, pressed, kept, value, rest) =
                press_found codecs clock chat_id batch_id key c.problem_slug db in
              let batch_kept = ap (find_batch batch_id) rest ∙ found in
              let candidate_kept = ap (find_candidate batch_id position) rest ∙ there in
              let loaded = ap codecs.choice.load value ∙ codecs.choice.load-dump choice' in
              let free : is_available c.status ≡ true =
                ground (arith, found, there, fresh, pressed) in
              let live : is_live clock chat_id b ≡ true = ground (arith, found, there) in
              let (one, two) =
                returned_eq {b = some choice'} {db' = after}
                  (sym run ∙ rw (found, live, there, free, fresh, choose, press_once) pressed) in
              subst₂
                (λ (o : Option Choice) (d : Db).
                  choose codecs clock' chat_id batch_id position key d ≡ (ok o, d))
                (sym one) (sym two)
                (rw
                  (
                    batch_kept,
                    active b found,
                    candidate_kept,
                    free,
                    kept,
                    loaded,
                    choose,
                    press_once,
                  )
                  refl)
          | inr (s, seen) ↦ ground (arith, found, there, seen, active b found)
        ]
      ]
    ]
