-- ===== src/Adapter/Republish.antt =====
-- A practice set that is published twice.
use leetcode_coach_service.Base.{
  ℕ, true, false, Option, none, some, List, ◌≡◌, ap, sym, ◌∙◌, ℤ, arith, is_some, Option-cases, inl,
  inr, length, nat_beq, ltb,
}
use leetcode_coach_service.Text.{Text, show_nat}
use leetcode_coach_service.Text.Decimal.{read_nat}
use leetcode_coach_service.Calendar.{Clock}
use leetcode_coach_service.Model.{BotState}
use leetcode_coach_service.Store.{Db, Result, ok, write, raise_if, value_error}
use leetcode_coach_service.Store.Bind.{bind_returned, returned_eq}
use leetcode_coach_service.BotStates.{find_state, set_bot_state}
use leetcode_coach_service.Jobs.Nudge.{set_bot_state_found}
use leetcode_coach_service.Proposals.{ProposalSelection, HydratedCandidate, create_proposal}
use leetcode_coach_service.Leetcode.{Url}
use leetcode_coach_service.Application.Numbers.{read_nat-show_nat}
use leetcode_coach_service.Adapter.Receipts.{write_inv}
use leetcode_coach_service.Adapter.Practice.{
  RawSelection, Practice, parse_selections, ensure_selections, publish_key, publish_new,
  publish_once, publish_practice_set,
}

-- A set that was published, now or before, has its batch under the key.
abbrev Remembers : ℤ → Text → ℕ → Db → Type 0
Remembers chat_id key batch_id db =
    (s : BotState) × (find_state chat_id key db ≡ some s) × (read_nat s.value ≡ some batch_id)

publish_new-Remembers :
    (clock : Clock) (chat_id : ℤ) (parsed : List ProposalSelection) (key : Text) (batch_id : ℕ)
    (preview : Option (List HydratedCandidate)) (db db' : Db)
    → publish_new clock chat_id parsed key db ≡ (ok (batch_id, preview), db')
    → Remembers chat_id key batch_id db'
unfolding publish_new
publish_new-Remembers clock chat_id parsed key batch_id preview db db' run =
    let (_, db₁, _, run₁) =
      bind_returned (raise_if (nat_beq (length parsed) 0) value_error) _ run in
    let (_, db₂, _, run₂) = bind_returned (ensure_selections clock parsed) _ run₁ in
    let ((batch, shown), db₃, _, run₃) =
      bind_returned (create_proposal clock chat_id parsed none) _ run₂ in
    let (row, db₄, set, done) =
      bind_returned (set_bot_state clock chat_id key (show_nat batch.id)) _ run₃ in
    let (given, same) = returned_eq done in
    let (s, found, value) = set_bot_state_found clock chat_id key (show_nat batch.id) db₃ in
    (
      s,
      ap (find_state chat_id key) (sym (ap (λ (r : Result BotState × Db). r.1) set ∙ same)) ∙ found,
      ap read_nat value ∙ read_nat-show_nat batch.id ∙ ap (λ (p : Practice). some p.0) given,
    )

publish_once-Remembers :
    (clock : Clock) (chat_id : ℤ) (parsed : List ProposalSelection) (key : Text) (batch_id : ℕ)
    (preview : Option (List HydratedCandidate)) (db db' : Db)
    → publish_once clock chat_id parsed key db ≡ (ok (batch_id, preview), db')
    → Remembers chat_id key batch_id db'
unfolding publish_once
publish_once-Remembers clock chat_id parsed key batch_id preview db db' run =
    elim (Option-cases (find_state chat_id key db)) [
      | inl new ↦
          publish_new-Remembers clock chat_id parsed key batch_id preview db db'
            (ground (arith, new))
      | inr (s, found) ↦ elim (Option-cases (read_nat s.value)) [
        | inl broken ↦ absurd (ground (arith, found, broken))
        | inr (n, read) ↦ (s, ground (arith, found, read), ground (arith, found, read))
      ]
    ]

publish_once_replayed :
    (clock : Clock) (chat_id : ℤ) (parsed : List ProposalSelection) (key : Text) (batch_id : ℕ)
    (db : Db)
    → Remembers chat_id key batch_id db
    → write (publish_once clock chat_id parsed key) db ≡ (ok (batch_id, none), db)
unfolding publish_once write
publish_once_replayed clock chat_id parsed key batch_id db (s, found, read) =
    ground (arith, found, read)

-- Publishing again under the same operation key, at whatever time and with whatever selections that
-- are at most twenty and name exact slugs, gives the batch of the first call as a replay and writes
-- nothing.
pub publish_practice_set_again :
    (sha256 : Text → Text) (urlparse : Text → Url) (clock clock' : Clock) (chat_id : ℤ)
    (selections selections' : List RawSelection) (operation_key : Text) (batch_id : ℕ)
    (preview : Option (List HydratedCandidate)) (db db' : Db)
    → publish_practice_set sha256 urlparse clock chat_id selections operation_key db
      ≡ (ok (batch_id, preview), db')
    → ltb 20 (length selections') ≡ false
    → is_some (parse_selections urlparse selections') ≡ true
    → publish_practice_set sha256 urlparse clock' chat_id selections' operation_key db'
      ≡ (ok (batch_id, none), db')
unfolding publish_practice_set
publish_practice_set_again sha256 urlparse clock clock' chat_id selections selections' operation_key
      batch_id preview db db' run few exact =
    let key = publish_key sha256 chat_id operation_key in
    elim (Option-cases (parse_selections urlparse selections)) [
      | inl bad ↦ absurd (ground (arith, bad))
      | inr (parsed, read) ↦ elim (Option-cases (parse_selections urlparse selections')) [
        | inl bad ↦ absurd (ground (arith, bad, exact))
        | inr (parsed', read') ↦
            let ran : write (publish_once clock chat_id parsed key) db
                ≡ (ok (batch_id, preview), db') =
              ground (arith, read) in
            let kept =
              publish_once-Remembers clock chat_id parsed key batch_id preview db db' (
                write_inv (publish_once clock chat_id parsed key) (batch_id, preview) db db' ran) in
            ground (
              arith,
              few,
              read',
              publish_once_replayed clock' chat_id parsed' key batch_id db' kept,
            )
      ]
    ]
