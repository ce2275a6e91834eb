-- ===== src/Conversation/History.antt =====
-- What the agent reads back.
use mathlib.Core.List.{reverse, reverse-cons, reverse-reverse}
use leetcode_coach_service.Base.{
  ℕ, ◌+◌, ◌<◌, ◌≤◌, max, true, none, List, [], ◌∷◌, ◌++◌, append_assoc, append-nil, ℤ, int_eq,
  nat_eq, beq_refl, ltb, lt→ltb, select-snoc, map, All, ◌≡◌, refl, ap, sym, ◌∙◌, subst, arith, ⊤,
}
use leetcode_coach_service.Text.{Text}
use leetcode_coach_service.Model.{ConversationItem}
use leetcode_coach_service.Store.{Table, insert}
use leetcode_coach_service.Adapter.{order_by, insert_by}
use leetcode_coach_service.Conversation.{
  is_of, rows_of, is_later, last_sequence, get_items, new_item, add_from, add_items,
}

-- Rows in increasing order of their sequence numbers.
abbrev pub IsAscending : List ConversationItem → Type 0
IsAscending [] = ⊤
IsAscending (row ∷ rows) =
    All (λ (r : ConversationItem). ltb row.sequence r.sequence ≡ true) rows × IsAscending rows

-- A row that none comes behind goes to the end.
insert_earliest :
    (a : ConversationItem) (rows : List ConversationItem)
    → All (λ (r : ConversationItem). ltb a.sequence r.sequence ≡ true) rows
    → insert_by is_later a rows ≡ rows ++ a ∷ []
unfolding insert_by
insert_earliest a [] h = refl
insert_earliest a (b ∷ bs) h = rw (h.0, insert_earliest a bs h.1)

All-snoc :
    {A : Type 0} (P : A → Type 0) (xs : List A) (a : A) → All P xs → P a → All P (xs ++ a ∷ [])
All-snoc P [] a h p = (p, tt)
All-snoc P (x ∷ xs) a h p = (h.0, All-snoc P xs a h.1 p)

All-reverse : {A : Type 0} (P : A → Type 0) (xs : List A) → All P xs → All P (reverse xs)
All-reverse P [] h = tt
All-reverse P (x ∷ xs) h =
    subst (All P) (sym (reverse-cons x xs)) (All-snoc P (reverse xs) x (All-reverse P xs h.1) h.0)

order_by-IsAscending :
    (rows : List ConversationItem) → IsAscending rows → order_by is_later rows ≡ reverse rows
unfolding order_by
order_by-IsAscending [] h = refl
order_by-IsAscending (row ∷ rows) h =
    ap (insert_by is_later row) (order_by-IsAscending rows h.1)
    ∙ insert_earliest row (reverse rows)
        (All-reverse (λ (r : ConversationItem). ltb row.sequence r.sequence ≡ true) rows h.0)
    ∙ sym (reverse-cons row rows)

-- The rows of a chat, none of them behind a sequence number.
abbrev pub IsWithin : ℕ → List ConversationItem → Type 0
IsWithin n = All (λ (r : ConversationItem). r.sequence ≤ n)

IsWithin-weaken :
    (m n : ℕ) (rows : List ConversationItem) → m ≤ n → IsWithin m rows → IsWithin n rows
IsWithin-weaken m n [] le h = tt
IsWithin-weaken m n (row ∷ rows) le h = (omega (arith, le, h.0), IsWithin-weaken m n rows le h.1)

IsWithin-last_sequence : (rows : List ConversationItem) → IsWithin (last_sequence rows) rows
IsWithin-last_sequence [] = tt
IsWithin-last_sequence (row ∷ rows) = (
  omega arith,
  IsWithin-weaken (last_sequence rows) (max row.sequence (last_sequence rows)) rows (omega arith)
      (IsWithin-last_sequence rows),
)

IsAscending-snoc :
    (n : ℕ) (rows : List ConversationItem) (a : ConversationItem)
    → IsWithin n rows
    → n < a.sequence
    → IsAscending rows
    → IsAscending (rows ++ a ∷ [])
IsAscending-snoc n [] a within later h = (tt, tt)
IsAscending-snoc n (row ∷ rows) a within later h = (
  All-snoc (λ (r : ConversationItem). ltb row.sequence r.sequence ≡ true) rows a h.0
      (lt→ltb row.sequence a.sequence (omega (arith, within.0, later))),
  IsAscending-snoc n rows a within.1 later h.1,
)

module _ {Item : Type 0} (dumps : Item → Text) (loads : Text → Item) (role_of : Item → Text) where
  abbrev contents : List ConversationItem → List Item
  contents = map (λ (row : ConversationItem). loads row.content)

  contents-snoc :
      (rows : List ConversationItem) (a : ConversationItem)
      → contents (rows ++ a ∷ []) ≡ contents rows ++ loads a.content ∷ []
  contents-snoc [] a = refl
  contents-snoc (row ∷ rows) a = ap (λ r. loads row.content ∷ r) (contents-snoc rows a)

  get_items_all :
      (chat_id : ℤ) (t : Table ConversationItem)
      → IsAscending (rows_of chat_id t)
      → get_items dumps loads role_of chat_id none t ≡ contents (rows_of chat_id t)
  unfolding get_items
  get_items_all chat_id t h =
      ap (λ rs. contents (reverse rs)) (order_by-IsAscending (rows_of chat_id t) h)
      ∙ ap contents (reverse-reverse (rows_of chat_id t))

  rows_of-insert :
      (now : ℕ) (chat_id : ℤ) (n : ℕ) (item : Item) (t : Table ConversationItem)
      → rows_of chat_id (insert (new_item dumps loads role_of now chat_id n item) t)
        ≡ rows_of chat_id t ++ new_item dumps loads role_of now chat_id n item t.next_id ∷ []
  unfolding rows_of
  rows_of-insert now chat_id n item t = ground (
    arith,
    select-snoc (is_of chat_id) t.rows (new_item dumps loads role_of now chat_id n item t.next_id),
    beq_refl chat_id,
  )

  add_from_lem :
      (now : ℕ) (chat_id : ℤ) (current : ℕ) (items : List Item) (t : Table ConversationItem)
      → ((item : Item) → loads (dumps item) ≡ item)
      → IsWithin current (rows_of chat_id t)
      → IsAscending (rows_of chat_id t)
      → let t' = add_from dumps loads role_of now chat_id current items t in
        (contents (rows_of chat_id t') ≡ contents (rows_of chat_id t) ++ items)
        × IsAscending (rows_of chat_id t')
  unfolding add_from
  add_from_lem now chat_id current [] t back within h = (sym (append-nil _), h)
  add_from_lem now chat_id current (item ∷ items) t back within h =
      let row = new_item dumps loads role_of now chat_id (current + 1) item t.next_id in
      let t₁ = insert (new_item dumps loads role_of now chat_id (current + 1) item) t in
      let same = rows_of-insert now chat_id (current + 1) item t in
      let within₁ : IsWithin (current + 1) (rows_of chat_id t₁) =
        subst (IsWithin (current + 1)) (sym same) (
          All-snoc (λ (r : ConversationItem). r.sequence ≤ current + 1) (rows_of chat_id t) row
            (IsWithin-weaken current (current + 1) (rows_of chat_id t) (omega arith) within)
            (omega arith)) in
      let ascending₁ : IsAscending (rows_of chat_id t₁) =
        subst IsAscending (sym same)
          (IsAscending-snoc current (rows_of chat_id t) row within (omega arith) h) in
      let (read, kept) = add_from_lem now chat_id (current + 1) items t₁ back within₁ ascending₁ in
      (
        read
            ∙ ap (λ rs. contents rs ++ items) same
            ∙ ap (λ cs. cs ++ items) (contents-snoc (rows_of chat_id t) row)
            ∙ append_assoc (contents (rows_of chat_id t)) (loads row.content ∷ []) items
            ∙ ap (λ (i : Item). contents (rows_of chat_id t) ++ i ∷ items) (back item),
        kept,
      )

  -- Items that are added are read back behind what was read before, and the rows of the chat stay
  -- in order, if they were in order and a JSON item survives printing and parsing.
  pub add_items-get_items :
      (now : ℕ) (chat_id : ℤ) (items : List Item) (t : Table ConversationItem)
      → ((item : Item) → loads (dumps item) ≡ item)
      → IsAscending (rows_of chat_id t)
      → let t' = add_items dumps loads role_of now chat_id items t in
        (get_items dumps loads role_of chat_id none t'
          ≡ get_items dumps loads role_of chat_id none t ++ items)
        × IsAscending (rows_of chat_id t')
  unfolding add_items
  add_items-get_items now chat_id items t back h =
      let (read, kept) =
        add_from_lem now chat_id (last_sequence (rows_of chat_id t)) items t back
          (IsWithin-last_sequence (rows_of chat_id t)) h in
      (
        get_items_all chat_id (add_items dumps loads role_of now chat_id items t) kept
            ∙ read
            ∙ ap (λ cs. cs ++ items) (sym (get_items_all chat_id t h)),
        kept,
      )
