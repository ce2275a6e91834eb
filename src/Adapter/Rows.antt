-- ===== src/Adapter/Rows.antt =====
-- The rows of a query: sorted, chosen by a test and cut to a number, they are rows of the table.
use leetcode_coach_service.Base.{
  ℕ, zero, suc, Bool, true, List, [], ◌∷◌, select, take, length, All, All-map, Any, ◌≡◌, refl, ap,
  sym, subst, Bool-cases, ◌⊎◌, ◌↔◌, inl, inr,
}
use leetcode_coach_service.Adapter.{insert_by, order_by}

module _ {A : Type 0} (P : A → Type 0) (before : A → A → Bool) where
  All-insert_by : (a : A) (rows : List A) → P a → All P rows → All P (insert_by before a rows)
  unfolding insert_by
  All-insert_by a [] h hs = (h, tt)
  All-insert_by a (b ∷ bs) h hs = elim (Bool-cases (before b a)) [
    | inl later ↦ rw later (hs.0, All-insert_by a bs h hs.1)
    | inr sooner ↦ rw sooner (h, hs)
  ]

  pub All-order_by : (rows : List A) → All P rows → All P (order_by before rows)
  unfolding order_by
  All-order_by [] hs = tt
  All-order_by (a ∷ rows) hs = All-insert_by a (order_by before rows) hs.0 (All-order_by rows hs.1)

module _ {A : Type 0} (P : A → Type 0) (before : A → A → Bool) where
  Any-insert_by : (a : A) (rows : List A) → P a ⊎ Any P rows → Any P (insert_by before a rows)
  unfolding insert_by
  Any-insert_by a [] h = h
  Any-insert_by a (b ∷ bs) h = elim (Bool-cases (before b a)) [
    | inl later ↦ rw later (elim h [
      | inl here ↦ inr (Any-insert_by a bs (inl here))
      | inr (inl first) ↦ inl first
      | inr (inr more) ↦ inr (Any-insert_by a bs (inr more))
    ])
    | inr sooner ↦ rw sooner h
  ]

  pub Any-order_by : (rows : List A) → Any P rows → Any P (order_by before rows)
  unfolding order_by
  Any-order_by [] h = h
  Any-order_by (a ∷ rows) (inl h) = Any-insert_by a (order_by before rows) (inl h)
  Any-order_by (a ∷ rows) (inr h) =
      Any-insert_by a (order_by before rows) (inr (Any-order_by rows h))

-- A row of the list is among the first of them, or those are as many as asked for.
pub Any-take :
    {A : Type 0} (P : A → Type 0) (n : ℕ) (rows : List A)
    → Any P rows
    → Any P (take n rows) ⊎ (length (take n rows) ≡ n)
Any-take P zero rows h = inr refl
Any-take P (suc n) [] h = elim h [ ]
Any-take P (suc n) (a ∷ rows) (inl h) = inl (inl h)
Any-take P (suc n) (a ∷ rows) (inr h) = elim (Any-take P n rows h) [
  | inl more ↦ inl (inr more)
  | inr full ↦ inr (ap suc full)
]

pub All-take :
    {A : Type 0} (P : A → Type 0) (n : ℕ) (rows : List A) → All P rows → All P (take n rows)
All-take P zero rows hs = tt
All-take P (suc n) [] hs = tt
All-take P (suc n) (a ∷ rows) hs = (hs.0, All-take P n rows hs.1)

module _ {A : Type 0} (p : A → Bool) (P : A → Type 0) (iff : (a : A) → p a ≡ true ↔ P a) where
  -- The rows that a test chooses are rows of the list and have what the test stands for.
  pub All-select : (rows : List A) → All (λ a. P a × Any (λ b. b ≡ a) rows) (select p rows)
  All-select [] = tt
  All-select (a ∷ rows) =
      let later =
        All-map (λ a. P a × Any (λ b. b ≡ a) rows) (λ c. P c × Any (λ b. b ≡ c) (a ∷ rows))
          (λ c h. (h.0, inr h.1)) (select p rows) (All-select rows) in
      elim (Bool-cases (p a)) [
        | inl hit ↦ rw hit (((iff a).0 hit, inl refl), later)
        | inr missed ↦ rw missed later
      ]

  pub Any-select :
      (a : A) (rows : List A) → P a → Any (λ b. b ≡ a) rows → Any (λ b. b ≡ a) (select p rows)
  Any-select a [] is h = h
  Any-select a (c ∷ rows) is (inl same) =
      let hit : p c ≡ true = (iff c).1 (subst P (sym same) is) in rw hit (inl same)
  Any-select a (c ∷ rows) is (inr h) = elim (Bool-cases (p c)) [
    | inl hit ↦ rw hit (inr (Any-select a rows is h))
    | inr missed ↦ rw missed (Any-select a rows is h)
  ]
