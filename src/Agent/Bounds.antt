-- ===== src/Agent/Bounds.antt =====
-- What `_bounded` of src/leetcode_coach/agent/orchestrator.py guarantees.
use leetcode_coach_service.Base.{
  ℕ, zero, suc, ◌≤◌, List, [], ◌∷◌, take, length, length-take-le, ◌≡◌, refl, ap,
}
use leetcode_coach_service.Agent.{
  Value, text, items, fields, scalar, other, Values, none_left, item, Fields, no_field, field,
  max_items, max_text, bounded, bounded_items, bounded_fields,
}

-- Every list and dictionary has at most thirty entries and every text at most 4000 characters, at
-- any depth; the keys of dictionaries may be of any length.
unfoldable mutual
  pub Small : Value → Type 0
  Small (text t) = length t ≤ max_text
  Small (items vs) = SmallItems max_items vs
  Small (fields fs) = SmallFields max_items fs
  Small (scalar t) = Unit
  Small (other t) = ⊥

  pub SmallItems : ℕ → Values → Type 0
  SmallItems n none_left = Unit
  SmallItems zero (item v vs) = ⊥
  SmallItems (suc n) (item v vs) = Small v × SmallItems n vs

  pub SmallFields : ℕ → Fields → Type 0
  SmallFields n no_field = Unit
  SmallFields zero (field key v fs) = ⊥
  SmallFields (suc n) (field key v fs) = Small v × SmallFields n fs

take_again : {A : Type 0} (n : ℕ) (xs : List A) → take n (take n xs) ≡ take n xs
take_again zero xs = refl
take_again (suc n) [] = refl
take_again (suc n) (x ∷ xs) = ap (λ ys. x ∷ ys) (take_again n xs)

mutual
  unfolding bounded Small

  small : (v : Value) → Small (bounded v)
  small (text t) = length-take-le max_text t
  small (items vs) = small_items max_items vs
  small (fields fs) = small_fields max_items fs
  small (scalar t) = tt
  small (other t) = length-take-le max_text t

  small_items : (n : ℕ) (vs : Values) → SmallItems n (bounded_items n vs)
  small_items zero vs = tt
  small_items (suc n) none_left = tt
  small_items (suc n) (item v vs) = (small v, small_items n vs)

  small_fields : (n : ℕ) (fs : Fields) → SmallFields n (bounded_fields n fs)
  small_fields zero fs = tt
  small_fields (suc n) no_field = tt
  small_fields (suc n) (field key v fs) = (small v, small_fields n fs)

mutual
  unfolding bounded

  again : (v : Value) → bounded (bounded v) ≡ bounded v
  again (text t) = ap text (take_again max_text t)
  again (items vs) = ap items (items_again max_items vs)
  again (fields fs) = ap fields (fields_again max_items fs)
  again (scalar t) = refl
  again (other t) = ap text (take_again max_text t)

  items_again : (n : ℕ) (vs : Values) → bounded_items n (bounded_items n vs) ≡ bounded_items n vs
  items_again zero vs = refl
  items_again (suc n) none_left = refl
  items_again (suc n) (item v vs) = λ i. item (again v i) (items_again n vs i)

  fields_again :
      (n : ℕ) (fs : Fields) → bounded_fields n (bounded_fields n fs) ≡ bounded_fields n fs
  fields_again zero fs = refl
  fields_again (suc n) no_field = refl
  fields_again (suc n) (field key v fs) = λ i. field key (again v i) (fields_again n fs i)
