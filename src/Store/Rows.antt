-- ===== src/Store/Rows.antt =====
-- Lemmas on the rows of a table: queries after an insert and after an update, unique keys.
use leetcode_coach_service.Base.{
  ◌≡◌, refl, Bool, true, none, some, List, [], ◌∷◌, ◌++◌, ⊤, if◌then◌else◌, arith, ◌==◌, Eq, first,
  update, any, is_some,
}

module _ {A : Type 0} where
  pub first-append :
      (p : A → Bool) (xs : List A) (e : A)
      → first p (xs ++ e ∷ [])
        ≡ elim (first p xs) [ some x ↦ some x | none ↦ if p e then some e else none ]
  first-append p [] e = refl
  first-append p (x ∷ xs) e = ground (arith, first-append p xs e)

  -- What a query finds passes its test.
  pub first-some : (p : A → Bool) (xs : List A) (a : A) → first p xs ≡ some a → p a ≡ true
  first-some p [] a h = cc
  first-some p (x ∷ xs) a h = ground (arith, first-some p xs a)

  pub first-append_found :
      (p : A → Bool) (xs ys : List A) (a : A) → first p xs ≡ some a → first p (xs ++ ys) ≡ some a
  first-append_found p [] ys a h = cc
  first-append_found p (x ∷ xs) ys a h = ground (arith, first-append_found p xs ys a)

  -- A query after an update that keeps what the query tests.
  pub first-update :
      (p q : A → Bool) (f : A → A) (xs : List A)
      → ((a : A) → p (f a) ≡ p a)
      → first p (update q f xs)
        ≡ elim (first p xs) [ none ↦ none | some a ↦ some (if q a then f a else a) ]
  first-update p q f [] keep = refl
  first-update p q f (x ∷ xs) keep = ground (arith, keep x, first-update p q f xs keep)

  pub first-update_missing :
      (p q : A → Bool) (f : A → A) (xs : List A)
      → ((a : A) → p (f a) ≡ p a)
      → first p xs ≡ none
      → first p (update q f xs) ≡ none
  first-update_missing p q f xs keep h = rw (first-update p q f xs keep, h)

  pub any-first : (p : A → Bool) (xs : List A) → any p xs ≡ is_some (first p xs)
  any-first p [] = refl
  any-first p (x ∷ xs) = ground (arith, any-first p xs)

-- No two rows share a key.
module _ {A K : Type 0} ⦃e : Eq K⦄ (key : A → K) where
  abbrev pub Unique : List A → Type 0
  Unique [] = ⊤
  Unique (x ∷ xs) = (first (λ r. key r == key x) xs ≡ none) × Unique xs

  pub Unique-snoc :
      (xs : List A) (a : A)
      → Unique xs
      → first (λ r. key r == key a) xs ≡ none
      → Unique (xs ++ a ∷ [])
  Unique-snoc [] a u n = (refl, tt)
  Unique-snoc (x ∷ xs) a u n = ground (
    arith,
    first-append (λ r. key r == key x) xs a,
    e.beq_iff (key a) (key x),
    e.beq_iff (key x) (key a),
    Unique-snoc xs a u.1,
  )

  -- An update that leaves the keys alone leaves them unique.
  pub Unique-update :
      (q : A → Bool) (f : A → A) (xs : List A)
      → ((a : A) → key (f a) ≡ key a)
      → Unique xs
      → Unique (update q f xs)
  Unique-update q f [] keep u = tt
  Unique-update q f (x ∷ xs) keep u = ground (
    arith,
    keep x,
    first-update_missing (λ r. key r == key x) q f xs (λ a. rw (keep a)),
    Unique-update q f xs keep,
  )
