-- ===== src/Proposals/Opening.antt =====
-- For which problems `commit_picks` opens reviews: the requested ones, each once.
use leetcode_coach_service.Base.{
  ℕ, suc, ◌≤◌, Bool, true, false, none, List, [], ◌∷◌, ◌++◌, ◌&&◌, ◌||◌, if◌then◌else◌, ◌==◌, ◌≡◌,
  refl, ap, sym, subst, ◌∙◌, arith, Bool-cases, ◌⊎◌, ◌↔◌, inl, inr, length, select, first, map, All,
  Any, ℤ, nat_eq,
}
use leetcode_coach_service.Text.{Text, text_eq, text_beq, text_beq_iff}
use leetcode_coach_service.Calendar.{Clock}
use leetcode_coach_service.Model.{ProposalBatch, ProposalCandidate, PendingReview}
use leetcode_coach_service.Store.{Db, ok}
use leetcode_coach_service.Store.Rows.{Unique}
use leetcode_coach_service.Proposals.{
  contains, insert_by_position, sort_by_position, select_candidates, take_picks, commit_picks,
  is_pick,
}
use leetcode_coach_service.Proposals.Picks.{IsFrom, commit_picks_rows, commit_picks_inv}

contains_iff : (xs : List Text) (s : Text) → contains xs s ≡ true ↔ Any (λ t. t ≡ s) xs
contains_iff [] s = ground arith
contains_iff (x ∷ xs) s = ground (arith, text_beq_iff x s, contains_iff xs s)

-- The list without the first of a text.
abbrev without : Text → List Text → List Text
without x [] = []
without x (y ∷ ys) = let rest = without x ys in if y == x then ys else y ∷ rest

length-without :
    (x : Text) (ys : List Text) → contains ys x ≡ true → length ys ≡ suc (length (without x ys))
length-without x [] h = absurd (ground (arith, h))
length-without x (y ∷ ys) h = ground (arith, length-without x ys)

contains-without :
    (x z : Text) (ys : List Text)
    → contains ys z ≡ true
    → (x ≡ z) ⊎ (contains (without x ys) z ≡ true)
contains-without x z [] h = absurd (ground (arith, h))
contains-without x z (y ∷ ys) h =
    ground (arith, contains-without x z ys, text_beq_iff y x, text_beq_iff y z)

contains-of_without :
    (x z : Text) (ys : List Text) → contains (without x ys) z ≡ true → contains ys z ≡ true
contains-of_without x z [] h = h
contains-of_without x z (y ∷ ys) h = ground (arith, contains-of_without x z ys)

abbrev review_slugs : List PendingReview → List Text
review_slugs = map (λ (r : PendingReview). r.problem_slug)

self_beq : (s : Text) → text_beq s s ≡ true
self_beq s = (text_beq_iff s s).1 refl

each_in :
    (slugs : List Text) (rs : List PendingReview)
    → ((s : Text) → contains (review_slugs rs) s ≡ true → contains slugs s ≡ true)
    → All (λ r. Any (λ s. s ≡ r.problem_slug) slugs) rs
each_in slugs [] inside = tt
each_in slugs (r ∷ rs) inside = (
  (contains_iff slugs r.problem_slug).0
      (inside r.problem_slug (ground (arith, self_beq r.problem_slug))),
  each_in slugs rs (λ s h. inside s (ground (arith, h))),
)

review_of :
    (s : Text) (rs : List PendingReview)
    → contains (review_slugs rs) s ≡ true
    → Any (λ r. r.problem_slug ≡ s) rs
review_of s [] h = absurd (ground (arith, h))
review_of s (r ∷ rs) h = elim (Bool-cases (r.problem_slug == s)) [
  | inl same ↦ inl ((text_beq_iff r.problem_slug s).0 same)
  | inr other ↦ inr (review_of s rs (ground (arith, h, other)))
]

each_has :
    (slugs : List Text) (rs : List PendingReview)
    → ((s : Text) → contains slugs s ≡ true → contains (review_slugs rs) s ≡ true)
    → All (λ s. Any (λ r. r.problem_slug ≡ s) rs) slugs
each_has [] rs inside = tt
each_has (t ∷ slugs) rs inside = (
  review_of t rs (inside t (ground (arith, self_beq t))),
  each_has slugs rs (λ s h. inside s (ground (arith, h))),
)

abbrev slugs_of : List ProposalCandidate → List Text
slugs_of = map (λ (c : ProposalCandidate). c.problem_slug)

unfound :
    {A : Type 0} (key : A → Text) (k : Text) (xs : List A)
    → first (λ x. key x == k) xs ≡ none
    → contains (map key xs) k ≡ false
unfound key k [] h = refl
unfound key k (x ∷ xs) h = ground (arith, unfound key k xs)

-- Different texts that all stand in a list which is not longer are all of that list.
contains_all :
    {A : Type 0} (key : A → Text) (xs : List A) (ys : List Text)
    → Unique key xs
    → ((z : Text) → contains (map key xs) z ≡ true → contains ys z ≡ true)
    → length ys ≤ length xs
    → (z : Text) → contains ys z ≡ true
    → contains (map key xs) z ≡ true
contains_all key [] [] u inside short z h = h
contains_all key [] (y ∷ ys) u inside short z h = absurd (omega (arith, short))
contains_all key (x ∷ xs) ys u inside short z h =
    let there : contains ys (key x) ≡ true =
      inside (key x) (ground (arith, (text_beq_iff (key x) (key x)).1 refl)) in
    let rest : (w : Text)
        → contains (map key xs) w ≡ true
        → contains (without (key x) ys) w ≡ true =
      λ w k. elim (contains-without (key x) w ys (inside w (ground (arith, k)))) [
        | inl same ↦ absurd (
            cc (
              unfound key (key x) xs u.0,
              subst (λ t. contains (map key xs) t ≡ true) (sym same) k,
            ))
        | inr more ↦ more
      ] in
    elim (contains-without (key x) z ys h) [
      | inl same ↦ ground (arith, (text_beq_iff (key x) z).1 same)
      | inr more ↦ ground (
        arith,
        contains_all key xs (without (key x) ys) u.1 rest
            (omega (arith, short, length-without (key x) ys there)) z more,
      )
    ]

contains-insert_by_position :
    (c : ProposalCandidate) (cs : List ProposalCandidate) (s : Text)
    → contains (slugs_of (insert_by_position c cs)) s
      ≡ (c.problem_slug == s || contains (slugs_of cs) s)
unfolding insert_by_position
contains-insert_by_position c [] s = refl
contains-insert_by_position c (d ∷ ds) s = ground (arith, contains-insert_by_position c ds s)

contains-sort_by_position :
    (cs : List ProposalCandidate) (s : Text)
    → contains (slugs_of (sort_by_position cs)) s ≡ contains (slugs_of cs) s
unfolding sort_by_position
contains-sort_by_position [] s = refl
contains-sort_by_position (c ∷ cs) s =
    contains-insert_by_position c (sort_by_position cs) s
    ∙ ap (λ b. c.problem_slug == s || b) (contains-sort_by_position cs s)

select_candidates_slugs :
    (clock : Clock) (chat_id : ℤ) (batch : ProposalBatch) (cs : List ProposalCandidate) (db : Db)
    → review_slugs (select_candidates clock chat_id batch cs db).0 ≡ slugs_of cs
unfolding select_candidates
select_candidates_slugs clock chat_id batch [] db = refl
select_candidates_slugs clock chat_id batch (c ∷ cs) db =
    ap (λ r. c.problem_slug ∷ r) (select_candidates_slugs clock chat_id batch cs _)

-- The candidates that are picked are of the requested slugs.
picks_requested :
    (batch_id : ℕ) (slugs : List Text) (cs : List ProposalCandidate) (s : Text)
    → contains (slugs_of (select (is_pick batch_id slugs) cs)) s ≡ true
    → contains slugs s ≡ true
picks_requested batch_id slugs [] s h = absurd (ground (arith, h))
picks_requested batch_id slugs (c ∷ cs) s h = elim (Bool-cases (is_pick batch_id slugs c)) [
  | inl pick ↦ elim (Bool-cases (c.problem_slug == s)) [
    | inl same ↦
        subst (λ t. contains slugs t ≡ true) ((text_beq_iff c.problem_slug s).0 same)
          (ground (arith, pick))
    | inr other ↦ picks_requested batch_id slugs cs s (ground (arith, h, other, pick))
  ]
  | inr kept ↦ picks_requested batch_id slugs cs s (ground (arith, h, kept))
]

first-select :
    {A : Type 0} (t p q : A → Bool) (xs : List A)
    → first t (select p xs) ≡ none
    → first t (select (λ a. p a && q a) xs) ≡ none
first-select t p q [] h = refl
first-select t p q (x ∷ xs) h = ground (arith, first-select t p q xs)

-- Rows that a narrower test chooses stay different.
select-Unique :
    {A : Type 0} (key : A → Text) (p q : A → Bool) (xs : List A)
    → Unique key (select p xs)
    → Unique key (select (λ a. p a && q a) xs)
select-Unique key p q [] u = tt
select-Unique key p q (x ∷ xs) u =
    let Different = λ (rows : List _). Unique key rows in
    elim (Bool-cases (p x)) [
      | inr missed ↦
          let all_kept : select p (x ∷ xs) ≡ select p xs = ground (arith, missed) in
          let kept : select (λ a. p a && q a) xs ≡ select (λ a. p a && q a) (x ∷ xs) =
            ground (arith, missed) in
          subst Different kept (select-Unique key p q xs (subst Different all_kept u))
      | inl hit ↦
          let all_kept : select p (x ∷ xs) ≡ x ∷ select p xs = ground (arith, hit) in
          let (fresh, rest) = subst Different all_kept u in
          let later = select-Unique key p q xs rest in
          elim (Bool-cases (q x)) [
            | inr missed ↦
                let kept : select (λ a. p a && q a) xs ≡ select (λ a. p a && q a) (x ∷ xs) =
                  ground (arith, missed) in
                subst Different kept later
            | inl both ↦
                let kept : x ∷ select (λ a. p a && q a) xs ≡ select (λ a. p a && q a) (x ∷ xs) =
                  ground (arith, hit, both) in
                subst Different kept (first-select (λ r. key r == key x) p q xs fresh, later)
          ]
    ]

-- A pick that goes through opens one review for each requested slug and none for another, behind
-- the reviews that were there; each is open, belongs to the chat and comes from the batch. The
-- batch may hold no two candidates of one problem, as the table's unique constraint says.
pub commit_picks_reviews :
    (clock : Clock) (chat_id : ℤ) (batch_id : ℕ) (slugs : List Text) (reviews : List PendingReview)
    (db db' : Db)
    → Unique
        (λ (c : ProposalCandidate). c.problem_slug)
        (select (λ c. c.batch_id == batch_id) db.candidates.rows)
    → commit_picks clock chat_id batch_id slugs db ≡ (ok reviews, db')
    → (db'.reviews.rows ≡ db.reviews.rows ++ reviews)
      × (length reviews ≡ length slugs)
      × All (λ r. Any (λ s. s ≡ r.problem_slug) slugs) reviews
      × All (λ s. Any (λ r. r.problem_slug ≡ s) reviews) slugs
      × All (IsFrom chat_id batch_id) reviews
unfolding take_picks
commit_picks_reviews clock chat_id batch_id slugs reviews db db' distinct run =
    let (batch, candidates, _, _, chosen, count, given, _) =
      commit_picks_inv clock chat_id batch_id slugs reviews db db' run in
    let (rows, number, every) = commit_picks_rows clock chat_id batch_id slugs reviews db db' run in
    let opened : review_slugs reviews ≡ slugs_of (sort_by_position candidates) =
      ap review_slugs (sym given)
      ∙ select_candidates_slugs clock chat_id batch (sort_by_position candidates) db in
    let same : (s : Text) → contains (review_slugs reviews) s ≡ contains (slugs_of candidates) s =
      λ s. ap (λ ss. contains ss s) opened ∙ contains-sort_by_position candidates s in
    let requested : (s : Text) → contains (slugs_of candidates) s ≡ true → contains slugs s ≡ true =
      λ s h.
        picks_requested batch_id slugs db.candidates.rows s
          (subst (λ cs. contains (slugs_of cs) s ≡ true) chosen h) in
    let different : Unique (λ (c : ProposalCandidate). c.problem_slug) candidates =
      subst (Unique (λ (c : ProposalCandidate). c.problem_slug)) (sym chosen) (
        select-Unique (λ (c : ProposalCandidate). c.problem_slug) (λ c. c.batch_id == batch_id)
          (λ c. contains slugs c.problem_slug) db.candidates.rows distinct) in
    let wanted : (s : Text) → contains slugs s ≡ true → contains (slugs_of candidates) s ≡ true =
      contains_all (λ (c : ProposalCandidate). c.problem_slug) candidates slugs different requested
        (omega (arith, count)) in
    (
      rows,
      number,
      each_in slugs reviews (λ s h. requested s (sym (same s) ∙ h)),
      each_has slugs reviews (λ s h. same s ∙ wanted s h),
      every,
    )
