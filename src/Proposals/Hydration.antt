-- ===== src/Proposals/Hydration.antt =====
-- What a hydrated proposal is: the selections in order, numbered from one, each a known problem.
use leetcode_coach_service.Base.{
  ℕ, ◌+◌, true, Option, some, List, [], ◌∷◌, ◌≡◌, refl, ap, map, arith, Option-cases, inl, inr, All,
}
use leetcode_coach_service.Text.{Text, text_eq, strip}
use leetcode_coach_service.Model.{Problem}
use leetcode_coach_service.Store.{Db, ok}
use leetcode_coach_service.Proposals.{
  ProposalSelection, HydratedCandidate, hydrated, hydrate_from, hydrate_proposal, lookup_problem,
  stripped_slugs, distinct,
}

-- `count_from i n` is i, i + 1, … of length n.
abbrev pub count_from : ℕ → List ProposalSelection → List ℕ
count_from i [] = []
count_from i (s ∷ rest) = i ∷ count_from (i + 1) rest

abbrev pub positions : List HydratedCandidate → List ℕ
positions = map (λ (c : HydratedCandidate). c.position)

abbrev pub slugs_of : List HydratedCandidate → List Text
slugs_of = map (λ (c : HydratedCandidate). c.slug)

-- Each candidate's reasoning and coaching hint.
abbrev pub notes_of : List HydratedCandidate → List (Text × Text)
notes_of = map (λ (c : HydratedCandidate). (c.reasoning, c.coaching_hint))

abbrev pub stripped_notes : List ProposalSelection → List (Text × Text)
stripped_notes = map (λ (s : ProposalSelection). (strip s.reasoning, strip s.coaching_hint))

-- The candidate shows the title, link, difficulty and tags of the problem row of its slug.
abbrev pub ShowsRow : List Problem → HydratedCandidate → Type 0
ShowsRow problems c =
    (p : Problem) × (lookup_problem c.slug problems ≡ some p)
    × (c.title ≡ p.title)
    × (c.url ≡ p.url)
    × (c.difficulty ≡ p.difficulty)
    × (c.tags ≡ p.tags)

hydrate_from_cons :
    (problems : List Problem) (i : ℕ) (s : ProposalSelection) (rest : List ProposalSelection)
    (cs : List HydratedCandidate)
    → hydrate_from problems i (s ∷ rest) ≡ some cs
    → (p : Problem) × (tail : List HydratedCandidate) × (lookup_problem (strip s.slug) problems
        ≡ some p)
      × (hydrate_from problems (i + 1) rest ≡ some tail)
      × (cs ≡ hydrated i s p ∷ tail)
unfolding hydrate_from
hydrate_from_cons problems i s rest cs h =
    elim (Option-cases (lookup_problem (strip s.slug) problems)) [
      | inl missing ↦ absurd (ground (arith, missing))
      | inr (p, found) ↦ elim (Option-cases (hydrate_from problems (i + 1) rest)) [
        | inl bad ↦ absurd (ground (arith, found, bad))
        | inr (tail, more) ↦ (p, tail, found, more, ground (arith, found, more))
      ]
    ]

pub hydrate_from_facts :
    (problems : List Problem) (i : ℕ) (selections : List ProposalSelection)
    (cs : List HydratedCandidate)
    → hydrate_from problems i selections ≡ some cs
    → (positions cs ≡ count_from i selections)
      × (slugs_of cs ≡ stripped_slugs selections)
      × (notes_of cs ≡ stripped_notes selections)
      × All (ShowsRow problems) cs
unfolding hydrate_from
hydrate_from_facts problems i [] cs h =
    let none_left : cs ≡ [] = cc in rw none_left (refl, refl, refl, tt)
hydrate_from_facts problems i (s ∷ rest) cs h =
    let (p, tail, found, more, same) = hydrate_from_cons problems i s rest cs h in
    let (ps, ss, ns, rows) = hydrate_from_facts problems (i + 1) rest tail more in
    rw same (
      ap (λ r. i ∷ r) ps,
      ap (λ r. strip s.slug ∷ r) ss,
      ap (λ r. (strip s.reasoning, strip s.coaching_hint) ∷ r) ns,
      ((p, found, refl, refl, refl, refl), rows),
    )

-- A preview that is returned numbers the selections from one in their order, has their stripped
-- slugs, which are distinct, and their stripped reasonings and hints, and shows for each the title,
-- link, difficulty and tags of its problem row; nothing is written.
pub hydrate_proposal_lem :
    (expected : Option ℕ) (selections : List ProposalSelection) (cs : List HydratedCandidate)
    (db db' : Db)
    → hydrate_proposal expected selections db ≡ (ok cs, db')
    → (positions cs ≡ count_from 1 selections)
      × (slugs_of cs ≡ stripped_slugs selections)
      × (notes_of cs ≡ stripped_notes selections)
      × (distinct (slugs_of cs) ≡ true)
      × All (ShowsRow db.problems) cs
      × (db' ≡ db)
unfolding hydrate_proposal
hydrate_proposal_lem expected selections cs db db' run =
    let found : hydrate_from db.problems 1 selections ≡ some cs = ground arith in
    let (ps, ss, ns, rows) = hydrate_from_facts db.problems 1 selections cs found in
    (ps, ss, ns, rw ss (ground arith), rows, ground arith)
