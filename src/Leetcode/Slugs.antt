-- ===== src/Leetcode/Slugs.antt =====
-- The form of a slug, src/leetcode_coach/integrations/leetcode.py.
use leetcode_coach_service.Base.{
  ℕ, true, false, List, [], ◌∷◌, ◌++◌, ◌≡◌, ◌↔◌, refl, ap, sym, ◌∙◌, arith, all, All, Bool-cases,
  inl, inr, append-nil,
}
use leetcode_coach_service.Text.{Text, codes, is_empty}
use leetcode_coach_service.Text.Strip.{join}
use leetcode_coach_service.Leetcode.{is_slug_char, in_slug, is_slug}

-- A word of small letters and digits.
abbrev pub IsWord : Text → Type 0
IsWord w = (is_empty w ≡ false) × (all is_slug_char w ≡ true)

-- Words, at least one, with a dash between two of them.
abbrev pub IsDashed : Text → Type 0
IsDashed s = (w : Text) × (ws : List Text) × (s ≡ join (codes "-") (w ∷ ws)) × All IsWord (w ∷ ws)

-- A rest of a word in front of the dash of the next one.
abbrev Rest : Text → Type 0
Rest s =
    (w : Text) × (ws : List Text) × (s ≡ join (codes "-") (w ∷ ws))
    × (all is_slug_char w ≡ true)
    × All IsWord ws

join-extend :
    (c : ℕ) (w : Text) (ws : List Text)
    → join (codes "-") ((c ∷ w) ∷ ws) ≡ c ∷ join (codes "-") (w ∷ ws)
unfolding join
join-extend c w [] = refl
join-extend c w (v ∷ ws) = refl

slug_sound : (s : Text) → (in_slug false s ≡ true → IsDashed s) × (in_slug true s ≡ true → Rest s)
unfolding in_slug join
slug_sound [] = (λ h. absurd (cc h), λ h. ([], [], refl, refl, tt))
slug_sound (c ∷ s) =
    let (word, rest) = slug_sound s in
    elim (Bool-cases (is_slug_char c)) [
      | inl good ↦ (
        λ h.
            let (w, ws, split, letters, words) = rest (ground (arith, good, h)) in
            (
              c ∷ w,
              ws,
              ap (λ t. c ∷ t) split ∙ sym (join-extend c w ws),
              ((refl, ground (arith, good, letters)), words),
            ),
        λ h.
            let (w, ws, split, letters, words) = rest (ground (arith, good, h)) in
            (
              c ∷ w,
              ws,
              ap (λ t. c ∷ t) split ∙ sym (join-extend c w ws),
              ground (arith, good, letters),
              words,
            ),
      )
      | inr bad ↦ (
        λ h. absurd (ground (arith, bad, h)),
        λ h.
            let (w, ws, split, words) = word (ground (arith, bad, h)) in
            let dash : c ≡ 45 = ground (arith, bad, h) in
            (
              [],
              w ∷ ws,
              ap (λ t. c ∷ t) split ∙ ap (λ d. d ∷ join (codes "-") (w ∷ ws)) dash,
              refl,
              words,
            ),
      )
    ]

-- A word, and what may follow it.
in_word : (w s : Text) → all is_slug_char w ≡ true → in_slug true (w ++ s) ≡ in_slug true s
unfolding in_slug
in_word [] s h = refl
in_word (c ∷ w) s h = ground (arith, h, in_word w s)

enter_word : (w s : Text) → IsWord w → in_slug false (w ++ s) ≡ in_slug true s
unfolding in_slug
enter_word [] s (nonempty, letters) = absurd (cc nonempty)
enter_word (c ∷ w) s (nonempty, letters) = ground (arith, letters, in_word w s)

slug_complete :
    (w : Text) (ws : List Text)
    → All IsWord (w ∷ ws)
    → in_slug false (join (codes "-") (w ∷ ws)) ≡ true
unfolding in_slug join
slug_complete w [] (word, _) = ap (in_slug false) (sym (append-nil w)) ∙ enter_word w [] word
slug_complete w (v ∷ ws) (word, words) =
    enter_word w (45 ∷ join (codes "-") (v ∷ ws)) word ∙ slug_complete v ws words

-- What `exact_problem_slug` returns of a text is a slug: words of small letters and digits, with
-- one dash between two of them; and exactly such texts pass the test.
pub is_slug_iff : (s : Text) → (is_slug s ≡ true) ↔ IsDashed s
unfolding is_slug
is_slug_iff s =
    ((slug_sound s).0, λ (w, ws, split, words). ap (in_slug false) split ∙ slug_complete w ws words)
