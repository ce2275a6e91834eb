-- ===== src/Rendering/Pages.antt =====
-- Pages of a proposal: what they hold and how long they are.
use leetcode_coach_service.Base.{
  ℕ, zero, suc, ◌+◌, Bool, true, false, Option, none, some, List, [], ◌∷◌, ◌++◌, ◌&&◌, nat_eq, ltb,
  length, length-append, not, All, ◌≡◌, refl, ap, sym, ◌∙◌, arith, Bool-cases, inl, inr, append-nil,
}
use leetcode_coach_service.Text.{Text}
use leetcode_coach_service.Rendering.{
  Card, Page, render_proposal_html, range, page_of, is_empty_list, add_page, paginate_from,
  paginate_proposal_html,
}

abbrev pub positions_of : List Page → List ℕ
positions_of [] = []
positions_of (page ∷ pages) = page.1 ++ positions_of pages

-- A page that Telegram takes, or one that holds a single card.
abbrev pub IsShort : (Text → ℕ) → ℕ → Page → Type 0
IsShort visible max_visible page =
    (ltb 1 (length page.1) && ltb max_visible (visible page.0)) ≡ false

range-append : (start m n : ℕ) → range start (m + n) ≡ range start m ++ range (start + m) n
unfolding range
range-append start zero n =
    let left : 0 + n ≡ n = omega arith in
    let right : start + 0 ≡ start = omega arith in rw (left, right)
range-append start (suc m) n =
    let same : start + 1 + m ≡ start + suc m = omega arith in
    let out : suc m + n ≡ suc (m + n) = omega arith in
    ap (range start) out
    ∙ ap (λ r. start ∷ r)
        (range-append (start + 1) m n ∙ ap (λ s. range (start + 1) m ++ range s n) same)

length-range : (start n : ℕ) → length (range start n) ≡ n
unfolding range
length-range start zero = refl
length-range start (suc n) = ap suc (length-range (start + 1) n)

and_false : (b : Bool) → (b && false) ≡ false
and_false true = refl
and_false false = refl

one_more : (n : ℕ) → 1 + n ≡ suc n
one_more n = omega arith

add_page_inv :
    (page : Page) (rest : Option (List Page)) (pages : List Page)
    → add_page page rest ≡ some pages
    → (others : List Page) × (rest ≡ some others) × (pages ≡ page ∷ others)
add_page_inv page none pages run = absurd (ground (arith, run))
add_page_inv page (some others) pages run = (others, refl, ground (arith, run))

module _ (visible : Text → ℕ) (max_visible : ℕ) where
  -- The cards that wait for their page fit, or are one.
  abbrev IsWaiting : List Card → ℕ → Type 0
  IsWaiting current start =
      (ltb 1 (length current)
        && ltb max_visible (visible (render_proposal_html current none start)))
      ≡ false

  page_of-IsShort :
      (current : List Card) (start : ℕ)
      → IsWaiting current start
      → IsShort visible max_visible (page_of current start)
  unfolding page_of
  page_of-IsShort current start short = rw length-range short

  last_page :
      (current : List Card) (start : ℕ) (pages : List Page)
      → IsWaiting current start
      → paginate_from visible max_visible current start [] ≡ some pages
      → (positions_of pages ≡ range start (length current + 0))
        × All (IsShort visible max_visible) pages
  unfolding paginate_from range
  last_page [] start pages short run =
      let none_left : pages ≡ [] = ground (arith, run) in rw none_left (refl, tt)
  last_page (d ∷ ds) start pages short run =
      let one : pages ≡ page_of (d ∷ ds) start ∷ [] = ground (arith, run) in
      let count : length (d ∷ ds) + 0 ≡ length (d ∷ ds) = omega arith in
      rw (one, count)
        (append-nil (range start (length (d ∷ ds))), (page_of-IsShort (d ∷ ds) start short, tt))

  -- Whether the next card starts a new page.
  abbrev is_cut : List Card → ℕ → Card → Bool
  is_cut current start c =
      not (is_empty_list current)
      && ltb max_visible (visible (render_proposal_html (current ++ c ∷ []) none start))

  paginate_cut :
      (current : List Card) (start : ℕ) (c : Card) (cs : List Card)
      → is_cut current start c ≡ true
      → paginate_from visible max_visible current start (c ∷ cs)
        ≡ add_page
            (page_of current start)
            (paginate_from visible max_visible (c ∷ []) (start + length current) cs)
  unfolding paginate_from
  paginate_cut current start c cs cut = rw cut

  paginate_fits :
      (current : List Card) (start : ℕ) (c : Card) (cs : List Card)
      → is_cut current start c ≡ false
      → paginate_from visible max_visible current start (c ∷ cs)
        ≡ paginate_from visible max_visible (current ++ c ∷ []) start cs
  unfolding paginate_from
  paginate_fits current start c cs fits = rw fits

  IsWaiting-grown :
      (current : List Card) (start : ℕ) (c : Card)
      → is_cut current start c ≡ false
      → IsWaiting (current ++ c ∷ []) start
  IsWaiting-grown [] start c fits = refl
  IsWaiting-grown (d ∷ ds) start c fits = rw fits (and_false (ltb 1 (length (d ∷ ds ++ c ∷ []))))

  grown_length :
      (current : List Card) (c : Card) (cs : List Card)
      → length (current ++ c ∷ []) + length cs ≡ length current + suc (length cs)
  grown_length current c cs = omega (arith, length-append current (c ∷ []))

  paginate_from_lem :
      (current : List Card) (start : ℕ) (cs : List Card) (pages : List Page)
      → IsWaiting current start
      → paginate_from visible max_visible current start cs ≡ some pages
      → (positions_of pages ≡ range start (length current + length cs))
        × All (IsShort visible max_visible) pages
  unfolding paginate_from
  paginate_from_lem current start [] pages short run = last_page current start pages short run
  paginate_from_lem current start (c ∷ cs) pages short run =
      elim (Bool-cases (is_cut current start c)) [
        | inl cut ↦
            let (others, rest, same) =
              add_page_inv (page_of current start)
                (paginate_from visible max_visible (c ∷ []) (start + length current) cs) pages
                (sym (paginate_cut current start c cs cut) ∙ run) in
            let (ps, shorts) =
              paginate_from_lem (c ∷ []) (start + length current) cs others refl rest in
            rw same (
              ap (λ r. range start (length current) ++ r)
                    (ps ∙ ap (range (start + length current)) (one_more (length cs)))
                  ∙ sym (range-append start (length current) (suc (length cs))),
              (page_of-IsShort current start short, shorts),
            )
        | inr fits ↦
            let (ps, shorts) =
              paginate_from_lem (current ++ c ∷ []) start cs pages
                (IsWaiting-grown current start c fits)
                (sym (paginate_fits current start c cs fits) ∙ run) in
            (ps ∙ ap (range start) (grown_length current c cs), shorts)
      ]

-- A proposal that is paginated without an error puts every position from one to the number of
-- candidates on one page, in order, and each page of two or more cards keeps to the limit.
pub paginate_proposal_html_lem :
    (visible : Text → ℕ) (max_visible : ℕ) (candidates : List Card) (pages : List Page)
    → paginate_proposal_html visible max_visible candidates ≡ some pages
    → (positions_of pages ≡ range 1 (length candidates)) × All (IsShort visible max_visible) pages
unfolding paginate_proposal_html
paginate_proposal_html_lem visible max_visible candidates pages run =
    let (ps, shorts) =
      paginate_from_lem visible max_visible [] 1 candidates pages refl (ground (arith, run)) in
    let same : 0 + length candidates ≡ length candidates = omega arith in
    (ps ∙ ap (range 1) same, shorts)
