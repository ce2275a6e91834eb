-- ===== src/Rendering.antt =====
-- Telegram markup: src/leetcode_coach/rendering.py.
pub mod Pages
pub mod Keyboard
use leetcode_coach_service.Base.{
  ℕ, zero, suc, ◌+◌, ◌-◌, Bool, true, false, Option, none, some, List, [], ◌∷◌, ◌++◌, ◌&&◌,
  if◌then◌else◌, ◌==◌, nat_eq, leb, ltb, length, take, map, not,
}
use leetcode_coach_service.Text.{Text, codes, text_eq, show_nat, lower, is_space}
use leetcode_coach_service.Text.Strip.{rstrip, join}

-- What the renderer reads of a candidate.
pub record Card : Type 0 where
  pub title : Text
  pub url : Text
  pub difficulty : Text
  pub tags : Text
  pub reasoning : Text
  pub coaching_hint : Text

-- `text.replace("\\" + c, c)` for one character `c`.
unfoldable pub unescape : ℕ → Text → Text
unescape c [] = []
unescape c (x ∷ []) = x ∷ []
unescape c (x ∷ y ∷ rest) =
    let skipped = unescape c rest in
    let kept = unescape c (y ∷ rest) in if x == 92 && y == c then c ∷ skipped else x ∷ kept

-- `_plain`: `.` and `-` lose a backslash in front of them.
unfoldable pub plain : Text → Text
unfolding unescape
plain t = unescape 45 (unescape 46 t)

-- `_clip`
unfoldable pub clip : Text → ℕ → Text
clip value limit =
    let text = plain value in
    if leb (length text) limit then text else take (limit - 1) text ++ codes "…"

-- `html.escape`, which escapes quotes too.
abbrev pub escape_char : ℕ → Text
escape_char c =
    if c == 38
    then codes "&amp;"
    else if c == 60
    then codes "&lt;"
    else if c == 62
    then codes "&gt;"
    else if c == 34
    then codes "&quot;"
    else if c == 39
    then codes "&#x27;"
    else c ∷ []

unfoldable pub escape : Text → Text
escape [] = []
escape (c ∷ t) = escape_char c ++ escape t

-- `_BADGES.get(difficulty, "")`
abbrev pub badge : Text → Text
badge d =
    if d == codes "easy"
    then codes "🟢"
    else if d == codes "medium"
    then codes "🟡"
    else if d == codes "hard"
    then codes "🔴"
    else []

-- The four lines of a candidate.
unfoldable pub card_lines : ℕ → Card → List Text
unfolding clip escape plain show_nat lower
card_lines index c =
    let difficulty = lower c.difficulty in
    (codes "<b>"
      ++ show_nat index
      ++ codes ". <a href=\""
      ++ escape c.url
      ++ codes "\">"
      ++ escape (clip c.title 120)
      ++ codes "</a></b> "
      ++ badge difficulty
      ++ codes " "
      ++ escape difficulty)
    ∷ (codes "<i>" ++ escape (clip c.tags 120) ++ codes "</i>")
    ∷ (codes "<blockquote><b>Why:</b> "
        ++ escape (clip c.reasoning 220)
        ++ codes "\n<b>Hint:</b> "
        ++ escape (clip c.coaching_hint 220)
        ++ codes "</blockquote>")
    ∷ []
    ∷ []

unfoldable pub cards_lines : ℕ → List Card → List Text
unfolding card_lines
cards_lines index [] = []
cards_lines index (c ∷ cs) = card_lines index c ++ cards_lines (index + 1) cs

abbrev pub balance_line : Option Text → List Text
balance_line none = []
balance_line (some balance) =
    (codes "<b>Credits: " ++ escape (clip balance 100) ++ codes "</b>") ∷ []

unfoldable pub render_proposal_html : List Card → Option Text → ℕ → Text
unfolding cards_lines
render_proposal_html candidates balance start_position =
    let lines =
      codes "<b>📊 Today's Problems</b>"
      ∷ []
      ∷ (cards_lines start_position candidates ++ balance_line balance) in
    rstrip (join (codes "\n") lines)

-- `list(range(start, start + n))`
unfoldable pub range : ℕ → ℕ → List ℕ
range start zero = []
range start (suc n) = start ∷ range (start + 1) n

abbrev pub Page : Type 0
Page = Text × List ℕ

unfoldable pub page_of : List Card → ℕ → Page
unfolding range
page_of cards start = (render_proposal_html cards none start, range start (length cards))

abbrev pub is_empty_list : List Card → Bool
is_empty_list [] = true
is_empty_list (c ∷ cs) = false

-- `pages.append(page)` in front of what the rest of the loop gives.
abbrev pub add_page : Page → Option (List Page) → Option (List Page)
add_page page none = none
add_page page (some pages) = some (page ∷ pages)

-- The loop and what follows it, on the state `current`, `start_position`. `visible` is
-- `_visible_length`, the number of characters that HTMLParser hands out as data. `none` is the
-- `ValueError` of a card that exceeds the limit.
unfoldable pub paginate_from : (Text → ℕ) → ℕ → List Card → ℕ → List Card → Option (List Page)
unfolding page_of
paginate_from visible max_visible current start [] =
    if is_empty_list current
    then some []
    else if ltb max_visible (visible (render_proposal_html current none start))
    then none
    else some (page_of current start ∷ [])
paginate_from visible max_visible current start (c ∷ cs) =
    let trial = current ++ c ∷ [] in
    let rendered = render_proposal_html trial none start in
    let cut = not (is_empty_list current) && ltb max_visible (visible rendered) in
    let rest =
      paginate_from visible max_visible (if cut then c ∷ [] else trial)
        (if cut then start + length current else start) cs in
    if cut then add_page (page_of current start) rest else rest

unfoldable pub paginate_proposal_html : (Text → ℕ) → ℕ → List Card → Option (List Page)
paginate_proposal_html visible max_visible candidates =
    if max_visible == 0 then none else paginate_from visible max_visible [] 1 candidates

pub record Receipt : Type 0 where
  pub title : Text
  pub result : Text
  pub credit : Text
  pub balance : Text
  pub path : Text
  pub replayed : Bool

unfoldable pub render_work_receipt : Receipt → Text
unfolding plain
render_work_receipt receipt = join (codes "\n") (
    (if receipt.replayed then codes "Already recorded" else codes "Your work counts")
    ∷ []
    ∷ (codes "Problem: " ++ plain receipt.title)
    ∷ (codes "Result: " ++ plain receipt.result)
    ∷ (codes "Credit: " ++ plain receipt.credit)
    ∷ (codes "Balance: " ++ plain receipt.balance)
    ∷ (codes "Path: " ++ plain receipt.path)
    ∷ [])

pub record Button : Type 0 where
  pub text : Text
  pub callback_data : Text

unfoldable pub pick_button : ℕ → ℕ → Button
pick_button batch_id index = record {
  text = codes "Pick " ++ show_nat index;
  callback_data = codes "v2p:" ++ (show_nat batch_id ++ (codes ":" ++ show_nat index));
}

-- `[available[offset : offset + 4] for offset in range(0, len(available), 4)]`
unfoldable pub rows_of_four : List ℕ → List (List ℕ)
rows_of_four [] = []
rows_of_four (a ∷ []) = (a ∷ []) ∷ []
rows_of_four (a ∷ b ∷ []) = (a ∷ b ∷ []) ∷ []
rows_of_four (a ∷ b ∷ c ∷ []) = (a ∷ b ∷ c ∷ []) ∷ []
rows_of_four (a ∷ b ∷ c ∷ d ∷ rest) = (a ∷ b ∷ c ∷ d ∷ []) ∷ rows_of_four rest

-- The keyboard of a list of positions.
unfoldable pub proposal_keyboard : ℕ → List ℕ → List (List Button)
unfolding pick_button rows_of_four
proposal_keyboard batch_id positions =
    map (map (pick_button batch_id)) (rows_of_four positions)
    ++ (record { text = codes "Done"; callback_data = codes "v2pd:" ++ show_nat batch_id } ∷ [])
      ∷ []
