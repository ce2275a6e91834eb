-- ===== src/Tests/Codecs.antt =====
-- A concrete codec of texts, in place of JSON: characters are shifted by one, and 0 ends a text.
use leetcode_coach_service.Base.{
  ℕ, zero, suc, Option, none, some, List, [], ◌∷◌, ◌++◌, map, ◌≡◌, refl, ap, ◌∙◌, append_assoc,
  append-nil, sym,
}
use leetcode_coach_service.Text.{Text}
use leetcode_coach_service.Application.{Codec, Codecs, Choice, Progress}

abbrev encode : List Text → Text
encode [] = []
encode (s ∷ rest) = map suc s ++ 0 ∷ encode rest

abbrev decode : Text → Text → List Text
decode word [] = []
decode word (zero ∷ t) = word ∷ decode [] t
decode word (suc c ∷ t) = decode (word ++ c ∷ []) t

decode_word : (word s t : Text) → decode word (map suc s ++ 0 ∷ t) ≡ (word ++ s) ∷ decode [] t
decode_word word [] t = ap (λ w. w ∷ decode [] t) (sym (append-nil word))
decode_word word (c ∷ s) t =
    decode_word (word ++ c ∷ []) s t ∙ ap (λ w. w ∷ decode [] t) (append_assoc word (c ∷ []) s)

pub decode-encode : (texts : List Text) → decode [] (encode texts) ≡ texts
decode-encode [] = refl
decode-encode (s ∷ rest) = decode_word [] s (encode rest) ∙ ap (λ r. s ∷ r) (decode-encode rest)

abbrev codec : Codec (List Text)
codec = record {
  dump = encode;
  load = λ t. some (decode [] t);
  load-dump = λ texts. ap some (decode-encode texts);
}

abbrev choice_texts : Choice → List Text
choice_texts c = c.action ∷ c.slug ∷ (c.count ∷ []) ∷ []

abbrev texts_choice : List Text → Option Choice
texts_choice (a ∷ b ∷ (n ∷ []) ∷ []) = some (record { action = a; slug = b; count = n })
texts_choice _ = none

abbrev progress_texts : Progress → List Text
progress_texts p = (p.next_page ∷ []) ∷ elim p.first_message_id [ none ↦ [] | some n ↦ n ∷ [] ] ∷ []

abbrev texts_progress : List Text → Option Progress
texts_progress ((n ∷ []) ∷ [] ∷ []) = some (record { next_page = n; first_message_id = none })
texts_progress ((n ∷ []) ∷ (m ∷ []) ∷ []) =
    some (record { next_page = n; first_message_id = some m })
texts_progress _ = none

progress-parts :
    (n : ℕ) (first : Option ℕ)
    → let p : Progress = record { next_page = n; first_message_id = first } in
      texts_progress (progress_texts p) ≡ some p
progress-parts n none = refl
progress-parts n (some m) = refl

pub progress-texts : (p : Progress) → texts_progress (progress_texts p) ≡ some p
progress-texts p = progress-parts p.next_page p.first_message_id

abbrev pub codecs : Codecs
codecs = record {
  slugs = codec;
  choice = record {
    dump = λ c. encode (choice_texts c);
    load = λ t. texts_choice (decode [] t);
    load-dump = λ c. ap texts_choice (decode-encode (choice_texts c));
  };
  progress = record {
    dump = λ p. encode (progress_texts p);
    load = λ t. texts_progress (decode [] t);
    load-dump = λ p. ap texts_progress (decode-encode (progress_texts p)) ∙ progress-texts p;
  };
}
