-- ===== src/Text.antt =====
-- Python's `str` as a list of code points, with the methods that the service uses: `==`, `+`,
-- `strip`, `lower` (of ASCII letters), slices, `str(int)` and zero-padded numbers.
pub mod Laws
pub mod Decimal
pub mod Strip
use Prim.Native.Char.{code}
use mathlib.Core.Path.{subst}
use leetcode_coach_service.Base.{
  ℕ, zero, suc, ◌+◌, ◌-◌, ◌/◌, ◌%◌, ◌≡◌, refl, ap, ◌↔◌, Bool, true, false, ◌&&◌, ◌||◌, List, [],
  ◌∷◌, ◌++◌, map, arith, nat_beq, nat_beq_iff, leb, Eq, ℤ, pos, negsuc, take, length, if◌then◌else◌,
  String, Option, none, some,
}
use mathlib.Core.List.{reverse}

abbrev pub Text : Type 0
Text = List ℕ

-- A literal. (`String` has its own `[]` and `∷`.)
abbrev pub codes : String → Text
codes String.[] = []
codes (String.◌∷◌ c s) = code c ∷ codes s

unfoldable pub text_beq : Text → Text → Bool
text_beq [] [] = true
text_beq [] (y ∷ ys) = false
text_beq (x ∷ xs) [] = false
text_beq (x ∷ xs) (y ∷ ys) = nat_beq x y && text_beq xs ys

text_beq_sound : (s t : Text) → text_beq s t ≡ true → s ≡ t
unfolding text_beq
text_beq_sound [] [] h = refl
text_beq_sound [] (y ∷ ys) h = cc
text_beq_sound (x ∷ xs) [] h = cc
text_beq_sound (x ∷ xs) (y ∷ ys) h = ground (arith, text_beq_sound xs ys)

text_beq_self : (s : Text) → text_beq s s ≡ true
unfolding text_beq
text_beq_self [] = refl
text_beq_self (x ∷ xs) = ground (arith, text_beq_self xs)

pub text_beq_iff : (s t : Text) → (text_beq s t ≡ true) ↔ (s ≡ t)
text_beq_iff s t = (text_beq_sound s t, λ e. subst (λ r. text_beq s r ≡ true) e (text_beq_self s))

instance abbrev pub text_eq : Eq Text
text_eq = record { beq = text_beq; beq_iff = text_beq_iff }

-- `str.isspace` of one character.
unfoldable pub is_space : ℕ → Bool
is_space c =
    (leb 9 c && leb c 13)
    || ((leb 28 c && leb c 32)
        || (nat_beq c 133
            || (nat_beq c 160
                || (nat_beq c 5760
                    || ((leb 8192 c && leb c 8202)
                        || (nat_beq c 8232
                            || (nat_beq c 8233
                                || (nat_beq c 8239 || (nat_beq c 8287 || nat_beq c 12288)))))))))

unfoldable pub lstrip : Text → Text
unfolding is_space
lstrip [] = []
lstrip (c ∷ s) = let rest = lstrip s in if is_space c then rest else c ∷ s

unfoldable pub strip : Text → Text
unfolding lstrip
strip s = reverse (lstrip (reverse (lstrip s)))

unfoldable pub lower_char : ℕ → ℕ
lower_char c = if leb 65 c && leb c 90 then c + 32 else c

unfoldable pub lower : Text → Text
unfolding lower_char
lower s = map lower_char s

-- `not s`
abbrev pub is_empty : Text → Bool
is_empty [] = true
is_empty (c ∷ s) = false

-- The digits of `n` in front of `acc`; `f` bounds their number.
unfoldable pub show_from : ℕ → ℕ → Text → Text
show_from zero n acc = acc
show_from (suc f) n acc =
    let rest = show_from f (n / 10) ((48 + n % 10) ∷ acc) in
    if leb 10 n then rest else (48 + n) ∷ acc

-- `str(n)` of a natural number: it has at most `n + 1` digits.
unfoldable pub show_nat : ℕ → Text
unfolding show_from
show_nat n = show_from (suc n) n []

-- `str(n)` of an integer.
unfoldable pub show_int : ℤ → Text
unfolding show_nat
show_int (pos n) = show_nat n
show_int (negsuc n) = 45 ∷ show_nat (suc n)

-- `f"{n:0{w}d}"`: the last `w` digits, zero-padded.
unfoldable pub pad : ℕ → ℕ → Text
pad zero n = []
pad (suc w) n = pad w (n / 10) ++ ((48 + n % 10) ∷ [])
