-- ===== src/Application/Numbers.antt =====
-- The numbers in the data of a button: `int(str(n))`.
use leetcode_coach_service.Base.{
  ℕ, zero, suc, ◌+◌, ◌-◌, ◌*◌, ◌/◌, ◌%◌, ◌<◌, true, some, [], ◌∷◌, ◌++◌, ◌≡◌, refl, ap, ◌∙◌, arith,
  all, pos, leb, Bool-cases, inl, inr,
}
use leetcode_coach_service.Text.{Text, is_space, show_from, show_nat}
use leetcode_coach_service.Text.Decimal.{read_nat, read_from, read_from-show_from}
use leetcode_coach_service.Application.Callbacks.{
  split_colon, is_digit, starts_digit, int_from, map_option, unsigned, signed, int_of,
}

-- Every character of a number is a digit.
digits-show_from :
    (f n : ℕ) (acc : Text)
    → n < f
    → all is_digit acc ≡ true
    → all is_digit (show_from f n acc) ≡ true
unfolding show_from
digits-show_from zero n acc h digits = elim h [ ]
digits-show_from (suc f) n acc h digits =
    ground (arith, h, digits, digits-show_from f (n / 10) ((48 + n % 10) ∷ acc))

pub digits-show_nat : (n : ℕ) → all is_digit (show_nat n) ≡ true
unfolding show_nat
digits-show_nat n = digits-show_from (suc n) n [] (omega arith) refl

starts-show_from :
    (f n d : ℕ) (acc : Text)
    → n < f
    → is_digit d ≡ true
    → starts_digit (show_from f n (d ∷ acc)) ≡ true
unfolding show_from
starts-show_from zero n d acc h digit = elim h [ ]
starts-show_from (suc f) n d acc h digit =
    ground (arith, h, starts-show_from f (n / 10) (48 + n % 10) (d ∷ acc))

starts-show_nat : (n : ℕ) → starts_digit (show_nat n) ≡ true
unfolding show_nat show_from
starts-show_nat n = elim (Bool-cases (leb 10 n)) [
  | inl large ↦ ground (arith, large, starts-show_from n (n / 10) (48 + n % 10) [])
  | inr small ↦ ground (arith, small)
]

-- On digits alone the two readers agree.
int_from-digits : (acc : ℕ) (s : Text) → all is_digit s ≡ true → int_from acc s ≡ read_from acc s
unfolding int_from read_from
int_from-digits acc [] h = refl
int_from-digits acc (c ∷ s) h = ground (arith, h, int_from-digits (acc * 10 + (c - 48)) s)

read_from-show_nat : (n : ℕ) → read_from 0 (show_nat n) ≡ some n
unfolding show_nat read_from
read_from-show_nat n = read_from-show_from (suc n) n [] (omega arith)

unsigned-show_nat : (n : ℕ) → unsigned (show_nat n) ≡ some n
unfolding unsigned
unsigned-show_nat n =
    rw (starts-show_nat n)
      (int_from-digits 0 (show_nat n) (digits-show_nat n) ∙ read_from-show_nat n)

int_of-digits : (s : Text) → starts_digit s ≡ true → int_of s ≡ map_option pos (unsigned s)
unfolding int_of signed is_space
int_of-digits [] h = refl
int_of-digits (c ∷ s) h = ground (arith, h)

pub int_of-show_nat : (n : ℕ) → int_of (show_nat n) ≡ some (pos n)
int_of-show_nat n =
    int_of-digits (show_nat n) (starts-show_nat n) ∙ ap (map_option pos) (unsigned-show_nat n)

pub split_colon-digits :
    (s t : Text) → all is_digit s ≡ true → split_colon (s ++ 58 ∷ t) ≡ some (s, t)
unfolding split_colon
split_colon-digits [] t h = refl
split_colon-digits (c ∷ s) t h = ground (arith, h, split_colon-digits s t)

read_nat-starting :
    (s : Text) (n : ℕ) → starts_digit s ≡ true → read_from 0 s ≡ some n → read_nat s ≡ some n
unfolding read_nat
read_nat-starting [] n start h = absurd (cc start)
read_nat-starting (c ∷ s) n start h = h

-- `int(str(n)) == n`
pub read_nat-show_nat : (n : ℕ) → read_nat (show_nat n) ≡ some n
read_nat-show_nat n = read_nat-starting (show_nat n) n (starts-show_nat n) (read_from-show_nat n)
