-- ===== src/Text/Decimal.antt =====
-- `int(str(n)) == n`: decimal numbers survive being written and read.
use leetcode_coach_service.Base.{
  ℕ, zero, suc, ◌+◌, ◌-◌, ◌*◌, ◌/◌, ◌%◌, ◌<◌, ◌≡◌, ◌&&◌, [], ◌∷◌, arith, leb, if◌then◌else◌, Option,
  none, some,
}
use leetcode_coach_service.Text.{Text, show_from}

-- The value of a run of digits behind the digits read so far; `none` where `int` raises.
unfoldable pub read_from : ℕ → Text → Option ℕ
read_from acc [] = some acc
read_from acc (c ∷ s) =
    let rest = read_from (acc * 10 + (c - 48)) s in if leb 48 c && leb c 57 then rest else none

-- `int(s)` of an unsigned decimal.
unfoldable pub read_nat : Text → Option ℕ
unfolding read_from
read_nat [] = none
read_nat (c ∷ s) = read_from 0 (c ∷ s)

-- Reading digits that were written in front of `acc` reads `n` first.
pub read_from-show_from :
    (f n : ℕ) (acc : Text) → n < f → read_from 0 (show_from f n acc) ≡ read_from n acc
unfolding show_from read_from
read_from-show_from zero n acc h = elim h [ ]
read_from-show_from (suc f) n acc h =
    ground (arith, read_from-show_from f (n / 10) ((48 + n % 10) ∷ acc))
