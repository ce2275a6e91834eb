-- ===== src/Migration/Baselines.antt =====
-- Baselines make a recomputation give the legacy totals.
use leetcode_coach_service.Base.{
  ℕ, ◌≤◌, Bool, false, Option, none, some, List, [], ◌∷◌, ◌++◌, if◌then◌else◌, length, ◌≡◌, refl,
  ap, ◌∙◌, arith, Bool-cases, inl, inr,
}
use leetcode_coach_service.Calendar.{Date, date_ltb, later}
use leetcode_coach_service.Model.{Attempt, Problem}
use leetcode_coach_service.Attempts.Counting.{later_of, latest, optional, attempt_dates, recomputed}
use leetcode_coach_service.Migration.{baselined}

latest-append :
    (acc : Option Date) (xs ys : List Date) → latest acc (xs ++ ys) ≡ latest (latest acc xs) ys
unfolding latest
latest-append acc [] ys = refl
latest-append acc (x ∷ xs) ys = latest-append (later_of acc x) xs ys

-- Whether a date lies behind another that may be missing.
abbrev pub is_before : Date → Option Date → Bool
is_before last none = false
is_before last (some attempted) = date_ltb last attempted

date_tie : (a b : Date) → date_ltb a b ≡ false → date_ltb b a ≡ false → a ≡ b
date_tie a b h k = ground arith

last_restored :
    (last : Date) (o : Option Date)
    → is_before last o ≡ false
    → latest o (
        optional (elim o [
          | none ↦ some last
          | some attempted ↦ if date_ltb attempted last then some last else none
        ]))
      ≡ some last
unfolding latest later
last_restored last none h = refl
last_restored last (some attempted) h = elim (Bool-cases (date_ltb attempted last)) [
  | inl newer ↦ rw (newer, newer)
  | inr tie ↦ rw tie (ap some (date_tie attempted last tie h))
]

-- With the baselines that an import sets from the attempts, a recomputation from the same attempts
-- gives the imported count and date, if the count is at least the number of the attempts and none
-- of them is later than the date.
pub recomputed-baselined :
    (now : ℕ) (attempts : List Attempt) (p : Problem) (last : Date)
    → length attempts ≤ p.times_attempted
    → p.last_attempted ≡ some last
    → is_before last (latest none (attempt_dates attempts)) ≡ false
    → let q = recomputed now attempts (baselined attempts p) in
      (q.times_attempted ≡ p.times_attempted) × (q.last_attempted ≡ p.last_attempted)
unfolding recomputed baselined
recomputed-baselined now attempts p last enough dated newest = (
  omega (arith, enough),
  rw dated (
      latest-append none (attempt_dates attempts) _
      ∙ last_restored last (latest none (attempt_dates attempts)) newest),
)
