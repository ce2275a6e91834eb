-- ===== src/Store/Bind.antt =====
-- How a chain of session methods runs: forwards from what its first method gives, and backwards
-- from what the chain returned.
use leetcode_coach_service.Base.{◌≡◌, refl, sym, ◌∙◌, ap}
use leetcode_coach_service.Store.{Db, Error, Exec, Result, resume, ok, err, ◌>>=◌}

module _ {A B : Type 0} (m : Exec A) (f : A → Exec B) where
  pub bind_ok : {a : A} {db db' : Db} → m db ≡ (ok a, db') → (m >>= f) db ≡ f a db'
  bind_ok e = ap (λ r. resume r f) e

  pub bind_err : {e : Error} {db db' : Db} → m db ≡ (err e, db') → (m >>= f) db ≡ (err e, db')
  bind_err e = ap (λ r. resume r f) e

  after :
      (r : Result A) (mid db' : Db) {b : B} {db : Db}
      → m db ≡ (r, mid)
      → (m >>= f) db ≡ (ok b, db')
      → (a : A) × (mid : Db) × (m db ≡ (ok a, mid)) × (f a mid ≡ (ok b, db'))
  after (ok a) mid db' e h = (a, mid, e, sym (bind_ok e) ∙ h)
  after (err x) mid db' e h = cc (bind_err e, h)

  -- A chain that returned: its first method returned, and so did the rest.
  pub bind_returned :
      {b : B} {db db' : Db}
      → (m >>= f) db ≡ (ok b, db')
      → (a : A) × (mid : Db) × (m db ≡ (ok a, mid)) × (f a mid ≡ (ok b, db'))
  bind_returned {db = db} {db' = db'} h = let (r, mid) = m db in after r mid db' refl h

-- The value and the state that a method returned.
pub returned_eq :
    {A : Type 0} {a b : A} {db db' : Db}
    → ◌≡◌ {A = Result A × Db} (ok a, db) (ok b, db')
    → (a ≡ b) × (db ≡ db')
returned_eq h = (cc, cc)
