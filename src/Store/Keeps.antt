-- ===== src/Store/Keeps.antt =====
-- Invariants of session methods: a rule for each way in which a method is put together.
use leetcode_coach_service.Base.{Bool, true, false, Option, none, some, if◌then◌else◌}
use leetcode_coach_service.Store.{
  Db, Error, Exec, Result, ok, err, pure, raise, gets, or_raise, raise_if, modify, create, ◌>>=◌,
}

-- Whether `m` returns or raises, the session satisfies `P` behind it if it did before.
pub record Keeps {A : Type 0} (P : Db → Type 0) (m : Exec A) : Type 0 where
  pub after : (db : Db) → P db → P (m db).1

module _ {P : Db → Type 0} where
  pub Keeps-pure : {A : Type 0} (a : A) → Keeps P (pure a)
  Keeps-pure a = record { after = λ db h. h }

  pub Keeps-raise : {A : Type 0} (e : Error) → Keeps P (raise {A = A} e)
  Keeps-raise e = record { after = λ db h. h }

  pub Keeps-gets : {A : Type 0} (f : Db → A) → Keeps P (gets f)
  Keeps-gets f = record { after = λ db h. h }

  pub Keeps-or_raise : {A : Type 0} (o : Option A) (e : Error) → Keeps P (or_raise o e)
  Keeps-or_raise none e = record { after = λ db h. h }
  Keeps-or_raise (some a) e = record { after = λ db h. h }

  pub Keeps-raise_if : (c : Bool) (e : Error) → Keeps P (raise_if c e)
  Keeps-raise_if c e = record { after = λ db h. h }

  pub Keeps-modify : (f : Db → Db) → ((db : Db) → P db → P (f db)) → Keeps P (modify f)
  Keeps-modify f keep = record { after = keep }

  pub Keeps-create :
      {A : Type 0} (f : Db → A × Db) → ((db : Db) → P db → P (f db).1) → Keeps P (create f)
  Keeps-create f keep = record { after = keep }

  pub Keeps-if :
      {A : Type 0} (b : Bool) (m n : Exec A) → Keeps P m → Keeps P n → Keeps P (if b then m else n)
  Keeps-if true m n km kn = km
  Keeps-if false m n km kn = kn

  next_after :
      {A B : Type 0} (f : A → Exec B) (r : Result A) (db : Db)
      → ((a : A) → Keeps P (f a))
      → P db
      → P (◌>>=◌ (λ d. (r, d)) f db).1
  next_after f (ok a) db kf h = (kf a).after db h
  next_after f (err e) db kf h = h

  pub Keeps-bind :
      {A B : Type 0} (m : Exec A) (f : A → Exec B)
      → Keeps P m
      → ((a : A) → Keeps P (f a))
      → Keeps P (m >>= f)
  Keeps-bind m f km kf = record {
    after = λ db h. let (r, db') = m db in next_after f r db' kf (km.after db h);
  }

pub ruleset keeps_rules =
    (Keeps-pure, Keeps-raise, Keeps-gets, Keeps-or_raise, Keeps-raise_if, Keeps-if, Keeps-bind)
