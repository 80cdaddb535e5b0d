-- ===== src/Store/Keeps.antt =====
-- What a run does to the database, as a preorder on its states: a rule for each way to compose
-- effects, so that a property of the writes gives the property of every handler made from them.
use cloacina.Common.{
  ◌≡◌, refl, Option, none, some, Result, ok, err, Bool, true, false, if◌then◌else◌,
}
use cloacina.Store.Monad.{
  M, Db, ValidationError, and_then, pure, throw, lift, attempt_of, gets, connect, ◌>>=◌, ◌>>◌,
}
use cloacina.Store.Queries.{found}

-- A preorder that does not look at the counter of calls.
pub record Order (R : Db → Db → Type 0) : Type 0 where
  pub same : (db : Db) → R db db
  pub trans : {a b c : Db} → R a b → R b c → R a c
  pub after_connect : (db : Db) → R db (connect db).1

-- Each run of `m` goes up in the preorder, whether it fails or not.
pub record Keeps {A : Type 0} (R : Db → Db → Type 0) (m : M A) : Type 0 where
  pub at : (db : Db) → R db (m db).1

module _ {R : Db → Db → Type 0} (o : Order R) where
  pub Keeps-pure : {A : Type 0} (a : A) → Keeps R (pure a)
  unfolding pure
  Keeps-pure a = record { at = o.same }

  pub Keeps-throw : {A : Type 0} (e : ValidationError) → Keeps {A = A} R (throw e)
  unfolding throw
  Keeps-throw e = record { at = o.same }

  pub Keeps-lift : {A : Type 0} (r : Result ValidationError A) → Keeps R (lift r)
  unfolding lift
  Keeps-lift r = record { at = o.same }

  pub Keeps-gets : {A : Type 0} (f : Db → A) → Keeps R (gets f)
  unfolding gets
  Keeps-gets f = record { at = o.same }

  pub Keeps-connect : Keeps R connect
  Keeps-connect = record { at = o.after_connect }

  pub Keeps-found : {A : Type 0} (a : Option A) → Keeps R (found a)
  unfolding found
  Keeps-found none = Keeps-throw _
  Keeps-found (some a) = Keeps-pure a

  pub Keeps-attempt : {A : Type 0} {m : M A} → Keeps R m → Keeps R (attempt_of m)
  unfolding attempt_of
  Keeps-attempt k = record { at = k.at }

  pub Keeps-bind :
      {A B : Type 0} {m : M A} {f : A → M B}
      → Keeps R m
      → ((a : A) → Keeps R (f a))
      → Keeps R (m >>= f)
  unfolding ◌>>=◌
  Keeps-bind {A} {B} {m} {f} k h = record { at = λ db. o.trans (k.at db) (rest (m db).0 (m db).1) }
    where
      rest : (r : Result ValidationError A) (db : Db) → R db (and_then r f db).1
      rest (ok a) db = (h a).at db
      rest (err e) db = o.same db

  pub Keeps-then :
      {B : Type 0} {m : M (Unit {0})} {n : M B} → Keeps R m → Keeps R n → Keeps R (m >> n)
  unfolding ◌>>◌
  Keeps-then k h = Keeps-bind k (λ _. h)

-- The rule for bind at one state, where the first part's result is known.
pub bind_at :
    {R : Db → Db → Type 0} (o : Order R) {A B : Type 0} (m : M A) (f : A → M B) (db : Db)
    → R db (m db).1
    → ((a : A) → (m db).0 ≡ ok a → R (m db).1 (f a (m db).1).1)
    → R db ((m >>= f) db).1
unfolding ◌>>=◌
bind_at {R} o {A} {B} m f db first rest = o.trans first (go (m db).0 refl)
  where
    go : (r : Result ValidationError A) → (m db).0 ≡ r → R (m db).1 (and_then r f (m db).1).1
    go (ok a) e = rest a e
    go (err x) e = o.same (m db).1

pub then_at :
    {R : Db → Db → Type 0} (o : Order R) {B : Type 0} (m : M (Unit {0})) (n : M B) (db : Db)
    → R db (m db).1
    → Keeps R n
    → R db ((m >> n) db).1
unfolding ◌>>◌
then_at o m n db first k = bind_at o m (λ _. n) db first (λ _ _. k.at _)

pub Keeps-if :
    {A : Type 0} {R : Db → Db → Type 0} (b : Bool) {m n : M A}
    → Keeps R m
    → Keeps R n
    → Keeps R (if b then m else n)
Keeps-if true k h = k
Keeps-if false k h = h

pub ruleset keeps_rules = (
  Keeps-pure, Keeps-throw, Keeps-lift, Keeps-gets, Keeps-connect, Keeps-found, Keeps-attempt,
  Keeps-bind, Keeps-then, Keeps-if,
)
