-- ===== src/Store/Runs.antt =====
-- How a run that succeeds splits into its parts.
use cloacina.Common.{◌≡◌, refl, Result, ok, err, ok-injective, ap}
use cloacina.Store.Monad.{M, Db, ValidationError, pure, and_then, gets, ◌>>=◌, ◌>>◌}

pub >>=-ok :
    {A B : Type 0} (m : M A) (f : A → M B) (db : Db) {b : B}
    → ((m >>= f) db).0 ≡ ok b
    → (a : A) × ((m db).0 ≡ ok a) × ((f a (m db).1).0 ≡ ok b)
unfolding ◌>>=◌
>>=-ok {A} {B} m f db {b} h = go (m db).0 refl h
  where
    go :
        (r : Result ValidationError A)
        → (m db).0 ≡ r
        → (and_then r f (m db).1).0 ≡ ok b
        → (a : A) × ((m db).0 ≡ ok a) × ((f a (m db).1).0 ≡ ok b)
    go (ok a) e k = (a, e, k)
    go (err x) e k = cc

pub >>-ok :
    {B : Type 0} (m : M Unit) (n : M B) (db : Db) {b : B}
    → ((m >> n) db).0 ≡ ok b
    → (n (m db).1).0 ≡ ok b
unfolding ◌>>◌
>>-ok m n db h = (>>=-ok m (λ _. n) db h).2

-- The state after a first part that succeeds.
pub >>=-run :
    {A B : Type 0} (m : M A) (f : A → M B) (db : Db) {a : A}
    → (m db).0 ≡ ok a
    → (m >>= f) db ≡ f a (m db).1
unfolding ◌>>=◌
>>=-run m f db e = ap (λ r. and_then r f (m db).1) e

pub gets-ok : {A : Type 0} (f : Db → A) (db : Db) {a : A} → (gets f db).0 ≡ ok a → f db ≡ a
unfolding gets
gets-ok f db h = ok-injective h

pub pure-ok : {A : Type 0} (a : A) (db : Db) {b : A} → (pure a db).0 ≡ ok b → a ≡ b
unfolding pure
pure-ok a db h = ok-injective h
