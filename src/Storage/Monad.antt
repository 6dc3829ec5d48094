-- ===== src/Storage/Monad.antt =====
-- A method of the store on one connection: the database is passed along, and stays as written
-- when an exception leaves the statement that raises it.
use hermes_agentic_variation.Base.{Bool, ◌≡◌, refl}
use hermes_agentic_variation.Base.Result
use hermes_agentic_variation.Base.Result.{Error, Result, ok, err}
use hermes_agentic_variation.Storage.Tables.{Database}

abbrev pub Action : Type 0 → Type 0
Action A = Database → Result A × Database

module _ {A : Type 0} where
  abbrev pub pure : A → Action A
  pure a db = (ok a, db)

  -- A computation that leaves the database alone.
  abbrev pub lift : Result A → Action A
  lift r db = (r, db)

  abbrev pub gets : (Database → A) → Action A
  gets f db = (ok (f db), db)

  -- `with self._connect() as connection`: commit on success, roll back on an exception.
  abbrev pub settle : Database → Result A × Database → Result A × Database
  settle before (ok a, db) = (ok a, db)
  settle before (err e, db) = (err e, before)

  abbrev pub transact : Action A → Action A
  transact m db = settle db (m db)

abbrev pub continue : {A B : Type 0} → Result A × Database → (A → Action B) → Result B × Database
continue (ok a, db) f = f a db
continue (err e, db) f = (err e, db)

infixl 5 ◌>>=◌ ◌>>◌
abbrev pub ◌>>=◌ : {A B : Type 0} → Action A → (A → Action B) → Action B
◌>>=◌ m f db = continue (m db) f

abbrev pub ◌>>◌ : {A B : Type 0} → Action A → Action B → Action B
m >> k = m >>= λ _. k

-- A statement, which changes nothing when it fails.
abbrev pub written : Database → Result Database → Result (Unit {0}) × Database
written before (ok after) = (ok tt, after)
written before (err e) = (err e, before)

abbrev pub run : (Database → Result Database) → Action (Unit {0})
run statement db = written db (statement db)

abbrev pub require : Bool → Error → Action (Unit {0})
require b e = lift (Result.require b e)

abbrev pub raise_if : Bool → Error → Action (Unit {0})
raise_if b e = lift (Result.raise_if b e)

-- Inversion of a successful chain.
pub continue-ok :
    {A B : Type 0} (x : Result A × Database) (f : A → Action B) {b : B} {after : Database}
    → continue x f ≡ (ok b, after)
    → (a : A) × (db : Database) × (x ≡ (ok a, db)) × (f a db ≡ (ok b, after))
continue-ok (ok a, db) f h = (a, db, refl, h)
continue-ok (err e, db) f h = cc

pub lift-ok :
    {A B : Type 0} (r : Result A) (f : A → Action B) (db : Database) {b : B} {after : Database}
    → continue (r, db) f ≡ (ok b, after)
    → (a : A) × (r ≡ ok a) × (f a db ≡ (ok b, after))
lift-ok (ok a) f db h = (a, refl, h)
lift-ok (err e) f db h = cc

-- A method that succeeds commits what its statements did.
pub transact-ok :
    {A : Type 0} (m : Action A) (db : Database) {a : A} {after : Database}
    → transact m db ≡ (ok a, after)
    → m db ≡ (ok a, after)
transact-ok {A = A} m db {a = a} {after = after} h = settled (m db) h
  where
    settled : (x : Result A × Database) → settle db x ≡ (ok a, after) → x ≡ (ok a, after)
    settled (ok b, d) q = q
    settled (err b, d) q = cc

-- A method that raises leaves no trace.
pub transact-err :
    {A : Type 0} (m : Action A) (db : Database) {e : Error} {after : Database}
    → transact m db ≡ (err e, after)
    → after ≡ db
transact-err {A = A} m db {e = e} {after = after} h = settled (m db) h
  where
    settled : (x : Result A × Database) → settle db x ≡ (err e, after) → after ≡ db
    settled (ok b, d) q = cc
    settled (err b, d) q = cc

pub run-ok :
    (statement : Database → Result Database) (db : Database) {u : Unit {0}} {after : Database}
    → run statement db ≡ (ok u, after)
    → statement db ≡ ok after
run-ok statement db {u = u} {after = after} h = ran (statement db) h
  where
    ran : (r : Result Database) → written db r ≡ (ok u, after) → r ≡ ok after
    ran (ok d) q = cc
    ran (err e) q = cc

pub pure-ok :
    {A : Type 0} (a b : A) (db after : Database)
    → pure a db ≡ (ok b, after)
    → (a ≡ b) × (db ≡ after)
pure-ok a b db after h = (cc, cc)
