-- ===== src/Database.antt =====
-- The database behind backend/app/service.py, as a value that every function passes on.
--
-- A function of service.py that takes `conn` is an `Action`: it returns a value and the next
-- database, or raises. An error carries no database: backend/app/api.py commits only after a
-- request has succeeded, and closing the connection rolls back what was not committed.
pub mod Errors
pub mod Rows
pub mod Table
pub mod Triples
pub use Errors.*
pub use Rows.*
use materials_management_sha.Prelude.{
  ℕ, ◌≡◌, refl, Bool, true, false, Option, none, some, List, [], ◌∷◌, ◌==◌, if◌then◌else◌, arith,
}

abbrev pub Action : Type 0 → Type 0
Action A = Db → Result (A × Db)

abbrev pub continue : {A B : Type 0} → Result (A × Db) → (A → Action B) → Result (B × Db)
continue (ok (a, s)) f = f a s
continue (err e) f = err e

infixl 10 ◌>>=◌ ◌>>◌
abbrev pub ◌>>=◌ : {A B : Type 0} → Action A → (A → Action B) → Action B
◌>>=◌ m f s = continue (m s) f

abbrev pub ◌>>◌ : {A B : Type 0} → Action A → Action B → Action B
m >> n = m >>= λ _. n

module _ {A : Type 0} where
  abbrev pub pure : A → Action A
  pure a s = ok (a, s)

  abbrev pub raise : Error → Action A
  raise e s = err e

  abbrev pub lift : Result A → Action A
  lift (ok a) s = ok (a, s)
  lift (err e) s = err e

  abbrev pub gets : (Db → A) → Action A
  gets f s = ok (f s, s)

  abbrev pub or_raise : Option A → Error → Action A
  or_raise none e s = err e
  or_raise (some a) e s = ok (a, s)

abbrev pub modify : (Db → Db) → Action (Unit {0})
modify f s = ok (tt, f s)

-- `if test: raise`
abbrev pub raise_if : Bool → Error → Action (Unit {0})
raise_if true e s = err e
raise_if false e s = ok (tt, s)
