-- ===== src/Database/Triples.antt =====
-- Rules for proving what an action does, one for each way to build an action.
use materials_management_sha.Prelude.{◌≡◌, refl, Bool, true, false}
use materials_management_sha.Database.{
  Db, Error, Result, ok, err, Action, continue, ◌>>=◌, lift, raise_if,
}

-- What holds of the value and the database, if the call returns.
abbrev pub After : {A : Type 0} → (A → Db → Type 0) → Result (A × Db) → Type 0
After P (ok (a, s)) = P a s
After P (err e) = Unit

-- The call returns, and what holds then.
abbrev pub Returns : {A : Type 0} → (A → Db → Type 0) → Result (A × Db) → Type 0
Returns P (ok (a, s)) = P a s
Returns P (err e) = ⊥

module _ {A B : Type 0} where
  pub After-continue :
      (P : A → Db → Type 0) (Q : B → Db → Type 0) (x : Result (A × Db)) (f : A → Action B)
      → After P x
      → ((a : A) (s : Db) → P a s → After Q (f a s))
      → After Q (continue x f)
  After-continue P Q (ok (a, s)) f h k = k a s h
  After-continue P Q (err e) f h k = tt

  -- A call that reads only.
  pub After-reader :
      (P : A → Type 0) (Q : B → Db → Type 0) (x : Result (A × Db)) (f : A → Action B) (s : Db)
      → After (λ a s'. (s' ≡ s) × P a) x
      → ((a : A) → P a → After Q (f a s))
      → After Q (continue x f)
  After-reader P Q (ok (a, s')) f s h k = rw h.0 (k a h.1)
  After-reader P Q (err e) f s h k = tt

  pub Returns-continue :
      (P : A → Db → Type 0) (Q : B → Db → Type 0) (x : Result (A × Db)) (f : A → Action B)
      → Returns P x
      → ((a : A) (s : Db) → P a s → Returns Q (f a s))
      → Returns Q (continue x f)
  Returns-continue P Q (ok (a, s)) f h k = k a s h
  Returns-continue P Q (err e) f h k = absurd h

  pub After-lift :
      (Q : B → Db → Type 0) (x : Result A) (f : A → Action B) (s : Db)
      → ((a : A) → x ≡ ok a → After Q (f a s))
      → After Q ((lift x >>= f) s)
  After-lift Q (ok a) f s k = k a refl
  After-lift Q (err e) f s k = tt

module _ {B : Type 0} where
  -- The rest of a function behind a guard may use that the guard let it pass.
  pub After-raise_if :
      (Q : B → Db → Type 0) (b : Bool) (e : Error) (f : Unit {0} → Action B) (s : Db)
      → (b ≡ false → After Q (f tt s))
      → After Q ((raise_if b e >>= f) s)
  After-raise_if Q true e f s k = tt
  After-raise_if Q false e f s k = k refl

  pub Returns-raise_if :
      (Q : B → Db → Type 0) (b : Bool) (e : Error) (f : Unit {0} → Action B) (s : Db)
      → b ≡ false
      → Returns Q (f tt s)
      → Returns Q ((raise_if b e >>= f) s)
  Returns-raise_if Q true e f s h k = cc
  Returns-raise_if Q false e f s h k = k

module _ {A : Type 0} where
  pub After-map :
      (P Q : A → Db → Type 0) (x : Result (A × Db))
      → After P x
      → ((a : A) (s : Db) → P a s → Q a s)
      → After Q x
  After-map P Q (ok (a, s)) h k = k a s h
  After-map P Q (err e) h k = tt

  pub After-trivial : (x : Result (A × Db)) → After (λ a s. Unit) x
  After-trivial (ok (a, s)) = tt
  After-trivial (err e) = tt

  -- A call that is known to return.
  pub Returns-of :
      (P : A → Db → Type 0) (x : Result (A × Db)) {r : A × Db} → After P x → x ≡ ok r → Returns P x
  Returns-of P (ok (a, s)) h e = h
  Returns-of P (err e') h e = cc

  pub Returns-map :
      (P Q : A → Db → Type 0) (x : Result (A × Db))
      → Returns P x
      → ((a : A) (s : Db) → P a s → Q a s)
      → Returns Q x
  Returns-map P Q (ok (a, s)) h k = k a s h
  Returns-map P Q (err e) h k = absurd h

  pub After-both :
      (P Q : A → Db → Type 0) (x : Result (A × Db))
      → After P x
      → After Q x
      → After (λ a s. P a s × Q a s) x
  After-both P Q (ok (a, s)) h k = (h, k)
  After-both P Q (err e) h k = tt

  -- A call that returns, and what holds if it does.
  pub Returns-both :
      (P Q : A → Db → Type 0) (x : Result (A × Db))
      → Returns P x
      → After Q x
      → Returns (λ a s. P a s × Q a s) x
  Returns-both P Q (ok (a, s)) h k = (h, k)
  Returns-both P Q (err e) h k = absurd h
