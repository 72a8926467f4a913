-- ===== src/Orders/Checks.antt =====
-- What `update_order` of backend/app/service.py reads before it writes.
use materials_management_sha.Prelude.{ℕ, ◌≡◌, refl, Option, none, some, arith}
use materials_management_sha.Database.{Db, ok, err, Result, lift, pure}
use materials_management_sha.Database.Triples.{After, After-reader, After-raise_if}
use materials_management_sha.Reservation.Create.{require_project}
use materials_management_sha.Orders.Update.{
  ordered_procurement_project, ordered_rfq_project, check_project, or_procurement, owner_of,
  split_date,
}

project-After : (p : Option ℕ) (s : Db) → After (λ _ s'. (s' ≡ s) × Unit {0}) (require_project p s)
unfolding require_project
project-After none s = (refl, tt)
project-After (some p) s = ground arith

lift-After : {A : Type 0} (x : Result A) (s : Db) → After (λ _ s'. (s' ≡ s) × Unit {0}) (lift x s)
lift-After (ok a) s = (refl, tt)
lift-After (err e) s = tt

procurement-After :
    (id : ℕ) (s : Db) → After (λ _ s'. (s' ≡ s) × Unit {0}) (ordered_procurement_project id s)
unfolding ordered_procurement_project
procurement-After id s = lift-After _ s

rfq-After : (id : ℕ) (s : Db) → After (λ _ s'. (s' ≡ s) × Unit {0}) (ordered_rfq_project id s)
unfolding ordered_rfq_project
rfq-After id s = lift-After _ s

pub check_project-After :
    (id : ℕ) (project : Option (Option ℕ)) (s : Db)
    → After (λ _ s'. (s' ≡ s) × Unit {0}) (check_project id project s)
unfolding check_project
check_project-After id none s = (refl, tt)
check_project-After id (some p) s =
    let Q : Option ℕ → Db → Type 0 = λ _ s'. (s' ≡ s) × Unit {0} in
    After-reader (λ _. Unit) Q _ _ s (project-After p s)
      λ _ _.
        After-reader (λ _. Unit) Q _ _ s (procurement-After id s)
          λ a _.
            After-reader (λ _. Unit) Q _ _ s (rfq-After id s)
              λ b _. After-raise_if Q _ _ (λ _. pure b) s λ _. (refl, tt)

or_procurement-After :
    (id : ℕ) (rfq : Option ℕ) (s : Db)
    → After (λ _ s'. (s' ≡ s) × Unit {0}) (or_procurement id rfq s)
unfolding or_procurement
or_procurement-After id none s = procurement-After id s
or_procurement-After id (some p) s = (refl, tt)

pub owner_of-After :
    (id : ℕ) (rfq : Option ℕ) (s : Db) → After (λ _ s'. (s' ≡ s) × Unit {0}) (owner_of id rfq s)
unfolding owner_of
owner_of-After id (some p) s = (refl, tt)
owner_of-After id none s =
    After-reader (λ _. Unit) (λ _ s'. (s' ≡ s) × Unit {0}) _ _ s (rfq-After id s)
      λ r _. or_procurement-After id r s

pub split_date-After :
    (eta : Option ℕ) (id : ℕ) (s : Db) → After (λ _ s'. (s' ≡ s) × Unit {0}) (split_date id eta s)
unfolding split_date
split_date-After none id s = tt
split_date-After (some d) id s = (refl, tt)
