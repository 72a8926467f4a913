-- ===== src/Planning.antt =====
-- The pools of supply that the project planning of backend/app/service.py takes from, in order:
-- `_planning_source_signature`, `_append_planning_source`, `_consume_planning_sources` and
-- `_sum_planning_sources`. A quantity that is not positive counts as 0 everywhere, so quantities are
-- natural numbers.
pub mod Pool
pub mod Events
pub mod Timeline
pub mod Visits
pub mod Balance
pub mod Outline
pub mod Metrics
pub mod Due
pub mod Sorting
pub mod Offers
pub mod Demands
pub mod Items
pub mod Idle
pub mod Plans
pub mod Allocate
pub mod DryRun
pub mod Assigned
use materials_management_sha.Prelude.{
  ℕ, ◌-◌, min, Bool, true, false, ◌&&◌, not, Option, none, some, List, [], ◌∷◌, ◌==◌, if◌then◌else◌,
  sum_by, keep, ◌+◌,
}
use materials_management_sha.Text.{Text, text_eq}

-- A source, as `_build_planning_source` makes it.
pub record Source : Type 0 where
  pub source_type : Text
  pub quantity : ℕ
  pub label : Text
  pub ref_id : Option ℕ
  pub project_id : Option ℕ
  pub date : Option ℕ
  pub status : Option Text

unfoldable pub same_number : Option ℕ → Option ℕ → Bool
same_number none none = true
same_number none (some b) = false
same_number (some a) none = false
same_number (some a) (some b) = a == b

unfoldable pub same_text : Option Text → Option Text → Bool
same_text none none = true
same_text none (some b) = false
same_text (some a) none = false
same_text (some a) (some b) = text_eq a b

-- `_planning_source_signature(a) == _planning_source_signature(b)`
unfoldable pub same_signature : Source → Source → Bool
same_signature a b =
    text_eq a.source_type b.source_type
    && same_number a.ref_id b.ref_id
    && same_number a.project_id b.project_id
    && same_number a.date b.date
    && same_text a.status b.status
    && text_eq a.label b.label

-- The loop of `_append_planning_source`, for a positive quantity.
unfoldable pub add_source : List Source → Source → List Source
add_source [] source = source ∷ []
add_source (x ∷ target) source =
    if same_signature x source
    then record x { quantity = x.quantity + source.quantity } ∷ target
    else x ∷ add_source target source

-- `_append_planning_source`
unfoldable pub append_planning_source : List Source → Source → List Source
append_planning_source target source =
    if source.quantity == 0 then target else add_source target source

-- The while loop, from the index on: what is consumed so far, and the sources as they are left. A
-- source that is not used up is the last, since nothing remains to be taken then.
unfoldable pub take_sources : List Source → ℕ → List Source → List Source × List Source
take_sources [] remaining taken = (taken, [])
take_sources (x ∷ sources) remaining taken =
    let used = min x.quantity remaining in
    let (skipped, unused) = take_sources sources remaining taken in
    let (more, rest) =
      take_sources sources (remaining - used)
        (append_planning_source taken (record x { quantity = used })) in
    if remaining == 0
    then (taken, x ∷ sources)
    else if x.quantity == 0
    then (skipped, x ∷ unused)
    else (more, record x { quantity = x.quantity - used } ∷ rest)

-- `_consume_planning_sources`: what is consumed, and what is left of the pool.
unfoldable pub consume_planning_sources : List Source → ℕ → List Source × List Source
consume_planning_sources sources quantity =
    let (taken, rest) = take_sources sources quantity [] in
    (taken, keep (λ x. not (x.quantity == 0)) rest)

-- `_sum_planning_sources`
unfoldable pub sum_planning_sources : List Source → ℕ
sum_planning_sources sources = sum_by (λ x. x.quantity) sources
