-- ===== src/Planning/Pool.antt =====
-- The supply that a pool holds, by the signatures of its sources.
use materials_management_sha.Prelude.{
  ℕ, ◌+◌, ◌-◌, ◌≡◌, refl, min, true, not, Option, none, some, List, [], ◌∷◌, arith, ◌==◌,
  if◌then◌else◌, sum_by, keep, Bool-cases, inl, inr,
}
use materials_management_sha.Text.{Text, text_eq, text_eq_iff}
use materials_management_sha.Planning.{
  Source, same_number, same_text, same_signature, add_source, append_planning_source, take_sources,
  consume_planning_sources, sum_planning_sources,
}

-- What a list of sources holds under the signature of `y`.
unfoldable pub supply : Source → List Source → ℕ
supply y sources = sum_by (λ x. if same_signature x y then x.quantity else 0) sources

text_like : (a b c : Text) → text_eq a b ≡ true → text_eq a c ≡ text_eq b c
text_like a b c h = rw ((text_eq_iff a b).0 h)

number_like : (a b c : Option ℕ) → same_number a b ≡ true → same_number a c ≡ same_number b c
unfolding same_number
number_like a b c h = ground arith

optional_like : (a b c : Option Text) → same_text a b ≡ true → same_text a c ≡ same_text b c
unfolding same_text
optional_like none none c h = refl
optional_like none (some b) c h = ground arith
optional_like (some a) none c h = ground arith
optional_like (some a) (some b) none h = refl
optional_like (some a) (some b) (some c) h = text_like a b c h

like : (x s y : Source) → same_signature x s ≡ true → same_signature x y ≡ same_signature s y
unfolding same_signature
like x s y h = ground (
  arith,
  text_like x.source_type s.source_type y.source_type,
  number_like x.ref_id s.ref_id y.ref_id,
  number_like x.project_id s.project_id y.project_id,
  number_like x.date s.date y.date,
  optional_like x.status s.status y.status,
  text_like x.label s.label y.label,
)

signature_part :
    (x y : Source) (n : ℕ) → same_signature (record x { quantity = n }) y ≡ same_signature x y
unfolding same_signature
signature_part x y n = refl

supply-add :
    (y : Source) (target : List Source) (s : Source)
    → supply y (add_source target s)
      ≡ supply y target + (if same_signature s y then s.quantity else 0)
unfolding supply sum_by add_source
supply-add y [] s = omega arith
supply-add y (x ∷ target) s = elim (Bool-cases (same_signature x s)) [
  | inl e ↦ rw e (ground (arith, signature_part x y (x.quantity + s.quantity), like x s y e))
  | inr e ↦ rw e (omega (arith, supply-add y target s))
]

sum-add :
    (target : List Source) (s : Source)
    → sum_planning_sources (add_source target s) ≡ sum_planning_sources target + s.quantity
unfolding sum_planning_sources sum_by add_source
sum-add [] s = omega arith
sum-add (x ∷ target) s = ground (arith, sum-add target s)

pub supply-append :
    (y : Source) (target : List Source) (s : Source)
    → supply y (append_planning_source target s)
      ≡ supply y target + (if same_signature s y then s.quantity else 0)
unfolding append_planning_source
supply-append y target s = ground (arith, supply-add y target s)

pub sum-append :
    (target : List Source) (s : Source)
    → sum_planning_sources (append_planning_source target s)
      ≡ sum_planning_sources target + s.quantity
unfolding append_planning_source
sum-append target s = ground (arith, sum-add target s)

take-supply :
    (y : Source) (sources : List Source) (n : ℕ) (taken : List Source)
    → supply y (take_sources sources n taken).0 + supply y (take_sources sources n taken).1
      ≡ supply y taken + supply y sources
unfolding take_sources supply sum_by
take-supply y [] n taken = refl
take-supply y (x ∷ sources) n taken =
    let used = min x.quantity n in
    let part = record x { quantity = used } in
    ground (
      arith,
      signature_part x y used,
      signature_part x y (x.quantity - used),
      supply-append y taken part,
      take-supply y sources n taken,
      take-supply y sources (n - used) (append_planning_source taken part),
    )

take-sum :
    (sources : List Source) (n : ℕ) (taken : List Source)
    → sum_planning_sources (take_sources sources n taken).0
      ≡ sum_planning_sources taken + min n (sum_planning_sources sources)
unfolding take_sources sum_planning_sources sum_by
take-sum [] n taken = ground arith
take-sum (x ∷ sources) n taken =
    let used = min x.quantity n in
    let part = record x { quantity = used } in
    ground (
      arith,
      sum-append taken part,
      take-sum sources n taken,
      take-sum sources (n - used) (append_planning_source taken part),
    )

take-rest :
    (sources : List Source) (n : ℕ) (taken : List Source)
    → sum_planning_sources (take_sources sources n taken).1
      ≡ sum_planning_sources sources - min n (sum_planning_sources sources)
unfolding take_sources sum_planning_sources sum_by
take-rest [] n taken = ground arith
take-rest (x ∷ sources) n taken =
    let used = min x.quantity n in
    ground (
      arith,
      take-rest sources n taken,
      take-rest sources (n - used) (append_planning_source taken (record x { quantity = used })),
    )

sum-keep :
    (sources : List Source)
    → sum_planning_sources (keep (λ x. not (x.quantity == 0)) sources)
      ≡ sum_planning_sources sources
unfolding sum_planning_sources sum_by keep
sum-keep [] = refl
sum-keep (x ∷ sources) = ground (arith, sum-keep sources)

-- What a consumption leaves.
pub sum-left :
    (sources : List Source) (n : ℕ)
    → sum_planning_sources (consume_planning_sources sources n).1
      ≡ sum_planning_sources sources - min n (sum_planning_sources sources)
unfolding consume_planning_sources
sum-left sources n = omega (arith, sum-keep (take_sources sources n []).1, take-rest sources n [])

supply-keep :
    (y : Source) (sources : List Source)
    → supply y (keep (λ x. not (x.quantity == 0)) sources) ≡ supply y sources
unfolding supply sum_by keep
supply-keep y [] = refl
supply-keep y (x ∷ sources) = ground (arith, supply-keep y sources)

-- A consumption takes the quantity, or all where the pool has less, and of every kind of source
-- what is taken and what is left add up to what the pool had.
pub consume_planning_sources-supply :
    (sources : List Source) (n : ℕ)
    → (sum_planning_sources (consume_planning_sources sources n).0
        ≡ min n (sum_planning_sources sources))
      × ((y : Source)
          → supply y (consume_planning_sources sources n).0
              + supply y (consume_planning_sources sources n).1
            ≡ supply y sources)
unfolding consume_planning_sources supply sum_planning_sources sum_by
consume_planning_sources-supply sources n = (
  omega (arith, take-sum sources n []),
  λ y. omega (arith, take-supply y sources n [], supply-keep y (take_sources sources n []).1),
)
