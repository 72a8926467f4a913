-- ===== src/Planning/Metrics.antt =====
-- The figures of a project after a replay: they agree with each other, with the sources that they
-- list, and with what the project requires.
use materials_management_sha.Prelude.{
  ℕ, ◌+◌, ◌-◌, ◌≤◌, ◌≡◌, ◌⊎◌, refl, min, List, [], ◌∷◌, ◌++◌, arith, ◌==◌, if◌then◌else◌, sum_by,
  sum_by-append, Bool-cases, inl, inr,
}
use materials_management_sha.Planning.{
  Source, append_planning_source, consume_planning_sources, sum_planning_sources,
}
use materials_management_sha.Planning.Pool.{sum-append, consume_planning_sources-supply}
use materials_management_sha.Planning.Timeline.{
  Metric, Share, append_all, deliver, start, recover, new_metric,
}

pub sum-all :
    (target sources : List Source)
    → sum_planning_sources (append_all target sources)
      ≡ sum_planning_sources target + sum_planning_sources sources
unfolding append_all sum_planning_sources sum_by
sum-all target [] = omega arith
sum-all target (x ∷ sources) =
    omega (arith, sum-all (append_planning_source target x) sources, sum-append target x)

pub sum-both :
    (a b : List Source)
    → sum_planning_sources (a ++ b) ≡ sum_planning_sources a + sum_planning_sources b
unfolding sum_planning_sources
sum-both a b = sum_by-append (λ x. x.quantity) a b

pub sum-taken :
    (sources : List Source) (n : ℕ)
    → sum_planning_sources (consume_planning_sources sources n).0
      ≡ min n (sum_planning_sources sources)
sum-taken sources n = (consume_planning_sources-supply sources n).0

-- The figures agree with each other and with the sources that they list.
pub record IsSound (m : Metric) : Type 0 where
  pub covered :
      m.covered_on_time_quantity ≡ m.dedicated_supply_by_start + m.generic_allocated_quantity
  pub on_time : sum_planning_sources m.supply_sources_by_start ≡ m.covered_on_time_quantity
  pub allocated : m.generic_allocated_quantity ≤ m.generic_available_at_start
  pub recovered :
      m.recovered_after_start_quantity
      ≡ m.future_generic_recovery_quantity + m.future_dedicated_recovery_quantity
  pub later : sum_planning_sources m.recovery_sources_after_start ≡ m.recovered_after_start_quantity
  pub lacking : m.pending_backlog_quantity + m.recovered_after_start_quantity ≡ m.shortage_at_start

-- What is covered and what is short is what is required.
unfoldable pub IsSettled : Metric → Type 0
IsSettled m = m.covered_on_time_quantity + m.shortage_at_start ≡ m.required_quantity

unfoldable pub IsWaiting : Metric → Type 0
IsWaiting m = (m.covered_on_time_quantity ≡ 0) × (m.shortage_at_start ≡ 0)

-- The figures of a project with `n` demands still to come.
unfoldable pub IsDue : ℕ → Metric → Type 0
IsDue n m = IsSound m × (((n ≡ 0) × IsSettled m) ⊎ ((n ≡ 1) × IsWaiting m))

deliver-IsSound :
    (source : Source) (s : Share) → IsSound s.metric → IsSound (deliver source s).metric
unfolding deliver
deliver-IsSound source s h = elim (Bool-cases (s.metric.pending_backlog_quantity == 0)) [
  | inl e ↦ rw e h
  | inr e ↦
      let m = s.metric in
      let c = consume_planning_sources (source ∷ []) m.pending_backlog_quantity in
      rw e (record {
        covered = h.covered;
        on_time = h.on_time;
        allocated = h.allocated;
        recovered = omega (arith, h.recovered);
        later = omega (arith, h.later, sum-all m.recovery_sources_after_start c.0);
        lacking = omega (arith, h.lacking, sum-taken (source ∷ []) m.pending_backlog_quantity);
      })
]

recover-IsSound : (sources : List Source) (m : Metric) → IsSound m → IsSound (recover sources m).0
unfolding recover
recover-IsSound sources m h = elim (Bool-cases (m.pending_backlog_quantity == 0)) [
  | inl e ↦ rw e h
  | inr e ↦
      let c = consume_planning_sources sources m.pending_backlog_quantity in
      rw e (record {
        covered = h.covered;
        on_time = h.on_time;
        allocated = h.allocated;
        recovered = omega (arith, h.recovered);
        later = omega (arith, h.later, sum-all m.recovery_sources_after_start c.0);
        lacking = omega (arith, h.lacking, sum-taken sources m.pending_backlog_quantity);
      })
]

start-IsSound :
    (s : Share)
    → IsSound s.metric
    → IsWaiting s.metric
    → IsSound (start s).metric × IsSettled (start s).metric
unfolding start IsWaiting IsSettled
start-IsSound s h w =
    let required = s.metric.required_quantity in
    let c = consume_planning_sources s.ready required in
    let own = sum_planning_sources c.0 in
    let d = consume_planning_sources s.pool (required - own) in
    let taken = sum-taken s.ready required in
    let shared = sum-taken s.pool (required - own) in
    (
      record {
        covered = refl;
        on_time = omega (
          arith,
          h.on_time,
          w.0,
          sum-all s.metric.supply_sources_by_start (c.0 ++ d.0),
          sum-both c.0 d.0,
        );
        allocated = omega (arith, shared);
        recovered = omega (arith, h.recovered);
        later = omega (arith, h.later);
        lacking = omega (arith, h.lacking, w.1);
      },
      omega (arith, taken, shared),
    )

pub deliver-IsDue :
    (n : ℕ) (source : Source) (s : Share) → IsDue n s.metric → IsDue n (deliver source s).metric
unfolding IsDue IsSettled IsWaiting deliver
deliver-IsDue n source s h = (deliver-IsSound source s h.0, ground (arith, h.1))

pub recover-IsDue :
    (n : ℕ) (sources : List Source) (m : Metric) → IsDue n m → IsDue n (recover sources m).0
unfolding IsDue IsSettled IsWaiting recover
recover-IsDue n sources m h = (recover-IsSound sources m h.0, ground (arith, h.1))

pub start-IsDue : (n : ℕ) (s : Share) → IsDue (n + 1) s.metric → IsDue n (start s).metric
unfolding IsDue
start-IsDue n s h = elim h.1 [
  | inl (z, e) ↦ absurd (omega arith)
  | inr (z, w) ↦ let (sound, settled) = start-IsSound s h.0 w in (sound, inl (omega arith, settled))
]

pub new_metric-IsSound : (n : ℕ) → IsSound (new_metric n)
unfolding new_metric sum_planning_sources sum_by
new_metric-IsSound n = record {
  covered = refl;
  on_time = refl;
  allocated = omega arith;
  recovered = refl;
  later = refl;
  lacking = refl;
}

-- Before its start a project is due once, unless it requires nothing.
pub new_metric-IsDue : (n : ℕ) → IsDue (if n == 0 then 0 else 1) (new_metric n)
unfolding IsDue IsSettled IsWaiting new_metric
new_metric-IsDue n = (new_metric-IsSound n, ground arith)
