-- ===== src/Planning/Idle.antt =====
-- The supply that a board holds unused, and the backlogs of its projects.
use mathlib.Core.Path.{subst}
use materials_management_sha.Prelude.{
  ℕ, ◌+◌, ◌-◌, ◌≤◌, ◌≡◌, ◌⊎◌, refl, ap, true, false, Option, none, some, List, [], ◌∷◌, ◌++◌, arith,
  sum_by, sum_by-append, Option-cases, Bool-cases, inl, inr,
}
use materials_management_sha.Drain.Laws.{All}
use materials_management_sha.Planning.{Source, consume_planning_sources, sum_planning_sources}
use materials_management_sha.Planning.Pool.{sum-left}
use materials_management_sha.Planning.Events.{Kind, dedicated_supply, generic_supply, demand, Event}
use materials_management_sha.Planning.Timeline.{
  Metric, Lane, Board, Share, at_project, deliver, start, recover, recover_all, step, replay,
}
use materials_management_sha.Planning.Visits.{
  IfSome-of, IfSome-some, replay-cons, share_of, changed, Visit, at_project-visits,
}
use materials_management_sha.Planning.Metrics.{sum-all, sum-taken}

unfoldable pub pending : Option Metric → ℕ
pending none = 0
pending (some m) = m.pending_backlog_quantity

unfoldable pub backlog : Lane → ℕ
backlog l = pending l.metric

unfoldable pub backlogs : List Lane → ℕ
backlogs lanes = sum_by backlog lanes

-- A project with a backlog has no supply of its own left.
unfoldable pub IsUsed : Lane → Type 0
IsUsed l = (backlog l ≡ 0) ⊎ (sum_planning_sources l.ready ≡ 0)

-- Nothing that a project lacks lies unused: while any project has a backlog the pool is empty, and a
-- project with a backlog has no supply of its own left.
pub record IsThrifty (b : Board) : Type 0 where
  pub shared : (sum_planning_sources b.pool ≡ 0) ⊎ (backlogs b.lanes ≡ 0)
  pub owned : All IsUsed b.lanes

-- What an event of one project may do to it and to the pool.
pub record IsFair (f : Share → Share) : Type 0 where
  pub takes : (s : Share) → sum_planning_sources (f s).pool ≤ sum_planning_sources s.pool
  pub leaves :
      (s : Share)
      → (sum_planning_sources (f s).pool ≡ 0)
        ⊎ ((f s).metric.pending_backlog_quantity ≤ s.metric.pending_backlog_quantity)
  pub uses :
      (s : Share)
      → (s.metric.pending_backlog_quantity ≡ 0) ⊎ (sum_planning_sources s.ready ≡ 0)
      → ((f s).metric.pending_backlog_quantity ≡ 0) ⊎ (sum_planning_sources (f s).ready ≡ 0)

deliver-IsFair : (source : Source) → IsFair (deliver source)
unfolding deliver
deliver-IsFair source = record {
  takes = λ s. ground arith;
  leaves = λ s. inr (ground arith);
  uses = λ s h.
      let n = s.metric.pending_backlog_quantity in
      ground (
        arith,
        sum-all s.ready (consume_planning_sources (source ∷ []) n).1,
        sum-taken (source ∷ []) n,
        sum-left (source ∷ []) n,
      );
}

start-IsFair : IsFair start
unfolding start
start-IsFair = record {
  takes = λ s.
      let required = s.metric.required_quantity in
      let own = sum_planning_sources (consume_planning_sources s.ready required).0 in
      omega (arith, sum-left s.pool (required - own));
  leaves = λ s.
      let required = s.metric.required_quantity in
      let own = sum_planning_sources (consume_planning_sources s.ready required).0 in
      ground (arith, sum-left s.pool (required - own), sum-taken s.pool (required - own));
  uses = λ s h.
      let required = s.metric.required_quantity in
      let own = sum_planning_sources (consume_planning_sources s.ready required).0 in
      ground (
        arith,
        sum-left s.ready required,
        sum-taken s.ready required,
        sum-taken s.pool (required - own),
      );
}

All-split :
    (P : Lane → Type 0) (before : List Lane) (l k : Lane) (after : List Lane)
    → (P l → P k)
    → All P (before ++ l ∷ after)
    → All P (before ++ k ∷ after)
All-split P [] l k after h a = (h a.0, a.1)
All-split P (x ∷ before) l k after h a = (a.0, All-split P before l k after h a.1)

backlogs-split :
    (before : List Lane) (l : Lane) (after : List Lane)
    → backlogs (before ++ l ∷ after) ≡ backlogs before + (backlog l + backlogs after)
unfolding backlogs sum_by
backlogs-split before l after = sum_by-append backlog before (l ∷ after)

at_project-Thrifty :
    (f : Share → Share) (pid : ℕ) (b c : Board)
    → IsFair f
    → at_project f pid b.pool b.lanes ≡ some c
    → IsThrifty b
    → IsThrifty c
unfolding IsUsed backlog pending share_of changed
at_project-Thrifty f pid b c fair e h =
    let v = IfSome-of (Visit f pid b.pool b.lanes) _ c e (at_project-visits f pid b.pool b.lanes) in
    let s = share_of v.metric v.lane b.pool in
    rw v.new (record {
      shared = ground (
        arith,
        fair.takes s,
        fair.leaves s,
        h.shared,
        ap backlogs v.old,
        ap pending v.found,
        backlogs-split v.before v.lane v.after,
        backlogs-split v.before (changed v.lane (f s)) v.after,
      );
      owned =
          All-split IsUsed v.before v.lane (changed v.lane (f s)) v.after
            (λ u.
              fair.uses s
                (subst (λ x. (pending x ≡ 0) ⊎ (sum_planning_sources v.lane.ready ≡ 0)) v.found u))
            (subst (All IsUsed) v.old h.owned);
    })

recover-takes :
    (sources : List Source) (m : Metric)
    → ((recover sources m).0.pending_backlog_quantity ≤ m.pending_backlog_quantity)
      × ((recover sources m).2 ≡ true → sum_planning_sources (recover sources m).1 ≡ 0)
      × ((recover sources m).2 ≡ false → (recover sources m).0.pending_backlog_quantity ≡ 0)
unfolding recover
recover-takes sources m =
    let n = m.pending_backlog_quantity in ground (arith, sum-taken sources n, sum-left sources n)

-- Where something is left of a supply of no project, no project has a backlog.
recover_all-backlogs :
    (sources : List Source) (lanes : List Lane)
    → (backlogs (recover_all sources lanes).0 ≤ backlogs lanes)
      × ((backlogs (recover_all sources lanes).0 ≡ 0)
          ⊎ (sum_planning_sources (recover_all sources lanes).1 ≡ 0))
unfolding recover_all backlogs sum_by backlog pending
recover_all-backlogs sources [] = (omega arith, inl refl)
recover_all-backlogs sources (l ∷ lanes) = elim (Option-cases l.metric) [
  | inl e ↦ rw e (ground (arith, recover_all-backlogs sources lanes))
  | inr (m, e) ↦
      rw e
        (ground (arith, recover-takes sources m, recover_all-backlogs (recover sources m).1 lanes))
]

recover_all-Used :
    (sources : List Source) (lanes : List Lane)
    → All IsUsed lanes
    → All IsUsed (recover_all sources lanes).0
unfolding recover_all IsUsed backlog pending
recover_all-Used sources [] h = tt
recover_all-Used sources (l ∷ lanes) h = elim (Option-cases l.metric) [
  | inl e ↦ rw e (inl refl, recover_all-Used sources lanes h.1)
  | inr (m, e) ↦
      let u = subst (λ x. (pending x ≡ 0) ⊎ (sum_planning_sources l.ready ≡ 0)) e h.0 in
      elim (Bool-cases (recover sources m).2) [
        | inl s ↦ rw (e, s) (ground (arith, u, recover-takes sources m), h.1)
        | inr s ↦
            rw (e, s)
              (
                ground (arith, u, recover-takes sources m),
                recover_all-Used (recover sources m).1 lanes h.1,
              )
      ]
]

step-Thrifty : (k : Kind) (b c : Board) → step k b ≡ some c → IsThrifty b → IsThrifty c
unfolding step
step-Thrifty (dedicated_supply source pid) b c e h =
    at_project-Thrifty (deliver source) pid b c (deliver-IsFair source) e h
step-Thrifty (generic_supply source) b c e h =
    let (lanes, rest) = recover_all (source ∷ []) b.lanes in
    IfSome-some IsThrifty _ c e (record {
      shared =
          ground (arith, h.shared, sum-all b.pool rest, recover_all-backlogs (source ∷ []) b.lanes);
      owned = recover_all-Used (source ∷ []) b.lanes h.owned;
    })
step-Thrifty (demand n pid) b c e h = at_project-Thrifty start pid b c start-IsFair e h

-- A replay that ends leaves no project short while supply that it could take lies unused: if any
-- project still has a backlog the pool is empty, and a project with a backlog has no supply of its
-- own left.
pub replay-Thrifty :
    (events : List Event) (b c : Board) → replay events b ≡ some c → IsThrifty b → IsThrifty c
unfolding replay
replay-Thrifty [] b c e h = IfSome-some IsThrifty b c e h
replay-Thrifty (x ∷ events) b c e h =
    let (d, s, r) = replay-cons x events b c e in
    replay-Thrifty events d c r (step-Thrifty x.kind b d s h)
