-- ===== src/Planning/Balance.antt =====
-- The replay of a timeline neither loses supply nor gives any of it twice.
use materials_management_sha.Planning.Visits.{
  Visit, share_of, changed, IfSome-of, at_project-visits, replay-cons, IfSome-some,
}
use materials_management_sha.Prelude.{
  ℕ, ◌+◌, ◌-◌, ◌≡◌, refl, Option, none, some, List, [], ◌∷◌, ◌++◌, arith, sum_by, sum_by-append,
  inl, inr, Option-cases, ap,
}
use materials_management_sha.Planning.{
  Source, append_planning_source, consume_planning_sources, sum_planning_sources,
}
use materials_management_sha.Planning.Pool.{supply, supply-append, consume_planning_sources-supply}
use materials_management_sha.Planning.Events.{Kind, dedicated_supply, generic_supply, demand, Event}
use materials_management_sha.Planning.Timeline.{
  Metric, Lane, Board, Share, append_all, deliver, start, recover, recover_all, at_project, step,
  replay,
}

supply-both : (y : Source) (a b : List Source) → supply y (a ++ b) ≡ supply y a + supply y b
unfolding supply
supply-both y a b = sum_by-append _ a b

supply-all :
    (y : Source) (target sources : List Source)
    → supply y (append_all target sources) ≡ supply y target + supply y sources
unfolding append_all supply sum_by
supply-all y target [] = omega arith
supply-all y target (x ∷ sources) =
    omega (arith, supply-all y (append_planning_source target x) sources, supply-append y target x)

-- What a project was given under a signature, on time or later.
unfoldable pub given : Source → Metric → ℕ
given y m = supply y m.supply_sources_by_start + supply y m.recovery_sources_after_start

unfoldable pub given_to : Source → Option Metric → ℕ
given_to y none = 0
given_to y (some m) = given y m

unfoldable pub lane_supply : Source → Lane → ℕ
lane_supply y l = given_to y l.metric + supply y l.ready

-- All that a board holds under a signature: the pool, and what the projects have.
unfoldable pub board_supply : Source → Board → ℕ
board_supply y b = supply y b.pool + sum_by (lane_supply y) b.lanes

unfoldable pub share_supply : Source → Share → ℕ
share_supply y s = given y s.metric + supply y s.ready + supply y s.pool

-- What an event brings.
unfoldable pub brings : Source → Kind → ℕ
brings y (dedicated_supply source pid) = supply y (source ∷ [])
brings y (generic_supply source) = supply y (source ∷ [])
brings y (demand n pid) = 0

deliver-supply :
    (y source : Source) (s : Share)
    → share_supply y (deliver source s) ≡ share_supply y s + supply y (source ∷ [])
unfolding deliver share_supply given
deliver-supply y source s =
    let m = s.metric in
    let c = consume_planning_sources (source ∷ []) m.pending_backlog_quantity in
    ground (
      arith,
      supply-all y s.ready (source ∷ []),
      supply-all y s.ready c.1,
      supply-all y m.recovery_sources_after_start c.0,
      (consume_planning_sources-supply (source ∷ []) m.pending_backlog_quantity).1 y,
    )

start-supply : (y : Source) (s : Share) → share_supply y (start s) ≡ share_supply y s
unfolding start share_supply given
start-supply y s =
    let required = s.metric.required_quantity in
    let c = consume_planning_sources s.ready required in
    let n = required - sum_planning_sources c.0 in
    let d = consume_planning_sources s.pool n in
    omega (
      arith,
      supply-all y s.metric.supply_sources_by_start (c.0 ++ d.0),
      supply-both y c.0 d.0,
      (consume_planning_sources-supply s.ready required).1 y,
      (consume_planning_sources-supply s.pool n).1 y,
    )

recover-supply :
    (y : Source) (sources : List Source) (m : Metric)
    → given y (recover sources m).0 + supply y (recover sources m).1 ≡ given y m + supply y sources
unfolding recover given
recover-supply y sources m =
    let c = consume_planning_sources sources m.pending_backlog_quantity in
    ground (
      arith,
      supply-all y m.recovery_sources_after_start c.0,
      (consume_planning_sources-supply sources m.pending_backlog_quantity).1 y,
    )

recover_all-supply :
    (y : Source) (sources : List Source) (lanes : List Lane)
    → sum_by (lane_supply y) (recover_all sources lanes).0 + supply y (recover_all sources lanes).1
      ≡ sum_by (lane_supply y) lanes + supply y sources
unfolding recover_all sum_by lane_supply given_to
recover_all-supply y sources [] = refl
recover_all-supply y sources (l ∷ lanes) = elim (Option-cases l.metric) [
  | inl e ↦ rw e (omega (arith, recover_all-supply y sources lanes))
  | inr (m, e) ↦
      rw e (
        ground
          (arith, recover-supply y sources m, recover_all-supply y (recover sources m).1 lanes))
]

lanes-supply :
    (y : Source) (before : List Lane) (l : Lane) (after : List Lane)
    → sum_by (lane_supply y) (before ++ l ∷ after)
      ≡ sum_by (lane_supply y) before + (lane_supply y l + sum_by (lane_supply y) after)
unfolding sum_by
lanes-supply y before l after = sum_by-append (lane_supply y) before (l ∷ after)

-- An event of one project brings what its part of it brings.
at_project-supply :
    (y : Source) (f : Share → Share) (n : ℕ)
    → ((s : Share) → share_supply y (f s) ≡ share_supply y s + n)
    → (pid : ℕ) (pool : List Source) (lanes : List Lane) (b : Board)
    → at_project f pid pool lanes ≡ some b
    → board_supply y b ≡ supply y pool + sum_by (lane_supply y) lanes + n
unfolding board_supply lane_supply given_to share_supply share_of changed
at_project-supply y f n h pid pool lanes b e =
    let v = IfSome-of (Visit f pid pool lanes) _ b e (at_project-visits f pid pool lanes) in
    let s = share_of v.metric v.lane pool in
    rw (v.old, v.new)
      (omega (
        arith,
        ap (given_to y) v.found,
        h s,
        lanes-supply y v.before v.lane v.after,
        lanes-supply y v.before (changed v.lane (f s)) v.after,
      ))

step-supply :
    (y : Source) (k : Kind) (b c : Board)
    → step k b ≡ some c
    → board_supply y c ≡ board_supply y b + brings y k
unfolding step brings board_supply
step-supply y (dedicated_supply source pid) b c e =
    at_project-supply y (deliver source) _ (deliver-supply y source) pid b.pool b.lanes c e
step-supply y (generic_supply source) b c e =
    IfSome-some (λ c. board_supply y c ≡ board_supply y b + supply y (source ∷ [])) _ c e
      (omega (
        arith,
        supply-all y b.pool (recover_all (source ∷ []) b.lanes).1,
        recover_all-supply y (source ∷ []) b.lanes,
      ))
step-supply y (demand n pid) b c e =
    at_project-supply y start 0 (λ s. omega (arith, start-supply y s)) pid b.pool b.lanes c e

-- A replay that ends neither loses supply nor gives any of it twice: of every kind of source, what
-- the projects were given, on time or later, what is ready for them and what is left in the pool
-- add up to what was there at the beginning and what the events brought.
pub replay-supply :
    (events : List Event) (b c : Board)
    → replay events b ≡ some c
    → (y : Source) → board_supply y c ≡ board_supply y b + sum_by (λ e. brings y e.kind) events
unfolding replay sum_by
replay-supply [] b c e y =
    IfSome-some (λ c. board_supply y c ≡ board_supply y b + 0) b c e (omega arith)
replay-supply (x ∷ events) b c e y =
    let (d, h, r) = replay-cons x events b c e in
    omega (arith, step-supply y x.kind b d h, replay-supply events d c r y)
