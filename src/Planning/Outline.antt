-- ===== src/Planning/Outline.antt =====
-- The part of a board that no event changes: which projects there are, and what each requires. It
-- decides which events are of a project without metrics of the item.
use materials_management_sha.Prelude.{
  ℕ, ◌≡◌, refl, ap, sym, ◌∙◌, Bool, true, false, ◌&&◌, Option, none, some, List, [], ◌∷◌, ◌==◌,
  arith, Option-cases, Bool-cases, inl, inr,
}
use materials_management_sha.Database.Table.{find}
use materials_management_sha.Planning.{Source}
use materials_management_sha.Planning.Events.{Kind, dedicated_supply, generic_supply, demand, Event}
use materials_management_sha.Planning.Timeline.{
  Metric, Lane, Board, Share, at_project, share_lane, behind, deliver, start, recover, recover_all,
  step, replay,
}
use materials_management_sha.Planning.Visits.{IfSome, IfSome-of, IfSome-some, replay-cons, share_of}

unfoldable pub required_of : Option Metric → Option ℕ
required_of none = none
required_of (some m) = some m.required_quantity

-- A project and what it requires.
unfoldable pub outline : Lane → ℕ × Option ℕ
outline l = (l.project_id, required_of l.metric)

unfoldable pub outlines : List Lane → List (ℕ × Option ℕ)
outlines [] = []
outlines (l ∷ lanes) = outline l ∷ outlines lanes

abbrev pub named : ℕ × Option ℕ → ℕ
named x = x.0

unfoldable pub requires : Option (ℕ × Option ℕ) → Bool
requires none = false
requires (some (pid, none)) = false
requires (some (pid, some n)) = true

-- Whether an event finds the metrics that it needs.
unfoldable pub finds_metric : List (ℕ × Option ℕ) → Kind → Bool
finds_metric shape (dedicated_supply source pid) = requires (find named pid shape)
finds_metric shape (generic_supply source) = true
finds_metric shape (demand n pid) = requires (find named pid shape)

unfoldable pub all_find : List (ℕ × Option ℕ) → List Event → Bool
all_find shape [] = true
all_find shape (e ∷ events) = finds_metric shape e.kind && all_find shape events

unfoldable pub is_there : {A : Type 0} → Option A → Bool
is_there none = false
is_there (some a) = true

module _ (f : Share → Share)
    (keeps : (s : Share) → (f s).metric.required_quantity ≡ s.metric.required_quantity) where
  share_lane-outlines :
      (pool : List Source) (lanes : List Lane) (l : Lane) (m : Option Metric)
      → IfSome
          (λ b. outlines b.lanes ≡ (l.project_id, required_of m) ∷ outlines lanes)
          (share_lane f pool lanes l m)
  unfolding IfSome outlines outline required_of share_of
  share_lane-outlines pool lanes l none = tt
  share_lane-outlines pool lanes l (some m) =
      ap (λ n. (l.project_id, some n) ∷ outlines lanes) (keeps (share_of m l pool))

  behind-outlines :
      (l : Lane) (lanes : List Lane) (r : Option Board)
      → IfSome (λ b. outlines b.lanes ≡ outlines lanes) r
      → IfSome (λ b. outlines b.lanes ≡ outline l ∷ outlines lanes) (behind l r)
  unfolding IfSome outlines
  behind-outlines l lanes none h = tt
  behind-outlines l lanes (some b) h = rw h refl

  at_project-outlines :
      (pid : ℕ) (pool : List Source) (lanes : List Lane)
      → IfSome (λ b. outlines b.lanes ≡ outlines lanes) (at_project f pid pool lanes)
  unfolding IfSome outlines outline at_project
  at_project-outlines pid pool [] = tt
  at_project-outlines pid pool (l ∷ lanes) = elim (Bool-cases (l.project_id == pid)) [
    | inl e ↦ rw e (share_lane-outlines pool lanes l l.metric)
    | inr e ↦ rw e (behind-outlines l lanes _ (at_project-outlines pid pool lanes))
  ]

recover-required :
    (sources : List Source) (m : Metric)
    → (recover sources m).0.required_quantity ≡ m.required_quantity
unfolding recover
recover-required sources m = ground arith

recover_all-outlines :
    (sources : List Source) (lanes : List Lane)
    → outlines (recover_all sources lanes).0 ≡ outlines lanes
unfolding recover_all outlines outline required_of
recover_all-outlines sources [] = refl
recover_all-outlines sources (l ∷ lanes) = elim (Option-cases l.metric) [
  | inl e ↦ rw (e, recover_all-outlines sources lanes) refl
  | inr (m, e) ↦
      rw e (
        ground
          (arith, recover-required sources m, recover_all-outlines (recover sources m).1 lanes))
]

share_lane-is_there :
    (f : Share → Share) (pool : List Source) (lanes : List Lane) (l : Lane) (m : Option Metric)
    → is_there (share_lane f pool lanes l m) ≡ requires (some (l.project_id, required_of m))
unfolding is_there requires required_of
share_lane-is_there f pool lanes l none = refl
share_lane-is_there f pool lanes l (some m) = refl

behind-is_there : (l : Lane) (r : Option Board) → is_there (behind l r) ≡ is_there r
unfolding is_there
behind-is_there l none = refl
behind-is_there l (some b) = refl

-- Whether an event of a project finds the project's metrics decides whether it goes on.
at_project-is_there :
    (f : Share → Share) (pid : ℕ) (pool : List Source) (lanes : List Lane)
    → is_there (at_project f pid pool lanes) ≡ requires (find named pid (outlines lanes))
unfolding at_project find outlines outline is_there requires
at_project-is_there f pid pool [] = refl
at_project-is_there f pid pool (l ∷ lanes) = elim (Bool-cases (l.project_id == pid)) [
  | inl e ↦ rw e (share_lane-is_there f pool lanes l l.metric)
  | inr e ↦ rw e (behind-is_there l _ ∙ at_project-is_there f pid pool lanes)
]

deliver-required :
    (source : Source) (s : Share)
    → (deliver source s).metric.required_quantity ≡ s.metric.required_quantity
unfolding deliver
deliver-required source s = ground arith

start-required : (s : Share) → (start s).metric.required_quantity ≡ s.metric.required_quantity
unfolding start
start-required s = refl

-- No event changes which projects there are or what they require.
pub step-outlines :
    (k : Kind) (b c : Board) → step k b ≡ some c → outlines c.lanes ≡ outlines b.lanes
unfolding step
step-outlines (dedicated_supply source pid) b c e =
    IfSome-of (λ c. outlines c.lanes ≡ outlines b.lanes) _ c e
      (at_project-outlines (deliver source) (deliver-required source) pid b.pool b.lanes)
step-outlines (generic_supply source) b c e =
    IfSome-some (λ c. outlines c.lanes ≡ outlines b.lanes) _ c e
      (recover_all-outlines (source ∷ []) b.lanes)
step-outlines (demand n pid) b c e =
    IfSome-of (λ c. outlines c.lanes ≡ outlines b.lanes) _ c e
      (at_project-outlines start start-required pid b.pool b.lanes)

step-is_there : (k : Kind) (b : Board) → is_there (step k b) ≡ finds_metric (outlines b.lanes) k
unfolding step finds_metric is_there
step-is_there (dedicated_supply source pid) b =
    at_project-is_there (deliver source) pid b.pool b.lanes
step-is_there (generic_supply source) b = refl
step-is_there (demand n pid) b = at_project-is_there start pid b.pool b.lanes

-- The replay ends with a result, without a KeyError, exactly where the project of every dedicated
-- supply and of every demand is of the planning and requires the item.
pub replay-is_there :
    (events : List Event) (b : Board)
    → is_there (replay events b) ≡ all_find (outlines b.lanes) events
unfolding replay all_find is_there
replay-is_there [] b = refl
replay-is_there (e ∷ events) b = elim (Option-cases (step e.kind b)) [
  | inl h ↦ rw (h, sym (step-is_there e.kind b) ∙ ap is_there h) refl
  | inr (c, h) ↦
      rw (h, sym (step-is_there e.kind b) ∙ ap is_there h)
        (replay-is_there events c ∙ ap (λ x. all_find x events) (step-outlines e.kind b c h))
]

-- A replay that ends has the projects that it started with, and what they require.
pub replay-outlines :
    (events : List Event) (b c : Board)
    → replay events b ≡ some c
    → outlines c.lanes ≡ outlines b.lanes
unfolding replay
replay-outlines [] b c e = IfSome-some (λ c. outlines c.lanes ≡ outlines b.lanes) b c e refl
replay-outlines (x ∷ events) b c e =
    let (d, h, r) = replay-cons x events b c e in
    replay-outlines events d c r ∙ step-outlines x.kind b d h
