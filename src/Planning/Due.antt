-- ===== src/Planning/Due.antt =====
-- The figures of the projects of a board while its events are replayed.
use mathlib.Core.Path.{subst}
use materials_management_sha.Prelude.{
  ℕ, ◌+◌, ◌≡◌, ◌≢◌, refl, sym, Option, none, some, List, [], ◌∷◌, arith, ◌==◌, if◌then◌else◌,
  Option-cases, Bool-cases, inl, inr, ==_iff, ==_refl,
}
use materials_management_sha.Drain.Laws.{All}
use materials_management_sha.Database.Table.{find, IsKeyed}
use materials_management_sha.Planning.{Source}
use materials_management_sha.Planning.Events.{Kind, dedicated_supply, generic_supply, demand, Event}
use materials_management_sha.Planning.Timeline.{
  Metric, Lane, Board, Share, at_project, share_lane, behind, deliver, start, recover, recover_all,
  step, replay,
}
use materials_management_sha.Planning.Visits.{IfSome, IfSome-of, IfSome-some, replay-cons, share_of}
use materials_management_sha.Planning.Outline.{outline, outlines, named, step-outlines}
use materials_management_sha.Planning.Metrics.{IsDue, deliver-IsDue, recover-IsDue, start-IsDue}

-- The demands that are to come of each project, where `n` are to come after the event.
unfoldable pub with_event : Kind → (ℕ → ℕ) → ℕ → ℕ
with_event (dedicated_supply source p) n pid = n pid
with_event (generic_supply source) n pid = n pid
with_event (demand x p) n pid = if p == pid then n pid + 1 else n pid

-- How many demands of a project the events have.
unfoldable pub due : List Event → ℕ → ℕ
due [] pid = 0
due (e ∷ events) pid = with_event e.kind (due events) pid

unfoldable pub IsDueFor : ℕ → Option Metric → Type 0
IsDueFor n none = Unit
IsDueFor n (some m) = IsDue n m

unfoldable pub LaneIsDue : (ℕ → ℕ) → Lane → Type 0
LaneIsDue n l = IsDueFor (n l.project_id) l.metric

-- An event of one project: `n` demands are still to come of each project before it, `m` after it.
module _ (f : Share → Share) (n m : ℕ → ℕ) (pid : ℕ)
    (hit : (s : Share) → IsDue (n pid) s.metric → IsDue (m pid) (f s).metric)
    (miss : (q : ℕ) → q ≢ pid → n q ≡ m q) where
  others-Due :
      (lanes : List Lane)
      → find named pid (outlines lanes) ≡ none
      → All (LaneIsDue n) lanes
      → All (LaneIsDue m) lanes
  unfolding find outlines outline LaneIsDue
  others-Due [] h a = tt
  others-Due (l ∷ lanes) h a = elim (Bool-cases (l.project_id == pid)) [
    | inl e ↦ absurd (ground arith)
    | inr e ↦ (
      subst (λ k. IsDueFor k l.metric) (miss l.project_id (ground arith)) a.0,
      others-Due lanes (ground arith) a.1,
    )
  ]

  share_lane-Due :
      (pool : List Source) (lanes : List Lane) (l : Lane) (x : Option Metric)
      → l.project_id ≡ pid
      → IsDueFor (n l.project_id) x
      → All (LaneIsDue m) lanes
      → IfSome (λ b. All (LaneIsDue m) b.lanes) (share_lane f pool lanes l x)
  unfolding IfSome LaneIsDue IsDueFor share_of
  share_lane-Due pool lanes l none e h a = tt
  share_lane-Due pool lanes l (some x) e h a = (
    subst (λ q. IsDue (m q) (f (share_of x l pool)).metric) (sym e)
        (hit (share_of x l pool) (subst (λ q. IsDue (n q) x) e h)),
    a,
  )

  behind-Due :
      (l : Lane) (r : Option Board)
      → LaneIsDue m l
      → IfSome (λ b. All (LaneIsDue m) b.lanes) r
      → IfSome (λ b. All (LaneIsDue m) b.lanes) (behind l r)
  unfolding IfSome
  behind-Due l none h a = tt
  behind-Due l (some b) h a = (h, a)

  at_project-Due :
      (pool : List Source) (lanes : List Lane)
      → IsKeyed named (outlines lanes)
      → All (LaneIsDue n) lanes
      → IfSome (λ b. All (LaneIsDue m) b.lanes) (at_project f pid pool lanes)
  unfolding IfSome at_project LaneIsDue outlines outline
  at_project-Due pool [] k a = tt
  at_project-Due pool (l ∷ lanes) k a = elim (Bool-cases (l.project_id == pid)) [
    | inl e ↦
        let same = (==_iff l.project_id pid).0 e in
        rw e (
          share_lane-Due pool lanes l l.metric same a.0
            (others-Due lanes (subst (λ q. find named q (outlines lanes) ≡ none) same k.0) a.1))
    | inr e ↦ rw e (
        behind-Due l _ (subst (λ k. IsDueFor k l.metric) (miss l.project_id (ground arith)) a.0)
          (at_project-Due pool lanes k.1 a.1))
  ]

recover_all-Due :
    (n : ℕ → ℕ) (sources : List Source) (lanes : List Lane)
    → All (LaneIsDue n) lanes
    → All (LaneIsDue n) (recover_all sources lanes).0
unfolding recover_all LaneIsDue IsDueFor
recover_all-Due n sources [] a = tt
recover_all-Due n sources (l ∷ lanes) a = elim (Option-cases l.metric) [
  | inl e ↦ rw e (tt, recover_all-Due n sources lanes a.1)
  | inr (m, e) ↦
      let h = recover-IsDue (n l.project_id) sources m (subst (IsDueFor (n l.project_id)) e a.0) in
      elim (Bool-cases (recover sources m).2) [
        | inl s ↦ rw (e, s) (h, a.1)
        | inr s ↦ rw (e, s) (h, recover_all-Due n (recover sources m).1 lanes a.1)
      ]
]

-- A board with the demands still to come of each project.
pub record IsDueBoard (n : ℕ → ℕ) (b : Board) : Type 0 where
  pub distinct : IsKeyed named (outlines b.lanes)
  pub figures : All (LaneIsDue n) b.lanes

step-figures :
    (n : ℕ → ℕ) (k : Kind) (b c : Board)
    → step k b ≡ some c
    → IsDueBoard (with_event k n) b
    → All (LaneIsDue n) c.lanes
unfolding step with_event
step-figures n (dedicated_supply source pid) b c e h =
    IfSome-of (λ c. All (LaneIsDue n) c.lanes) _ c e
      (at_project-Due (deliver source) n n pid (deliver-IsDue (n pid) source) (λ q ne. refl) b.pool
        b.lanes h.distinct h.figures)
step-figures n (generic_supply source) b c e h =
    IfSome-some (λ c. All (LaneIsDue n) c.lanes) _ c e
      (recover_all-Due n (source ∷ []) b.lanes h.figures)
step-figures n (demand x pid) b c e h =
    IfSome-of (λ c. All (LaneIsDue n) c.lanes) _ c e
      (at_project-Due start (λ q. if pid == q then n q + 1 else n q) n pid
        (λ s. rw (==_refl pid) (start-IsDue (n pid) s)) (λ q ne. ground arith) b.pool b.lanes
        h.distinct h.figures)

pub replay-Due :
    (events : List Event) (b c : Board)
    → replay events b ≡ some c
    → IsDueBoard (due events) b
    → IsDueBoard (λ q. 0) c
unfolding replay due
replay-Due [] b c e h = IfSome-some (IsDueBoard (λ q. 0)) b c e h
replay-Due (x ∷ events) b c e h =
    let (d, s, r) = replay-cons x events b c e in
    replay-Due events d c r (record {
      distinct = subst (IsKeyed named) (sym (step-outlines x.kind b d s)) h.distinct;
      figures = step-figures (due events) x.kind b d s h;
    })
