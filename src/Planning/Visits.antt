-- ===== src/Planning/Visits.antt =====
-- What an event of one project changes of a board: the project's part, and the pool.
use materials_management_sha.Planning.Events.{Event}
use mathlib.Core.Path.{subst}
use materials_management_sha.Prelude.{
  ℕ, ◌≡◌, refl, ap, Option, none, some, List, [], ◌∷◌, ◌++◌, ◌==◌, ==_iff, Bool-cases, inl, inr,
}
use materials_management_sha.Planning.{Source}
use materials_management_sha.Planning.Timeline.{
  Metric, Lane, Board, Share, at_project, share_lane, behind, and_then, step, replay,
}

unfoldable pub share_of : Metric → Lane → List Source → Share
share_of m l pool = record { metric = m; ready = l.ready; pool = pool }

unfoldable pub changed : Lane → Share → Lane
changed l s = record l { metric = some s.metric; ready = s.ready }

-- The event finds the project, and changes it and the pool as `f` says.
pub record Visit (f : Share → Share) (pid : ℕ) (pool : List Source) (lanes : List Lane) (b : Board)
    : Type 0 where
  pub before : List Lane
  pub lane : Lane
  pub metric : Metric
  pub after : List Lane
  pub found : lane.metric ≡ some metric
  pub named : lane.project_id ≡ pid
  pub old : lanes ≡ before ++ lane ∷ after
  pub new : b ≡ record {
    pool = (f (share_of metric lane pool)).pool;
    lanes = before ++ changed lane (f (share_of metric lane pool)) ∷ after;
  }

-- What holds of a board that is there.
unfoldable pub IfSome : (Board → Type 0) → Option Board → Type 0
IfSome P none = Unit
IfSome P (some b) = P b

pub IfSome-of : (P : Board → Type 0) (r : Option Board) (b : Board) → r ≡ some b → IfSome P r → P b
unfolding IfSome
IfSome-of P r b e h = subst (IfSome P) e h

pub IfSome-some : (P : Board → Type 0) (b c : Board) → some b ≡ some c → P b → P c
unfolding IfSome
IfSome-some P b c e h = subst (IfSome P) e h

share_lane-visits :
    (f : Share → Share) (pid : ℕ) (pool : List Source) (lanes : List Lane) (l : Lane)
    (m : Option Metric)
    → l.metric ≡ m
    → l.project_id ≡ pid
    → IfSome (Visit f pid pool (l ∷ lanes)) (share_lane f pool lanes l m)
unfolding IfSome share_of changed
share_lane-visits f pid pool lanes l none h named = tt
share_lane-visits f pid pool lanes l (some m) h named = record {
  before = [];
  lane = l;
  metric = m;
  after = lanes;
  found = h;
  named = named;
  old = refl;
  new = refl;
}

behind-visits :
    (f : Share → Share) (pid : ℕ) (pool : List Source) (lanes : List Lane) (l : Lane)
    (r : Option Board)
    → IfSome (Visit f pid pool lanes) r
    → IfSome (Visit f pid pool (l ∷ lanes)) (behind l r)
unfolding IfSome
behind-visits f pid pool lanes l none v = tt
behind-visits f pid pool lanes l (some b) v = record {
  before = l ∷ v.before;
  lane = v.lane;
  metric = v.metric;
  after = v.after;
  found = v.found;
  named = v.named;
  old = ap (λ x. l ∷ x) v.old;
  new = ap {A = Board} (λ x. record x { lanes = l ∷ x.lanes }) v.new;
}

pub at_project-visits :
    (f : Share → Share) (pid : ℕ) (pool : List Source) (lanes : List Lane)
    → IfSome (Visit f pid pool lanes) (at_project f pid pool lanes)
unfolding at_project IfSome
at_project-visits f pid pool [] = tt
at_project-visits f pid pool (l ∷ lanes) = elim (Bool-cases (l.project_id == pid)) [
  | inl e ↦
      rw e (share_lane-visits f pid pool lanes l l.metric refl ((==_iff l.project_id pid).0 e))
  | inr e ↦ rw e (behind-visits f pid pool lanes l _ (at_project-visits f pid pool lanes))
]

then_some :
    (r : Option Board) (f : Board → Option Board) (c : Board)
    → and_then r f ≡ some c
    → (d : Board) × (r ≡ some d) × (f d ≡ some c)
then_some none f c e = absurd cc
then_some (some d) f c e = (d, refl, e)

-- A replay that ends is the first event and the replay of the others.
pub replay-cons :
    (x : Event) (events : List Event) (b c : Board)
    → replay (x ∷ events) b ≡ some c
    → (d : Board) × (step x.kind b ≡ some d) × (replay events d ≡ some c)
unfolding replay
replay-cons x events b c e = then_some (step x.kind b) (replay events) c e
