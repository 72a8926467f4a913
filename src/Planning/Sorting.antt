-- ===== src/Planning/Sorting.antt =====
-- The order in which the planning replays the events of an item.
use materials_management_sha.Database.{Order}
use materials_management_sha.Prelude.{
  ℕ, ◌+◌, ◌≡◌, refl, true, false, List, [], ◌∷◌, arith, sum_by, Bool-cases, inl, inr, ◌≤◌,
}
use materials_management_sha.Drain.Laws.{All}
use materials_management_sha.Planning.Events.{
  Event, comes_before, insert_event, sort_events, item_events, appended, Planned, QuotedLine,
}

-- Each event's key is at most that of all that follow.
unfoldable pub IsOrdered : List Event → Type 0
IsOrdered [] = Unit
IsOrdered (e ∷ events) = All (λ x. comes_before e x ≡ true) events × IsOrdered events

before_total : (a b : Event) → comes_before a b ≡ false → comes_before b a ≡ true
unfolding comes_before
before_total a b h = ground arith

before_trans :
    (a b c : Event) → comes_before a b ≡ true → comes_before b c ≡ true → comes_before a c ≡ true
unfolding comes_before
before_trans a b c h k = ground arith

All-before :
    (a b : Event) (events : List Event)
    → comes_before a b ≡ true
    → All (λ x. comes_before b x ≡ true) events
    → All (λ x. comes_before a x ≡ true) events
All-before a b [] h k = tt
All-before a b (x ∷ events) h k = (before_trans a b x h k.0, All-before a b events h k.1)

All-insert :
    (P : Event → Type 0) (e : Event) (events : List Event)
    → P e
    → All P events
    → All P (insert_event e events)
unfolding insert_event
All-insert P e [] h k = (h, tt)
All-insert P e (x ∷ events) h k = elim (Bool-cases (comes_before e x)) [
  | inl b ↦ rw b (h, k)
  | inr b ↦ rw b (k.0, All-insert P e events h k.1)
]

insert_event-Ordered :
    (e : Event) (events : List Event) → IsOrdered events → IsOrdered (insert_event e events)
unfolding insert_event IsOrdered
insert_event-Ordered e [] h = (tt, tt)
insert_event-Ordered e (x ∷ events) h = elim (Bool-cases (comes_before e x)) [
  | inl b ↦ rw b ((b, All-before e x events b h.0), h)
  | inr b ↦ rw b (
    All-insert (λ y. comes_before x y ≡ true) e events (before_total e x b) h.0,
    insert_event-Ordered e events h.1,
  )
]

pub sum-insert_event :
    (w : Event → ℕ) (e : Event) (events : List Event)
    → sum_by w (insert_event e events) ≡ w e + sum_by w events
unfolding insert_event sum_by
sum-insert_event w e [] = refl
sum-insert_event w e (x ∷ events) = ground (arith, sum-insert_event w e events)

pub sum-sort_events :
    (w : Event → ℕ) (events : List Event) → sum_by w (sort_events events) ≡ sum_by w events
unfolding sort_events sum_by
sum-sort_events w [] = refl
sum-sort_events w (e ∷ events) =
    omega (arith, sum-insert_event w e (sort_events events), sum-sort_events w events)

sort_events-Ordered : (events : List Event) → IsOrdered (sort_events events)
unfolding sort_events IsOrdered
sort_events-Ordered [] = tt
sort_events-Ordered (e ∷ events) =
    insert_event-Ordered e (sort_events events) (sort_events-Ordered events)

-- Dates do not fall; on one date priorities do not; of one priority ranks do not; and of one rank
-- references do not.
abbrev pub IsBefore : Event → Event → Type 0
IsBefore a b =
    (a.date ≤ b.date)
    × (a.date ≡ b.date → a.priority ≤ b.priority)
    × (a.date ≡ b.date → a.priority ≡ b.priority → a.project_rank ≤ b.project_rank)
    × (a.date ≡ b.date
        → a.priority ≡ b.priority
        → a.project_rank ≡ b.project_rank
        → a.ref_id ≤ b.ref_id)

-- Each event is before all that follow.
unfoldable pub IsSorted : List Event → Type 0
IsSorted [] = Unit
IsSorted (e ∷ events) = All (IsBefore e) events × IsSorted events

comes_before-IsBefore : (a b : Event) → comes_before a b ≡ true → IsBefore a b
unfolding comes_before
comes_before-IsBefore a b h =
    (ground arith, λ e. ground arith, λ e f. ground arith, λ e f g. ground arith)

All-IsBefore :
    (e : Event) (events : List Event)
    → All (λ x. comes_before e x ≡ true) events
    → All (IsBefore e) events
All-IsBefore e [] h = tt
All-IsBefore e (x ∷ events) h = (comes_before-IsBefore e x h.0, All-IsBefore e events h.1)

Ordered-Sorted : (events : List Event) → IsOrdered events → IsSorted events
unfolding IsOrdered IsSorted
Ordered-Sorted [] h = tt
Ordered-Sorted (e ∷ events) h = (All-IsBefore e events h.0, Ordered-Sorted events h.1)

-- The events of an item are replayed by date, on one date by priority, of one priority by rank, and
-- of one rank by reference, and they are those that were appended, each as often.
pub item_events-IsSorted :
    (projects : List Planned) (orders : List Order) (lines : List QuotedLine) (item : ℕ)
    → IsSorted (item_events projects orders lines item)
      × ((w : Event → ℕ)
          → sum_by w (item_events projects orders lines item)
            ≡ sum_by w (appended projects orders lines item))
unfolding item_events
item_events-IsSorted projects orders lines item =
    let events = appended projects orders lines item in
    (
      Ordered-Sorted (sort_events events) (sort_events-Ordered events),
      λ w. sum-sort_events w events,
    )
