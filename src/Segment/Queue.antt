-- ===== src/Segment/Queue.antt =====
-- segment/segment_queue.go: the segments to rewind, in a binary heap. A segment is its id; a channel
pub mod Members
-- send that would block is dropped.
use mathlib.Core.List.Perm
use inca_go.Base.{
  ℕ, zero, suc, ◌+◌, ◌≤◌, ◌<◌, ◌≡◌, Bool, true, false, Option, none, some, List, [], ◌∷◌, ◌++◌,
  Perm, arith, ltb, ◌==◌, ◌||◌, if◌then◌else◌, length, get_elem?,
}
use inca_go.Go.Heap

-- The capacity of the channel that NewSegmentStore makes.
abbrev pub notify_cap : ℕ
notify_cap = 5

abbrev pub height_at : (ℕ → ℕ) → List ℕ → ℕ → ℕ
height_at height pq i = elim (get_elem? pq i) [ none ↦ 0 | some s ↦ height s ]

-- segmentHeightPq.Less, which compares entry `i` with itself.
unfoldable pub less : (ℕ → ℕ) → List ℕ → ℕ → ℕ → Bool
less height pq i j = ltb (height_at height pq i) (height_at height pq i)

unfoldable pub contains : ℕ → List ℕ → Bool
contains seg [] = false
contains seg (s ∷ pq) = s == seg || contains seg pq

unfoldable pub notify : ℕ → List ℕ → List ℕ
notify seg ch = if ltb (length ch) notify_cap then ch ++ seg ∷ [] else ch

-- The queue and the channel after Push.
unfoldable pub push : (ℕ → ℕ) → List ℕ → List ℕ → ℕ → List ℕ × List ℕ
unfolding contains notify less
push height pq ch seg =
    if contains seg pq then (pq, ch) else (Heap.push (less height) pq seg, notify seg ch)

unfoldable pub find_from : ℕ → ℕ → List ℕ → Option ℕ
find_from i seg [] = none
find_from i seg (s ∷ pq) = let rest = find_from (suc i) seg pq in if s == seg then some i else rest

unfoldable pub remove : (ℕ → ℕ) → List ℕ → ℕ → List ℕ
unfolding find_from less
remove height pq seg = elim (find_from 0 seg pq) [
  | none ↦ pq
  | some i ↦ (Heap.remove (less height) pq i).1
]

unfoldable pub pop : (ℕ → ℕ) → List ℕ → Option ℕ × List ℕ
unfolding less
pop height [] = (none, [])
pop height (s ∷ pq) = Heap.pop (less height) (s ∷ pq)
