-- ===== src/Segment/Queue/Members.antt =====
-- Which segments are in the queue, and which one comes next.
use mathlib.Core.Logic.Or
use mathlib.Core.List.{mem-cons, not-mem-nil, Nodup-cons}
use mathlib.Core.List.Perm
use inca_go.Base.{
  ℕ, suc, ◌+◌, ◌<◌, ◌≡◌, refl, sym, ◌∙◌, inl, inr, true, false, none, some, List, [], ◌∷◌, Perm,
  Mem, Nodup, arith, ◌==◌, length, get_elem?, Bool-cases, Option-cases, ==_iff,
}
use inca_go.Go.Heap.Perm.{push-perm, remove-perm, pop-perm}
use inca_go.Go.Heap.Unordered.{pop_unordered, remove_unordered}
use inca_go.Segment.Queue.{less, contains, push, find_from, remove, pop}

module _ (height : ℕ → ℕ) where
  less_never : (pq : List ℕ) (i j : ℕ) → less height pq i j ≡ false
  unfolding less
  less_never pq i j = ground arith

contains-Mem : (s : ℕ) (pq : List ℕ) → contains s pq ≡ true → Mem s pq
unfolding contains
contains-Mem s [] h = cc
contains-Mem s (x ∷ pq) h = elim (Bool-cases (x == s)) [
  | inl e ↦ mem-cons.1 (Or.inl (sym ((==_iff x s).0 e)))
  | inr e ↦ mem-cons.1 (Or.inr (contains-Mem s pq (rw e at h)))
]

not-contains-Mem : (s : ℕ) (pq : List ℕ) → contains s pq ≡ false → ¬ Mem s pq
unfolding contains
not-contains-Mem s [] h = not-mem-nil
not-contains-Mem s (x ∷ pq) h = λ m.
    Or.elim (λ p. absurd p) (mem-cons.0 m) (λ e. ground (arith, e))
      (not-contains-Mem s pq (ground arith))

find_from-some :
    (i s : ℕ) (pq : List ℕ) (j : ℕ)
    → find_from i s pq ≡ some j
    → (k : ℕ) × (j ≡ i + k) × (k < length pq) × (get_elem? pq k ≡ some s)
unfolding find_from
find_from-some i s [] j h = cc
find_from-some i s (x ∷ pq) j h = elim (Bool-cases (x == s)) [
  | inl e ↦ (0, ground arith, omega arith, ground arith)
  | inr e ↦
      let (k, p, q, r) = find_from-some (suc i) s pq j (rw e at h) in
      (suc k, omega arith, omega arith, r)
]

find_from-none : (i s : ℕ) (pq : List ℕ) → find_from i s pq ≡ none → ¬ Mem s pq
unfolding find_from
find_from-none i s [] h = not-mem-nil
find_from-none i s (x ∷ pq) h = λ m.
    Or.elim (λ p. absurd p) (mem-cons.0 m) (λ e. ground (arith, e))
      (find_from-none (suc i) s pq (ground arith))

module _ (height : ℕ → ℕ) where
  -- Push leaves the queue as it is where it holds the segment, and adds the segment to the others
  -- where it does not; so no segment is in the queue twice.
  push_lem :
      (pq ch : List ℕ) (seg : ℕ)
      → Nodup pq
      → Nodup (push height pq ch seg).0
        × (Mem seg pq → (push height pq ch seg).0 ≡ pq)
        × (¬ Mem seg pq → Perm (push height pq ch seg).0 (seg ∷ pq))
  unfolding push
  push_lem pq ch seg d = elim (Bool-cases (contains seg pq)) [
    | inl old ↦ rw old (d, λ m. refl, λ n. absurd (n (contains-Mem seg pq old)))
    | inr new ↦
        let absent = not-contains-Mem seg pq new in
        let grown = push-perm (less height) pq seg in
        rw new (
          Perm.nodup (Perm.symm grown) (Nodup-cons.1 (absent, d)),
          λ m. absurd (absent m),
          λ n. grown,
        )
  ]

  -- The heap order is lost: Less compares an entry with itself, so Pop takes the entry that stands
  -- first in the slice, whatever the heights are, and leaves the other ones.
  pub pop-first :
      (s : ℕ) (pq : List ℕ)
      → ((pop height (s ∷ pq)).0 ≡ some s) × Perm (s ∷ (pop height (s ∷ pq)).1) (s ∷ pq)
  unfolding pop
  pop-first s pq =
      let first = pop_unordered (less height) (less_never height) s pq in
      (first, pop-perm (less height) (s ∷ pq) first)

  -- Remove takes out the segment and no other.
  remove_lem : (pq : List ℕ) (seg : ℕ) → Mem seg pq → Perm (seg ∷ remove height pq seg) pq
  unfolding remove
  remove_lem pq seg m = elim (Option-cases (find_from 0 seg pq)) [
    | inl missing ↦ absurd (find_from-none 0 seg pq missing m)
    | inr (i, found) ↦
        let (k, p, q, at) = find_from-some 0 seg pq i found in
        let same : k ≡ i = omega arith in
        rw (found, remove)
          (remove-perm (less height) pq i
            (remove_unordered (less height) (less_never height) pq i (omega arith) ∙ rw same at at))
  ]
