-- ===== src/Go/Heap.antt =====
-- container/heap over a slice: the sift loops compare entries by index, through `less`, and swap
-- them. A loop takes fuel; Heap/Perm shows that the fuel given is enough.
pub mod Perm
pub mod Unordered
use inca_go.Base.{
  ℕ, zero, suc, ◌+◌, ◌-◌, ◌*◌, ◌/◌, Bool, true, false, not, Option, none, some, List, [], ◌∷◌, ◌++◌,
  ltb, leb, ◌==◌, ◌&&◌, ◌||◌, if◌then◌else◌, length, get_elem?,
}

module _ {ℓ} {A : Type ℓ} where
  abbrev pub set : List A → ℕ → A → List A
  set (_ ∷ a) zero new = new ∷ a
  set (x ∷ a) (suc i) new = x ∷ set a i new
  set [] i new = []

  -- `a[i], a[j] = a[j], a[i]`
  unfoldable pub swap : List A → ℕ → ℕ → List A
  swap a i j = elim (get_elem? a i) [
    | none ↦ a
    | some x ↦ elim (get_elem? a j) [ none ↦ a | some y ↦ set (set a i y) j x ]
  ]

  -- All but the last entry, and the last entry.
  unfoldable pub init : List A → List A
  init [] = []
  init (x ∷ []) = []
  init (x ∷ y ∷ a) = x ∷ init (y ∷ a)

  unfoldable pub last? : List A → Option A
  last? [] = none
  last? (x ∷ []) = some x
  last? (x ∷ y ∷ a) = last? (y ∷ a)

module _ {ℓ} {A : Type ℓ} (less : List A → ℕ → ℕ → Bool) where
  unfoldable pub up_loop : ℕ → List A → ℕ → List A
  up_loop zero a j = a
  up_loop (suc fuel) a j =
      let i = (j - 1) / 2 in
      let rest = up_loop fuel (swap a i j) i in if i == j || not (less a j i) then a else rest

  unfoldable pub up : List A → ℕ → List A
  unfolding up_loop
  up a j = up_loop (suc j) a j

  -- The child of `i` below `n` that the loop compares `i` with.
  unfoldable pub down_child : List A → ℕ → ℕ → ℕ
  down_child a i n =
      let j1 = 2 * i + 1 in let j2 = j1 + 1 in if ltb j2 n && less a j2 j1 then j2 else j1

  -- The slice, and where the entry came to rest.
  unfoldable pub down_loop : ℕ → List A → ℕ → ℕ → List A × ℕ
  unfolding down_child
  down_loop zero a i n = (a, i)
  down_loop (suc fuel) a i n =
      let j = down_child a i n in
      let rest = down_loop fuel (swap a i j) j n in
      if leb n (2 * i + 1) then (a, i) else if not (less a j i) then (a, i) else rest

  unfoldable pub down : List A → ℕ → ℕ → List A × Bool
  unfolding down_loop
  down a i n = let (b, k) = down_loop (suc n) a i n in (b, ltb i k)

  unfoldable pub push : List A → A → List A
  unfolding up
  push a x = up (a ++ x ∷ []) (length a)

  -- The last entry of the slice after the swap, and the slice without it.
  unfoldable pub pop : List A → Option A × List A
  unfolding down
  pop a = let n = length a - 1 in let b = (down (swap a 0 n) 0 n).0 in (last? b, init b)

  unfoldable pub remove_sifted : List A → ℕ → List A
  unfolding down up
  remove_sifted a i =
      let n = length a - 1 in
      let (b, moved) = down (swap a i n) i n in if n == i then a else if moved then b else up b i

  unfoldable pub remove : List A → ℕ → Option A × List A
  unfolding remove_sifted
  remove a i = let b = remove_sifted a i in (last? b, init b)
