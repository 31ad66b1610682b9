-- ===== src/Go/Heap/Perm.antt =====
-- Whatever `less` says, the heap's operations only move entries.
use mathlib.Core.List.{perm_middle, append-nil}
use mathlib.Core.List.Perm
use inca_go.Base.{
  length-perm, ℕ, zero, suc, ◌+◌, ◌-◌, ◌*◌, ◌/◌, ◌<◌, ◌≡◌, refl, inl, inr, Bool, false, some, List,
  [], ◌∷◌, ◌++◌, Perm, arith, length, get_elem?, Bool-cases, Option-cases, ◌||◌, not, ◌==◌, leb,
  ltb, ◌&&◌,
}
use inca_go.Go.Heap.{
  set, swap, init, last?, up_loop, down_child, down_loop, down, push, pop, remove, remove_sifted,
}

module _ {ℓ} {A : Type ℓ} where
  set-perm :
      (a : List A) (i : ℕ) (v : A) {x : A} → get_elem? a i ≡ some x → Perm (x ∷ set a i v) (v ∷ a)
  set-perm [] i v h = cc
  set-perm (y ∷ a) zero v {x = x} h = let e : y ≡ x = ground arith in rw e (Perm.swap v x a)
  set-perm (y ∷ a) (suc i) v {x = x} h =
      Perm.trans (Perm.swap y x _) (Perm.trans (Perm.cons y (set-perm a i v h)) (Perm.swap v y a))

  get_elem?-set :
      (a : List A) (i j : ℕ) {y : A} → get_elem? a j ≡ some y → get_elem? (set a i y) j ≡ some y
  get_elem?-set [] i j h = h
  get_elem?-set (z ∷ a) zero zero h = refl
  get_elem?-set (z ∷ a) zero (suc j) h = h
  get_elem?-set (z ∷ a) (suc i) zero h = h
  get_elem?-set (z ∷ a) (suc i) (suc j) h = get_elem?-set a i j h

  pub swap-perm : (a : List A) (i j : ℕ) → Perm (swap a i j) a
  unfolding swap
  swap-perm a i j = elim (Option-cases (get_elem? a i)) [
    | inl e ↦ rw (e, swap) (Perm.refl a)
    | inr (x, e) ↦ elim (Option-cases (get_elem? a j)) [
      | inl f ↦ rw (e, f, swap) (Perm.refl a)
      | inr (y, f) ↦
          rw (e, f, swap)
            (Perm.cons_inv
              (Perm.trans (set-perm (set a i y) j x (get_elem?-set a i j f)) (set-perm a i y e)))
    ]
  ]

  pub init-last?-perm : (a : List A) {x : A} → last? a ≡ some x → Perm (x ∷ init a) a
  unfolding init last?
  init-last?-perm [] h = cc
  init-last?-perm (y ∷ []) {x = x} h = let e : y ≡ x = ground arith in rw e (Perm.refl _)
  init-last?-perm (y ∷ z ∷ a) {x = x} h =
      Perm.trans (Perm.swap y x _) (Perm.cons y (init-last?-perm (z ∷ a) h))

  pub last?-some : (a : List A) → 0 < length a → (x : A) × (last? a ≡ some x)
  unfolding last?
  last?-some [] h = absurd (omega arith)
  last?-some (y ∷ []) h = (y, refl)
  last?-some (y ∷ z ∷ a) h = last?-some (z ∷ a) (omega arith)

parent-lt : (k j : ℕ) (b : Bool) → j < suc k → ((j - 1) / 2 == j || b) ≡ false → (j - 1) / 2 < k
parent-lt k j b h more = ground arith

module _ {ℓ} {A : Type ℓ} (less : List A → ℕ → ℕ → Bool) where
  up_loop-perm : (fuel : ℕ) (a : List A) (j : ℕ) → Perm (up_loop less fuel a j) a
  unfolding up_loop
  up_loop-perm zero a j = Perm.refl a
  up_loop-perm (suc fuel) a j =
      elim (Bool-cases ((j - 1) / 2 == j || not (less a j ((j - 1) / 2)))) [
        | inl stop ↦ rw stop (Perm.refl a)
        | inr more ↦ rw more (Perm.trans (up_loop-perm fuel _ _) (swap-perm a _ j))
      ]

  down_child-above : (a : List A) (i n : ℕ) → i < down_child less a i n
  unfolding down_child
  down_child-above a i n =
      elim (Bool-cases (ltb (2 * i + 1 + 1) n && less a (2 * i + 1 + 1) (2 * i + 1))) [
        | inl right ↦ rw right (omega arith)
        | inr left ↦ rw left (omega arith)
      ]

  -- A loop that starts at `j` makes fewer than `j` swaps, so more fuel changes nothing.
  up_loop-fuel :
      (fuel : ℕ) (a : List A) (j : ℕ)
      → j < fuel
      → up_loop less (suc fuel) a j ≡ up_loop less fuel a j
  unfolding up_loop
  up_loop-fuel zero a j h = absurd (omega arith)
  up_loop-fuel (suc fuel) a j h =
      elim (Bool-cases ((j - 1) / 2 == j || not (less a j ((j - 1) / 2)))) [
        | inl stop ↦ rw stop refl
        | inr more ↦
            rw more
              (up_loop-fuel fuel (swap a ((j - 1) / 2) j) ((j - 1) / 2) (parent-lt fuel j _ h more))
      ]

  down_loop-perm : (fuel : ℕ) (a : List A) (i n : ℕ) → Perm (down_loop less fuel a i n).0 a
  unfolding down_loop
  down_loop-perm zero a i n = Perm.refl a
  down_loop-perm (suc fuel) a i n = elim (Bool-cases (leb n (2 * i + 1))) [
    | inl stop ↦ rw stop (Perm.refl a)
    | inr more ↦ elim (Bool-cases (not (less a (down_child less a i n) i))) [
      | inl stop ↦ rw (more, stop) (Perm.refl a)
      | inr swaps ↦ rw (more, swaps) (Perm.trans (down_loop-perm fuel _ _ n) (swap-perm a i _))
    ]
  ]

  down_loop-fuel :
      (fuel : ℕ) (a : List A) (i n : ℕ)
      → n < fuel + i
      → down_loop less (suc fuel) a i n ≡ down_loop less fuel a i n
  unfolding down_loop
  down_loop-fuel zero a i n h = ground arith
  down_loop-fuel (suc fuel) a i n h = elim (Bool-cases (leb n (2 * i + 1))) [
    | inl stop ↦ rw stop refl
    | inr more ↦ elim (Bool-cases (not (less a (down_child less a i n) i))) [
      | inl stop ↦ rw (more, stop) refl
      | inr swaps ↦
          rw (more, swaps)
            (down_loop-fuel fuel _ (down_child less a i n) n
              (omega (arith, down_child-above a i n)))
    ]
  ]

  pub push-perm : (a : List A) (x : A) → Perm (push less a x) (x ∷ a)
  unfolding push
  push-perm a x =
      Perm.trans (up_loop-perm (suc (length a)) (a ++ x ∷ []) (length a))
        (rw (append-nil a) at (perm_middle {a = x} a []))

  down-perm : (a : List A) (i n : ℕ) → Perm (down less a i n).0 a
  unfolding down
  down-perm a i n = down_loop-perm (suc n) a i n

  remove_sifted-perm : (a : List A) (i : ℕ) → Perm (remove_sifted less a i) a
  unfolding remove_sifted
  remove_sifted-perm a i =
      let n = length a - 1 in
      let b = down less (swap a i n) i n in
      let sifted = Perm.trans (down-perm (swap a i n) i n) (swap-perm a i n) in
      elim (Bool-cases (n == i)) [
        | inl last ↦ rw last (Perm.refl a)
        | inr inner ↦ elim (Bool-cases b.1) [
          | inl moved ↦ rw (inner, moved) sifted
          | inr stays ↦ rw (inner, stays) (Perm.trans (up_loop-perm (suc i) b.0 i) sifted)
        ]
      ]

  -- What Pop takes out and what it leaves are the entries of the slice.
  pub pop-perm : (a : List A) {x : A} → (pop less a).0 ≡ some x → Perm (x ∷ (pop less a).1) a
  unfolding pop
  pop-perm a h =
      Perm.trans (init-last?-perm _ h)
        (Perm.trans (down-perm (swap a 0 (length a - 1)) 0 (length a - 1)) (swap-perm a 0 _))

  pub pop-some : (a : List A) → 0 < length a → (x : A) × ((pop less a).0 ≡ some x)
  unfolding pop
  pop-some a h =
      let n = length a - 1 in
      last?-some _ (rw (length-perm (Perm.trans (down-perm (swap a 0 n) 0 n) (swap-perm a 0 n))) h)

  pub remove-perm :
      (a : List A) (i : ℕ) {x : A} → (remove less a i).0 ≡ some x → Perm (x ∷ (remove less a i).1) a
  unfolding remove
  remove-perm a i h = Perm.trans (init-last?-perm _ h) (remove_sifted-perm a i)
