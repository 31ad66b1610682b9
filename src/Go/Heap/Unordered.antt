-- ===== src/Go/Heap/Unordered.antt =====
-- A `less` that never answers true: the sift loops stop at once.
use inca_go.Base.{
  ℕ, zero, suc, ◌+◌, ◌-◌, ◌*◌, ◌/◌, ◌<◌, ◌≡◌, refl, ◌∙◌, ap, inl, inr, Bool, true, false, some,
  List, [], ◌∷◌, ◌++◌, arith, length, get_elem?, Bool-cases, ◌==◌, leb, length-perm,
}
use inca_go.Go.Heap.{set, swap, last?, up, down_child, down, push, pop, remove, remove_sifted}
use inca_go.Go.Heap.Perm.{swap-perm}

module _ {ℓ} {A : Type ℓ} where
  last?-get_elem? : (a : List A) (n : ℕ) → length a ≡ suc n → last? a ≡ get_elem? a n
  unfolding last?
  last?-get_elem? [] n h = absurd (omega arith)
  last?-get_elem? (x ∷ []) zero h = refl
  last?-get_elem? (x ∷ []) (suc n) h = absurd (omega arith)
  last?-get_elem? (x ∷ y ∷ a) zero h = absurd (omega arith)
  last?-get_elem? (x ∷ y ∷ a) (suc n) h = last?-get_elem? (y ∷ a) n (omega arith)

  get_elem?-some : (a : List A) (i : ℕ) → i < length a → (x : A) × (get_elem? a i ≡ some x)
  get_elem?-some [] i h = absurd (omega arith)
  get_elem?-some (x ∷ a) zero h = (x, refl)
  get_elem?-some (x ∷ a) (suc i) h = get_elem?-some a i (omega arith)

  get_elem?-set_self :
      (a : List A) (i : ℕ) (v : A) → i < length a → get_elem? (set a i v) i ≡ some v
  get_elem?-set_self [] i v h = absurd (omega arith)
  get_elem?-set_self (x ∷ a) zero v h = refl
  get_elem?-set_self (x ∷ a) (suc i) v h = get_elem?-set_self a i v (omega arith)

  length-set : (i : ℕ) (v : A) (a : List A) → length (set a i v) ≡ length a
  length-set zero v (x ∷ a) = refl
  length-set (suc i) v (x ∷ a) = ap suc (length-set i v a)
  length-set i v [] = refl

  get_elem?-swap :
      (a : List A) (i j : ℕ)
      → i < length a
      → j < length a
      → get_elem? (swap a i j) j ≡ get_elem? a i
  unfolding swap
  get_elem?-swap a i j hi hj =
      let (x, p) = get_elem?-some a i hi in
      let (y, q) = get_elem?-some a j hj in
      rw (p, q, swap) (get_elem?-set_self (set a i y) j x (rw (length-set i y a) hj))

  last?-swap : (a : List A) (i : ℕ) → i < length a → last? (swap a i (length a - 1)) ≡ get_elem? a i
  last?-swap a i h =
      let n = length a - 1 in
      let size : length (swap a i n) ≡ suc n = omega (arith, length-perm (swap-perm a i n)) in
      last?-get_elem? _ n size ∙ get_elem?-swap a i n h (omega arith)

root-last : (n i len : ℕ) → (n == i) ≡ true → len ≡ suc n → len ≡ suc i
root-last n i len e h = ground arith

module _ {ℓ} {A : Type ℓ} (less : List A → ℕ → ℕ → Bool)
    (never : (a : List A) (i j : ℕ) → less a i j ≡ false) where
  up_unordered : (a : List A) (j : ℕ) → up less a j ≡ a
  unfolding up
  up_unordered a j = elim (Bool-cases ((j - 1) / 2 == j)) [
    | inl root ↦ rw root refl
    | inr inner ↦ rw (inner, never a j ((j - 1) / 2)) refl
  ]

  down_unordered : (a : List A) (i n : ℕ) → (down less a i n).0 ≡ a
  unfolding down
  down_unordered a i n = elim (Bool-cases (leb n (2 * i + 1))) [
    | inl stop ↦ rw stop refl
    | inr more ↦ rw (more, never a (down_child less a i n) i) refl
  ]

  pub push_unordered : (a : List A) (x : A) → push less a x ≡ a ++ x ∷ []
  unfolding push
  push_unordered a x = up_unordered (a ++ x ∷ []) (length a)

  pub pop_unordered : (x : A) (a : List A) → (pop less (x ∷ a)).0 ≡ some x
  unfolding pop
  pop_unordered x a =
      rw (down_unordered (swap (x ∷ a) 0 (length (x ∷ a) - 1)) 0 (length (x ∷ a) - 1))
        (last?-swap (x ∷ a) 0 (omega arith))

  pub remove_unordered : (a : List A) (i : ℕ) → i < length a → (remove less a i).0 ≡ get_elem? a i
  unfolding remove remove_sifted
  remove_unordered a i h =
      let n = length a - 1 in
      let b = down less (swap a i n) i n in
      let kept : b.0 ≡ swap a i n = down_unordered (swap a i n) i n in
      elim (Bool-cases (n == i)) [
        | inl end ↦ rw end (last?-get_elem? a i (root-last n i (length a) end (omega arith)))
        | inr inner ↦ elim (Bool-cases b.1) [
          | inl moved ↦ rw (inner, moved, kept) (last?-swap a i h)
          | inr stays ↦ rw (inner, stays, up_unordered b.0 i, kept) (last?-swap a i h)
        ]
      ]
