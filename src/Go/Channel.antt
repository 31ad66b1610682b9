-- ===== src/Go/Channel.antt =====
-- A buffered channel, oldest message first, and the loop by which the source sends to a subscriber:
-- it tries to send, and takes the oldest message out where the channel is full.
use mathlib.Core.List.{append-nil, append_assoc}
use native.Mathlib.Decide.{dec_lt}
use inca_go.Base.{
  ℕ, zero, suc, ◌+◌, ◌-◌, ◌≤◌, ◌<◌, ◌≡◌, refl, true, false, List, [], ◌∷◌, ◌++◌, arith, ltb,
  if◌then◌else◌, length, drop, length-append, ap,
}

module _ {ℓ} {A : Type ℓ} where
  unfoldable pub enqueue_loop : ℕ → ℕ → List A → A → List A
  enqueue_loop zero cap ch msg = ch
  enqueue_loop (suc fuel) cap ch msg =
      let rest = enqueue_loop fuel cap (drop 1 ch) msg in
      if ltb (length ch) cap then ch ++ msg ∷ [] else rest

  -- Each round takes one message out, so one round more than there are messages is enough.
  unfoldable pub enqueue : ℕ → List A → A → List A
  unfolding enqueue_loop
  enqueue cap ch msg = enqueue_loop (suc (length ch)) cap ch msg

  unfoldable pub enqueue_all : ℕ → List A → List A → List A
  enqueue_all cap ch [] = ch
  enqueue_all cap ch (m ∷ ms) = enqueue_all cap (enqueue cap ch m) ms

  enqueue_loop-full :
      (fuel cap : ℕ) (x : A) (ch : List A) (msg : A)
      → length ch < cap
      → cap ≤ suc (length ch)
      → enqueue_loop (suc (suc fuel)) cap (x ∷ ch) msg ≡ ch ++ msg ∷ []
  unfolding enqueue_loop
  enqueue_loop-full fuel cap x ch msg room full =
      let first : ltb (suc (length ch)) cap ≡ false = ground arith in
      let second : ltb (length ch) cap ≡ true = ground arith in rw (first, second) refl

  enqueue_loop-room :
      (fuel cap : ℕ) (ch : List A) (msg : A)
      → length ch < cap
      → enqueue_loop (suc fuel) cap ch msg ≡ ch ++ msg ∷ []
  unfolding enqueue_loop
  enqueue_loop-room fuel cap ch msg room =
      let first : ltb (length ch) cap ≡ true = ground arith in rw first refl

  length-drop : (n : ℕ) (xs : List A) → length (drop n xs) ≡ length xs - n
  length-drop zero xs = omega arith
  length-drop (suc n) [] = omega arith
  length-drop (suc n) (x ∷ xs) = omega (arith, length-drop n xs)

  drop-length : (n : ℕ) (xs : List A) → length xs ≤ n → drop n xs ≡ []
  drop-length zero [] h = refl
  drop-length zero (x ∷ xs) h = absurd (omega arith)
  drop-length (suc n) [] h = refl
  drop-length (suc n) (x ∷ xs) h = drop-length n xs (omega arith)

  drop-append : (n : ℕ) (xs ys : List A) → n ≤ length xs → drop n (xs ++ ys) ≡ drop n xs ++ ys
  drop-append zero xs ys h = refl
  drop-append (suc n) [] ys h = absurd (omega arith)
  drop-append (suc n) (x ∷ xs) ys h = drop-append n xs ys (omega arith)

  drop-drop : (n m : ℕ) (xs : List A) → drop n (drop m xs) ≡ drop (m + n) xs
  drop-drop n zero xs = ap (λ k. drop k xs) (omega arith)
  drop-drop zero (suc m) [] = let e : suc m + 0 ≡ suc m = omega arith in rw e refl
  drop-drop (suc n) (suc m) [] = let e : suc m + suc n ≡ suc (m + suc n) = omega arith in rw e refl
  drop-drop n (suc m) (x ∷ xs) =
      let e : suc m + n ≡ suc (m + n) = omega arith in rw e (drop-drop n m xs)

  pub enqueue_lem :
      (cap : ℕ) (ch : List A) (msg : A)
      → 0 < cap
      → length ch ≤ cap
      → enqueue cap ch msg ≡ drop (length ch + 1 - cap) (ch ++ msg ∷ [])
  unfolding enqueue
  enqueue_lem cap [] msg pos fits =
      let none_over : 0 + 1 - cap ≡ 0 = omega arith in
      rw none_over (enqueue_loop-room 0 cap [] msg pos)
  enqueue_lem cap (x ∷ ch) msg pos fits = elim (dec_lt (suc (length ch)) cap) [
    | yes room ↦
        let none_over : suc (length ch) + 1 - cap ≡ 0 = omega arith in
        rw none_over (enqueue_loop-room (suc (length ch)) cap (x ∷ ch) msg room)
    | no full ↦
        let one_over : suc (length ch) + 1 - cap ≡ 1 = omega arith in
        rw one_over (enqueue_loop-full (length ch) cap x ch msg (omega arith) (omega arith))
  ]

  -- What a reader finds who starts after all of the messages were sent: of those that were waiting
  -- and those that were sent, the last `cap`, in order.
  pub enqueue_all_lem :
      (cap : ℕ) (ch ms : List A)
      → 0 < cap
      → length ch ≤ cap
      → enqueue_all cap ch ms ≡ drop (length ch + length ms - cap) (ch ++ ms)
  unfolding enqueue_all
  enqueue_all_lem cap ch [] pos fits =
      let none_over : length ch + 0 - cap ≡ 0 = omega arith in rw (none_over, append-nil)
  enqueue_all_lem cap ch (m ∷ ms) pos fits =
      let j = length ch + 1 - cap in
      let sent = ch ++ m ∷ [] in
      let size : length (drop j sent) ≡ length ch + 1 - j =
        omega (arith, length-drop j sent, length-append ch (m ∷ [])) in
      rw
        (
          enqueue_lem cap ch m pos fits,
          enqueue_all_lem cap (drop j sent) ms pos (omega (arith, size)),
          ← drop-append j sent ms (omega (arith, length-append ch (m ∷ []))),
          drop-drop (length (drop j sent) + length ms - cap) j (sent ++ ms),
        )
        (rw (append_assoc ch (m ∷ []) ms) (ap (λ k. drop k (ch ++ m ∷ ms)) (omega (arith, size))))
