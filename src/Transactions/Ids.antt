-- ===== src/Transactions/Ids.antt =====
-- Transactions of different times or keys have different ids.
use inca_go.Base.{
  ℕ, zero, suc, ◌*◌, ◌/◌, ◌%◌, ◌<◌, ◌≡◌, refl, ap, ◌∙◌, sym, arith, All, some, [], ◌∷◌, ◌++◌,
}
use inca_go.Transactions.{Bytes, Libs, le_bytes, hex_digit, hex, compute_tx_id}
use inca_go.Transactions.Lookup.{tail_of}

-- The first number that does not fit into `n` bytes.
abbrev pub bound : ℕ → ℕ
bound zero = 1
bound (suc n) = 256 * bound n

abbrev head_of : Bytes → ℕ
head_of [] = 0
head_of (b ∷ bs) = b

le_bytes-injective :
    (n a b : ℕ) (k j : Bytes)
    → a < bound n
    → b < bound n
    → le_bytes n a ++ k ≡ le_bytes n b ++ j
    → (a ≡ b) × (k ≡ j)
unfolding le_bytes
le_bytes-injective zero a b k j small small' same = (omega arith, same)
le_bytes-injective (suc n) a b k j small small' same =
    let rest : (a / 256 ≡ b / 256) × (k ≡ j) =
      le_bytes-injective n (a / 256) (b / 256) k j (omega arith) (omega arith) (ap tail_of same) in
    let first : a % 256 ≡ b % 256 = ap head_of same in (omega (arith, rest.0, first), rest.1)

hex_digit-injective : (c d : ℕ) → c < 16 → d < 16 → hex_digit c ≡ hex_digit d → c ≡ d
unfolding hex_digit
hex_digit-injective c d small small' same = ground arith

hex-injective :
    (xs ys : Bytes)
    → All (λ (b : ℕ). b < 256) xs
    → All (λ (b : ℕ). b < 256) ys
    → hex xs ≡ hex ys
    → xs ≡ ys
unfolding hex
hex-injective [] [] small small' same = refl
hex-injective [] (y ∷ ys) small small' same = ground arith
hex-injective (x ∷ xs) [] small small' same = ground arith
hex-injective (x ∷ xs) (y ∷ ys) small small' same =
    let high =
      hex_digit-injective (x / 16) (y / 16) (omega (arith, small.0)) (omega (arith, small'.0))
        (ap head_of same) in
    let low =
      hex_digit-injective (x % 16) (y % 16) (omega arith) (omega arith)
        (ap (λ zs. head_of (tail_of zs)) same) in
    let rest = hex-injective xs ys small.1 small'.1 (ap (λ zs. tail_of (tail_of zs)) same) in
    let first : x ≡ y = omega (arith, high, low) in rw (first, rest) refl

id_lem :
    (l : Libs) (ms key : ℕ) (k : Bytes)
    → l.key_bytes key ≡ some k
    → compute_tx_id l ms key ≡ hex (l.sha1 (le_bytes 8 ms ++ k))
unfolding compute_tx_id
id_lem l ms key k found = rw (found, compute_tx_id) refl

-- The ids of two messages are the same only if their times and the bytes of their keys are, where
-- the times fit into eight bytes, a hash is a list of bytes, and the hash does not collide on them.
pub compute_tx_id-injective :
    (l : Libs) (ms ns key other : ℕ) (k j : Bytes)
    → l.key_bytes key ≡ some k
    → l.key_bytes other ≡ some j
    → ms < bound 8
    → ns < bound 8
    → ((xs : Bytes) → All (λ (b : ℕ). b < 256) (l.sha1 xs))
    → (l.sha1 (le_bytes 8 ms ++ k) ≡ l.sha1 (le_bytes 8 ns ++ j)
        → le_bytes 8 ms ++ k ≡ le_bytes 8 ns ++ j)
    → compute_tx_id l ms key ≡ compute_tx_id l ns other
    → (ms ≡ ns) × (k ≡ j)
compute_tx_id-injective l ms ns key other k j found found' small small' bytes distinct same =
    le_bytes-injective 8 ms ns k j small small' (
      distinct (
        hex-injective (l.sha1 (le_bytes 8 ms ++ k)) (l.sha1 (le_bytes 8 ns ++ j)) (bytes _)
          (bytes _) (sym (id_lem l ms key k found) ∙ same ∙ id_lem l ns other j found')))
