-- ===== src/Tests/Ledger.antt =====
-- The theorems on transactions, over a datastore that is a function.
use inca_go.Base.{
  ℕ, Bool, true, false, ◌≡◌, refl, ◌≢◌, none, some, Option, [], ◌∷◌, arith, ◌==◌, subst, Bool-cases,
  inl, inr, if◌then◌else◌, ap, ◌&&◌,
}
use inca_go.Wire.{app, NodeMessage}
use inca_go.Result.{Result, ok, err}
use inca_go.Transactions.{
  Bytes, Libs, Db, Transaction, from_node_message, compute_tx_id, put, get_tx, hex, hex_digit,
}
use inca_go.Transactions.Lookup.{Keeps, put-get_tx}
use inca_go.Transactions.Ids.{compute_tx_id-injective}

abbrev pub same_bytes : Bytes → Bytes → Bool
same_bytes [] [] = true
same_bytes [] (y ∷ ys) = false
same_bytes (x ∷ xs) [] = false
same_bytes (x ∷ xs) (y ∷ ys) = (x == y) && same_bytes xs ys

same_bytes_refl : (xs : Bytes) → same_bytes xs xs ≡ true
same_bytes_refl [] = refl
same_bytes_refl (x ∷ xs) = ground (arith, same_bytes_refl xs)

same_bytes_sound : (xs ys : Bytes) → same_bytes xs ys ≡ true → xs ≡ ys
same_bytes_sound [] [] e = refl
same_bytes_sound [] (y ∷ ys) e = ground arith
same_bytes_sound (x ∷ xs) [] e = ground arith
same_bytes_sound (x ∷ xs) (y ∷ ys) e =
    let first : x ≡ y = ground arith in
    let rest : xs ≡ ys = same_bytes_sound xs ys (ground arith) in rw (first, rest) refl

abbrev pub Store : Type 0
Store = Bytes → Option Bytes

abbrev pub db : Db Store
db = record {
  get = λ k d. ok (d k);
  set = λ k dat d. ok (λ j. if same_bytes j k then some dat else d j);
}

abbrev pub ok_value : (d : Store) → Result Store → Store
ok_value d (ok x) = x
ok_value d (err _) = d

pub db-Keeps : Keeps db
db-Keeps = record {
  found = λ k dat d d' e.
      subst (λ (x : Store). ok (x k) ≡ ok (some dat)) (ap (ok_value d) e)
        (rw (same_bytes_refl k) refl);
  others = λ k j dat d d' other e.
      subst (λ (x : Store). ok (x j) ≡ ok (d j)) (ap (ok_value d) e)
        (elim (Bool-cases (same_bytes j k)) [
          | inl same ↦ absurd (other (same_bytes_sound j k same))
          | inr differ ↦ rw differ refl
        ]);
}

abbrev transfer : NodeMessage
transfer = record {
  message_type = app;
  genesis_ref = 50;
  prev_msg_ref = 0;
  inner_ref = 80;
  timestamp = 3000000;
  app_message_type = 5;
  pub_key = 7;
}

abbrev libs : Libs
libs = record {
  unmarshal_key = λ k. some k;
  key_bytes = λ k. some (1 ∷ []);
  sha1 = λ xs. 171 ∷ [];
  app_message_id = 5;
  marshal = λ r. some (r ∷ []);
  unmarshal = λ bs. some 40;
  follow_message = λ r. some transfer;
}

abbrev moved : Transaction
moved = record {
  id = 97 ∷ 98 ∷ [];
  node_message = transfer;
  node_message_ref = none;
  inner_ref = 80;
}

abbrev empty : Store
empty k = none

abbrev after_put : Store
after_put j = if same_bytes j (47 ∷ 97 ∷ 98 ∷ []) then some (40 ∷ []) else none

put-get_tx_example :
    (get_tx libs db (97 ∷ 98 ∷ []) after_put
      ≡ ok (some (record moved { node_message_ref = some 40 })))
    × ((id : Bytes) → id ≢ 97 ∷ 98 ∷ [] → get_tx libs db id after_put ≡ get_tx libs db id empty)
unfolding put from_node_message compute_tx_id hex hex_digit
put-get_tx_example =
    put-get_tx libs db db-Keeps 97 (98 ∷ []) 40 transfer moved empty after_put (λ dat wire. refl)
      refl refl refl

compute_tx_id-injective_example : (◌≡◌ {A = ℕ} 3 3) × (◌≡◌ {A = Bytes} (1 ∷ []) (1 ∷ []))
unfolding compute_tx_id
compute_tx_id-injective_example =
    compute_tx_id-injective libs 3 3 7 8 (1 ∷ []) (1 ∷ []) refl refl (omega arith) (omega arith)
      (λ xs. (omega arith, tt)) (λ same. refl) refl
