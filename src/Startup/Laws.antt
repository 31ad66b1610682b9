-- ===== src/Startup/Laws.antt =====
-- What a start relies on: files that are read as they were written.
use inca_go.Base.{ℕ, ◌≡◌, ◌⊎◌, refl, inl, inr, true, ◌++◌, ◌∷◌, []}
use inca_go.Result.{Error, ok}
use inca_go.Transactions.{Bytes}
use inca_go.Chain.New.{Config}
use inca_go.Startup.{File, missing, unreadable, content, Disk, NodeConfig, Tools, End, up, down}

pub File-cases :
    (f : File) → (f ≡ missing) ⊎ ((f ≡ unreadable) ⊎ ((dat : Bytes) × (f ≡ content dat)))
File-cases missing = inl refl
File-cases unreadable = inr (inl refl)
File-cases (content dat) = inr (inr (dat, refl))

pub End-cases {ℓ} :
    {A : Type ℓ} (r : End A)
    → ((a : A) × (d : Disk) × (r ≡ up a d)) ⊎ ((x : Error) × (d : Disk) × (r ≡ down x d))
End-cases (up a d) = inl (a, d, refl)
End-cases (down x d) = inr (x, d, refl)

-- What the libraries do: a write that succeeds leaves what was written, and what is printed is
-- parsed again, with or without a new line at the end.
pub record Laws (t : Tools) : Type 0 where
  pub node_saved : (dat : Bytes) (f : File) → t.write_node_file dat ≡ (true, f) → f ≡ content dat
  pub chain_saved : (dat : Bytes) (f : File) → t.write_chain_file dat ≡ (true, f) → f ≡ content dat
  pub key_parsed : (key : ℕ) (b : Bytes) → t.marshal_key key ≡ ok b → t.unmarshal_key b ≡ ok key
  pub node_parsed :
      (indent : ℕ) (c : NodeConfig) (b : Bytes)
      → t.print_node_config indent c ≡ ok b
      → t.parse_node_config b ≡ ok c
  pub chain_parsed :
      (indent : ℕ) (c : Config) (b : Bytes)
      → t.print_chain_config indent c ≡ ok b
      → t.parse_chain_config b ≡ ok c
  pub new_line :
      (indent : ℕ) (c : Config) (b : Bytes)
      → t.print_chain_config indent c ≡ ok b
      → t.parse_chain_config (b ++ 10 ∷ []) ≡ ok c
