-- ===== src/Exec.antt =====
-- Go functions with an error result over a mutable state: a state passed along, and a result that
-- is a value or an error. What was written before an error stays written.

pub mod Keeps
use zchf_grenadier.Prelude.{Bool, true, false}

-- The errors that the modelled functions return or wrap.
pub data Error : Type 0 where
  -- a statement of the database failed
  db_failed : Error
  -- a call of another service failed
  rpc_failed : Error
  missing_topics bad_data unknown_challenge bad_number bad_address short_data : Error
  no_peer all_peers_failed : Error
  -- a run-time panic, which no function of the indexer recovers from: it ends the process
  crashed : Error

-- Whether an error is a panic. What is printed and passed over is an error that is none.
abbrev pub is_crash : Error → Bool
is_crash db_failed = false
is_crash rpc_failed = false
is_crash missing_topics = false
is_crash bad_data = false
is_crash unknown_challenge = false
is_crash bad_number = false
is_crash bad_address = false
is_crash short_data = false
is_crash no_peer = false
is_crash all_peers_failed = false
is_crash crashed = true

pub data Result {ℓ} (A : Type ℓ) : Type ℓ where
  ok : A → Result A
  err : Error → Result A

abbrev pub Exec : Type 0 → Type 0 → Type 0
Exec S A = S → Result A × S

module _ {S A : Type 0} where
  abbrev pub pure : A → Exec S A
  pure a s = (ok a, s)

  abbrev pub fail : Error → Exec S A
  fail e s = (err e, s)

module _ {S A B : Type 0} where
  abbrev pub continue : Result A → S → (A → Exec S B) → Result B × S
  continue (ok a) s f = f a s
  continue (err e) s f = (err e, s)

  infixl 5 ◌>>=◌ ◌>>◌
  abbrev pub ◌>>=◌ : Exec S A → (A → Exec S B) → Exec S B
  ◌>>=◌ m f s = continue (m s).0 (m s).1 f

  abbrev pub ◌>>◌ : Exec S A → Exec S B → Exec S B
  m >> k = m >>= λ _. k
