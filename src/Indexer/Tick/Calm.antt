-- ===== src/Indexer/Tick/Calm.antt =====
-- Stores on which no statement to come fails, and programs that return a result on them.
use zchf_grenadier.Prelude.{nat_eq, list_eq, ◌≡◌, refl, ap, Option, none, some, List, [], map}
use zchf_grenadier.Prelude.Int.{ℤ}
use zchf_grenadier.Text.{Text}
use zchf_grenadier.Exec.{Result, ok, err, Exec, continue}
use zchf_grenadier.Exec.Keeps.{Preserves}
use zchf_grenadier.Store.Rows.{Position, Challenge, Bid}
use zchf_grenadier.Store.Handle.{Db, Store, quiet, query, send, execute}
use zchf_grenadier.Store.Positions.{upsert_position, all_addresses}
use zchf_grenadier.Store.Positions.Reads.{upsert_position-quiet}
use zchf_grenadier.Store.Challenges.{
  upsert_challenge, upsert_bid, put_challenge, put_bid, fold_challenge, fold_bid,
}
use zchf_grenadier.Indexer.State.{Indexer, known_addresses, known_from, loaded, cached}
use zchf_grenadier.Indexer.Loop.Advance.{IsDone}

-- No statement to come fails.
abbrev pub Calm : Store → Type 0
Calm s = s.outcomes ≡ []

pub Calm-query : (A : Type 0) (f : Db → A) → Preserves Calm (query f)
unfolding query send
Calm-query A f s h = ap (λ os. (send os).1) h

Calm-execute : (change : Db → Option Db) → Preserves Calm (execute change)
unfolding execute send
Calm-execute change s h = ap (λ os. (send os).1) h

pub Calm-upsert_challenge : (c : Challenge) (block : ℤ) → Preserves Calm (upsert_challenge c block)
unfolding upsert_challenge
Calm-upsert_challenge c block = Calm-execute (put_challenge block (fold_challenge c))

pub Calm-upsert_bid : (b : Bid) → Preserves Calm (upsert_bid b)
unfolding upsert_bid
Calm-upsert_bid b = Calm-execute (put_bid (fold_bid b))

pub Calm-upsert_position :
    (p : Position) (block : ℤ) (s : Store) → Calm s → Calm (upsert_position p block s).1
Calm-upsert_position p block s h = go s.db (λ i. record s { outcomes = h i })
  where
    go : (db : Db) → s ≡ quiet db → Calm (upsert_position p block s).1
    go db e = rw (e, upsert_position-quiet p block db) refl

-- A result and no error.
abbrev pub Returns : {S A : Type 0} → Result A × S → Type 0
Returns (ok a, s) = Unit
Returns (err e, s) = ⊥

pub IsDone-of : {A : Type 0} (p : Result A × Indexer) → Returns p → Calm p.1.store → IsDone p
IsDone-of (ok a, ix) r h = h
IsDone-of (err e, ix) r h = absurd r

pub Returns-continue :
    {A B : Type 0} (p : Result A × Indexer) (k : A → Exec Indexer B)
    → Returns p
    → ((a : A) (ix : Indexer) → Returns (k a ix))
    → Returns (continue p.0 p.1 k)
Returns-continue (ok a, ix) k r h = h a ix
Returns-continue (err e, ix) k r h = absurd r

-- The use of the addresses.
Returns-loaded :
    (ix : Indexer) (s : Store) (db : Db) → s ≡ quiet db → Returns (loaded ix (all_addresses s))
unfolding loaded all_addresses query send
Returns-loaded ix s db e = rw e tt

Calm-loaded :
    (ix : Indexer) (p : Result (List Text) × Store) → Calm p.1 → Calm (loaded ix p).1.store
unfolding loaded
Calm-loaded ix (ok ks, s) h = h
Calm-loaded ix (err e, s) h = h

pub Returns-known_addresses : (ix : Indexer) → Calm ix.store → Returns (known_addresses ix)
unfolding known_addresses
Returns-known_addresses ix h = go (cached ix)
  where
    go : (o : Option (List Text)) → Returns (known_from ix o)
    go (some ks) = unfold known_from in tt
    go none =
        unfold known_from in
        Returns-loaded ix ix.store ix.store.db (λ i. record ix.store { outcomes = h i })

pub Calm-known_addresses : Preserves (λ ix. Calm ix.store) known_addresses
unfolding known_addresses
Calm-known_addresses ix h = go (cached ix)
  where
    go : (o : Option (List Text)) → Calm (known_from ix o).1.store
    go (some ks) = unfold known_from in h
    go none =
        unfold known_from all_addresses in
        Calm-loaded ix (query (λ db. map (λ p. p.0) db.positions) ix.store)
          (Calm-query (List Text) (λ db. map (λ p. p.0) db.positions) ix.store h)
