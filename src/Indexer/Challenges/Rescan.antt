-- ===== src/Indexer/Challenges/Rescan.antt =====
-- A log that a handler has processed is skipped when it is seen again.
use zchf_grenadier.Prelude.{
  ℕ, ◌≡◌, refl, ◌≢◌, inl, inr, Bool, true, false, Option, none, some, List, [], arith, Bool-cases,
  ltb, length, ◌≤◌,
}
use zchf_grenadier.Prelude.Int.{ℤ}
use mathlib.Core.Path.{subst}
use zchf_grenadier.Text.{Text, lower}
use zchf_grenadier.Text.Hex.{hex_to_bytes}
use zchf_grenadier.Exec.{Result, ok, err, Exec, continue}
use zchf_grenadier.Store.Rows.{Challenge, Bid}
use zchf_grenadier.Store.Handle.{Db, Store, quiet, query, send}
use zchf_grenadier.Store.Challenges.{get_challenge, upsert_challenge, upsert_bid, bid_in}
use zchf_grenadier.Store.Challenges.Laws.{Marks, upsert_bid-Marks, bid_exists-query}
use zchf_grenadier.Chain.Log.{Log, log_idx}
use zchf_grenadier.Indexer.Challenges.Event.{or_zero, with_data}
use zchf_grenadier.Indexer.Challenges.Bids.{
  averted_bid, succeeded_bid, write_bid, with_challenge, averted, succeeded, averted_on,
  succeeded_on, averted_row, succeeded_row, averted_event, succeeded_event, skip_if, unless_seen,
  handle_averted, handle_succeeded,
}

module _ (tx : Text) (i : ℕ) where
  Marks-bind :
      {A : Type 0} (p : Result A × Store) (k : A → Exec Store (Unit {0}))
      → ((a : A) (s : Store) → Marks tx i (k a s))
      → Marks tx i (continue p.0 p.1 k)
  Marks-bind (ok a, s) k h = h a s
  Marks-bind (err e, s) k h = tt

  Marks-with_data :
      (o : Option (List ℕ)) (n : ℕ) (k : List ℕ → Exec Store (Unit {0})) (s : Store)
      → ((bytes : List ℕ) → Marks tx i (k bytes s))
      → Marks tx i (with_data o n k s)
  unfolding with_data
  Marks-with_data none n k s h = tt
  Marks-with_data (some bytes) n k s h = elim (Bool-cases (ltb (length bytes) n)) [
    | inl short ↦ rw short tt
    | inr long ↦ rw long (h bytes)
  ]

  Marks-with_challenge :
      (o : Option Challenge) (k : Challenge → Exec Store (Unit {0})) (s : Store)
      → ((c : Challenge) → Marks tx i (k c s))
      → Marks tx i (with_challenge o k s)
  unfolding with_challenge
  Marks-with_challenge none k s h = tt
  Marks-with_challenge (some c) k s h = h c

write_bid-Marks :
    (block : ℤ) (c : Challenge) (b : Bid) (s : Store)
    → Marks (lower b.tx_hash) b.log_index (write_bid block c b s)
unfolding write_bid
write_bid-Marks block c b s =
    Marks-bind (lower b.tx_hash) b.log_index (upsert_challenge c block s) (λ _. upsert_bid b)
      (λ _ s'. upsert_bid-Marks b s')

or_zero-query :
    (f : Db → Bool) (s : Store)
    → (or_zero false (query f s)).0 ≡ true
    → f (or_zero false (query f s)).1.db ≡ true
unfolding or_zero query
or_zero-query f s = elim (Bool-cases (send s.outcomes).0) [
  | inl sent ↦ rw sent (λ h. h)
  | inr lost ↦ rw lost (λ h. cc)
]

module _ (log : Log) where
  abbrev MarksLog : Result (Unit {0}) × Store → Type 0
  MarksLog = Marks (lower log.tx_hash) (log_idx log)

  skip_if-Marks :
      (k : Exec Store (Unit {0})) (p : Bool × Store)
      → (p.0 ≡ true → bid_in (lower log.tx_hash) (log_idx log) p.1.db ≡ true)
      → ((s : Store) → MarksLog (k s))
      → MarksLog (skip_if k p)
  unfolding skip_if
  skip_if-Marks k (true, s) h marks = h refl
  skip_if-Marks k (false, s) h marks = marks s

  unless_seen-Marks :
      (k : Exec Store (Unit {0})) (s : Store)
      → log.tx_hash ≢ []
      → ((s : Store) → MarksLog (k s))
      → MarksLog (unless_seen log k s)
  unfolding unless_seen
  unless_seen-Marks k s h marks = rw (bid_exists-query log.tx_hash (log_idx log) h) (
      skip_if-Marks k (or_zero false (query (bid_in (lower log.tx_hash) (log_idx log)) s))
        (or_zero-query (bid_in (lower log.tx_hash) (log_idx log)) s) marks)

  -- A log in the table is skipped.
  unless_seen_marked :
      (k : Exec Store (Unit {0})) (db : Db)
      → log.tx_hash ≢ []
      → bid_in (lower log.tx_hash) (log_idx log) db ≡ true
      → unless_seen log k (quiet db) ≡ (ok tt, quiet db)
  unfolding unless_seen
  unless_seen_marked k db h marked =
      rw (bid_exists-query log.tx_hash (log_idx log) h)
        (unfold query or_zero skip_if in rw (marked, skip_if))

module _ (junk : Text → ℤ) (log : Log) (bidder : Text) where
  averted_on-Marks :
      (position : Text) (number size : ℕ) (cur : Challenge) (s : Store)
      → MarksLog log (averted_on junk log bidder position number size cur s)
  unfolding averted_on averted_bid
  averted_on-Marks position number size cur s =
      write_bid-Marks _ _ (averted_bid log bidder position number size (averted_row junk size cur))
        s

  averted_event-Marks :
      (bytes : List ℕ) (s : Store) → MarksLog log (averted_event junk log bidder bytes s)
  unfolding averted_event averted
  averted_event-Marks bytes s =
      Marks-bind (lower log.tx_hash) (log_idx log) (get_challenge _ s) _ (λ found s₁.
        Marks-with_challenge (lower log.tx_hash) (log_idx log) found _ s₁
          (λ cur. averted_on-Marks _ _ _ cur s₁))

  -- Unless it fails, handleAverted leaves the log in the bids table.
  handle_averted-Marks :
      (s : Store) → log.tx_hash ≢ [] → MarksLog log (handle_averted junk log bidder s)
  unfolding handle_averted
  handle_averted-Marks s h = elim (Bool-cases (ltb (length log.topics) 2)) [
    | inl short ↦ rw short tt
    | inr long ↦ rw long (
        unless_seen-Marks log _ s h (λ s₁.
          Marks-with_data (lower log.tx_hash) (log_idx log) (hex_to_bytes log.data_text) 64
            (averted_event junk log bidder) s₁ (λ bytes. averted_event-Marks bytes s₁)))
  ]

  succeeded_on-Marks :
      (position : Text) (number bid acquired size : ℕ) (cur : Challenge) (s : Store)
      → MarksLog log (succeeded_on junk log bidder position number bid acquired size cur s)
  unfolding succeeded_on succeeded_bid
  succeeded_on-Marks position number bid acquired size cur s =
      write_bid-Marks _ _
        (succeeded_bid log bidder position number bid acquired size
          (succeeded_row junk acquired size cur))
        s

  succeeded_event-Marks :
      (bytes : List ℕ) (s : Store) → MarksLog log (succeeded_event junk log bidder bytes s)
  unfolding succeeded_event succeeded
  succeeded_event-Marks bytes s =
      Marks-bind (lower log.tx_hash) (log_idx log) (get_challenge _ s) _ (λ found s₁.
        Marks-with_challenge (lower log.tx_hash) (log_idx log) found _ s₁
          (λ cur. succeeded_on-Marks _ _ _ _ _ cur s₁))

  handle_succeeded-Marks :
      (s : Store) → log.tx_hash ≢ [] → MarksLog log (handle_succeeded junk log bidder s)
  unfolding handle_succeeded
  handle_succeeded-Marks s h = elim (Bool-cases (ltb (length log.topics) 2)) [
    | inl short ↦ rw short tt
    | inr long ↦ rw long (
        unless_seen-Marks log _ s h (λ s₁.
          Marks-with_data (lower log.tx_hash) (log_idx log) (hex_to_bytes log.data_text) 128
            (succeeded_event junk log bidder) s₁ (λ bytes. succeeded_event-Marks bytes s₁)))
  ]

-- What a handler does to a log again, on a store where no statement fails: nothing.
abbrev Skips : (Log → Text → Exec Store (Unit {0})) → Log → Db → Type 0
Skips handler log db = (bidder : Text) → handler log bidder (quiet db) ≡ (ok tt, quiet db)

module _ (junk : Text → ℤ) (log : Log) where
  handle_averted_marked :
      (db : Db)
      → log.tx_hash ≢ []
      → bid_in (lower log.tx_hash) (log_idx log) db ≡ true
      → ltb (length log.topics) 2 ≡ false
      → Skips (handle_averted junk) log db
  unfolding handle_averted
  handle_averted_marked db h marked long bidder = rw long (unless_seen_marked log _ db h marked)

  handle_succeeded_marked :
      (db : Db)
      → log.tx_hash ≢ []
      → bid_in (lower log.tx_hash) (log_idx log) db ≡ true
      → ltb (length log.topics) 2 ≡ false
      → Skips (handle_succeeded junk) log db
  unfolding handle_succeeded
  handle_succeeded_marked db h marked long bidder = rw long (unless_seen_marked log _ db h marked)

  -- A bid event is counted once, averting: after a run of handleAverted on a log with a transaction
  -- hash and two topics that returned no error, whichever of its statements failed, the handler that
  -- sees the log again returns no error and leaves the database as it is, provided that no statement
  -- of the second run fails.
  pub rescan_skips_averted :
      (bidder bidder' : Text) (s : Store) (db : Db) (os : List Bool)
      → log.tx_hash ≢ []
      → 2 ≤ length log.topics
      → handle_averted junk log bidder s ≡ (ok tt, record { db = db; outcomes = os })
      → handle_averted junk log bidder' (quiet db) ≡ (ok tt, quiet db)
  rescan_skips_averted bidder bidder' s db os h long run =
      let topics : ltb (length log.topics) 2 ≡ false = ground arith in
      handle_averted_marked db h
        (subst (Marks (lower log.tx_hash) (log_idx log)) run
          (handle_averted-Marks junk log bidder s h))
        topics bidder'

  -- A bid event is counted once, succeeding: after a run of handleSucceeded on a log with a
  -- transaction hash and two topics that returned no error, whichever of its statements failed, the
  -- handler that sees the log again returns no error and leaves the database as it is, provided that
  -- no statement of the second run fails.
  pub rescan_skips_succeeded :
      (bidder bidder' : Text) (s : Store) (db : Db) (os : List Bool)
      → log.tx_hash ≢ []
      → 2 ≤ length log.topics
      → handle_succeeded junk log bidder s ≡ (ok tt, record { db = db; outcomes = os })
      → handle_succeeded junk log bidder' (quiet db) ≡ (ok tt, quiet db)
  rescan_skips_succeeded bidder bidder' s db os h long run =
      let topics : ltb (length log.topics) 2 ≡ false = ground arith in
      handle_succeeded_marked db h
        (subst (Marks (lower log.tx_hash) (log_idx log)) run
          (handle_succeeded-Marks junk log bidder s h))
        topics bidder'
