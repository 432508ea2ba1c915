-- ===== src/Indexer/Challenges/Preserves.antt =====
-- A predicate on the store that holds through the challenge scan.
use zchf_grenadier.Prelude.{
  ℕ, ◌+◌, eqb, ◌≡◌, refl, Bool, true, false, Option, none, some, List, [], ◌∷◌, ◌==◌, nat_eq,
  list_eq, ltb, length, Bool-cases, Option-cases, inl, inr,
}
use zchf_grenadier.Prelude.Int.{ℤ}
use zchf_grenadier.Text.{Text, lower}
use zchf_grenadier.Exec.{Result, ok, err, Exec, pure, ◌>>=◌}
use zchf_grenadier.Chain.Abi.{Decoded}
use zchf_grenadier.Store.Rows.{Position, Challenge, Bid}
use zchf_grenadier.Store.Handle.{Db, Store, query}
use zchf_grenadier.Store.Challenges.{
  upsert_challenge, upsert_bid, get_challenge, bid_exists_by_log, bid_in, challenge_in,
}
use zchf_grenadier.Store.Positions.{get_position, position_in}
use zchf_grenadier.Chain.Log.{
  Log, log_idx, topic_challenge_started, topic_challenge_averted, topic_challenge_succeed,
}
use zchf_grenadier.Chain.Log.{topic}
use zchf_grenadier.Indexer.Challenges.Event.{or_zero, with_data, challenge_id}
use zchf_grenadier.Indexer.Challenges.Bids.{
  write_bid, with_challenge, averted_on, averted, averted_event, unless_seen, skip_if,
  handle_averted, succeeded_on, succeeded, succeeded_event, handle_succeeded,
}
use zchf_grenadier.Indexer.Challenges.Started.{
  is_complete, gives_up, crashes, terms, started, started_event, handle_started,
}
use zchf_grenadier.Indexer.Challenges.Scan.{
  Rpc, counted, scan_log, scan_logs, scan_block, scan_blocks, scan_challenges, block_numbers,
  logs_in,
}
use zchf_grenadier.Exec.Keeps.{Preserves, Preserves-bind}

or_zero-state : {A : Type 0} (z : A) (p : Result A × Store) → (or_zero z p).1 ≡ p.1
unfolding or_zero
or_zero-state z (ok a, s) = refl
or_zero-state z (err e, s) = refl

counted-state : (p : Result (Unit {0}) × Store) → (counted p).1 ≡ p.1
unfolding counted
counted-state (ok u, s) = refl
counted-state (err e, s) = refl

-- It is preserved by reads and by the two writes of the handlers.
module _ (I : Store → Type 0) (reads : (A : Type 0) (f : Db → A) → Preserves I (query f))
    (challenges : (c : Challenge) (block : ℤ) → Preserves I (upsert_challenge c block))
    (bids : (b : Bid) → Preserves I (upsert_bid b)) where
  Preserves-write_bid : (block : ℤ) (c : Challenge) (b : Bid) → Preserves I (write_bid block c b)
  unfolding write_bid
  Preserves-write_bid block c b =
      Preserves-bind I (upsert_challenge c block) (λ u. upsert_bid b) (challenges c block)
        (λ u. bids b)

  Preserves-with_data :
      (o : Option (List ℕ)) (n : ℕ) (k : List ℕ → Exec Store (Unit {0}))
      → ((bytes : List ℕ) → Preserves I (k bytes))
      → Preserves I (with_data o n k)
  unfolding with_data
  Preserves-with_data none n k h s i = i
  Preserves-with_data (some bytes) n k h s i = elim (Bool-cases (ltb (length bytes) n)) [
    | inl short ↦ rw short i
    | inr long ↦ rw long (h bytes s i)
  ]

  Preserves-with_challenge :
      (o : Option Challenge) (k : Challenge → Exec Store (Unit {0}))
      → ((c : Challenge) → Preserves I (k c))
      → Preserves I (with_challenge o k)
  unfolding with_challenge
  Preserves-with_challenge none k h s i = i
  Preserves-with_challenge (some c) k h s i = h c s i

  Preserves-bid_exists : (tx : Text) (n : ℕ) → Preserves I (bid_exists_by_log tx n)
  unfolding bid_exists_by_log
  Preserves-bid_exists [] n s i = i
  Preserves-bid_exists (c ∷ tx) n s i = reads Bool (bid_in (lower (c ∷ tx)) n) s i

  Preserves-or_zero : {A : Type 0} (z : A) (p : Result A × Store) → I p.1 → I (or_zero z p).1
  Preserves-or_zero z p i = rw (or_zero-state z p) i

  Preserves-skip_if :
      (k : Exec Store (Unit {0})) (p : Bool × Store) → Preserves I k → I p.1 → I (skip_if k p).1
  unfolding skip_if
  Preserves-skip_if k (true, t) h i = i
  Preserves-skip_if k (false, t) h i = h t i

  Preserves-unless_seen :
      (log : Log) (k : Exec Store (Unit {0})) → Preserves I k → Preserves I (unless_seen log k)
  unfolding unless_seen
  Preserves-unless_seen log k h s i =
      let found = bid_exists_by_log log.tx_hash (log_idx log) s in
      Preserves-skip_if k (or_zero false found) h
        (Preserves-or_zero false found (Preserves-bid_exists log.tx_hash (log_idx log) s i))

  Preserves-found_challenge :
      (id : Text) (k : Challenge → Exec Store (Unit {0}))
      → ((c : Challenge) → Preserves I (k c))
      → Preserves I (get_challenge id >>= λ o. with_challenge o k)
  unfolding get_challenge
  Preserves-found_challenge id k h =
      Preserves-bind I (query (challenge_in id)) (λ o. with_challenge o k)
        (reads (Option Challenge) (challenge_in id)) (λ o. Preserves-with_challenge o k h)

  -- The handlers write the challenge and bid tables alone.
  module _ (junk : Text → ℤ) (log : Log) (bidder : Text) where
    Preserves-averted_event : (bytes : List ℕ) → Preserves I (averted_event junk log bidder bytes)
    unfolding averted_event averted averted_on
    Preserves-averted_event bytes = Preserves-found_challenge _ _ (λ c. Preserves-write_bid _ _ _)

    Preserves-handle_averted : Preserves I (handle_averted junk log bidder)
    unfolding handle_averted
    Preserves-handle_averted s i = elim (Bool-cases (ltb (length log.topics) 2)) [
      | inl few ↦ rw few i
      | inr enough ↦
          rw enough
            (Preserves-unless_seen log _ (Preserves-with_data _ 64 _ Preserves-averted_event) s i)
    ]

    Preserves-succeeded_event :
        (bytes : List ℕ) → Preserves I (succeeded_event junk log bidder bytes)
    unfolding succeeded_event succeeded succeeded_on
    Preserves-succeeded_event bytes = Preserves-found_challenge _ _ (λ c. Preserves-write_bid _ _ _)

    Preserves-handle_succeeded : Preserves I (handle_succeeded junk log bidder)
    unfolding handle_succeeded
    Preserves-handle_succeeded s i = elim (Bool-cases (ltb (length log.topics) 2)) [
      | inl few ↦ rw few i
      | inr enough ↦
          rw enough (
            Preserves-unless_seen log _ (Preserves-with_data _ 128 _ Preserves-succeeded_event) s i)
    ]

  module _ (hydrate : Text → Decoded Position) (log : Log) (ts : ℤ) where
    Preserves-started :
        (position : Text) (size number : ℕ)
        → Preserves I (started hydrate log ts position size number)
    unfolding started is_complete gives_up get_challenge get_position
    Preserves-started position size number s i =
        let first = or_zero none (get_challenge (challenge_id position number) s) in
        let second = or_zero none (get_position position first.1) in
        let t = terms second.0 (hydrate position) in
        let i₁ : I first.1 =
          Preserves-or_zero none (get_challenge (challenge_id position number) s)
            (reads (Option Challenge) (challenge_in (challenge_id position number)) s i) in
        let i₂ : I second.1 =
          Preserves-or_zero none (get_position position first.1)
            (reads (Option Position) (position_in (lower position)) first.1 i₁) in
        elim (Bool-cases (is_complete first.0)) [
          | inl complete ↦ rw complete i₁
          | inr partial ↦ elim (Bool-cases (crashes second.0 (hydrate position))) [
            | inl crash ↦ rw (partial, crash) i₂
            | inr alive ↦ elim (Bool-cases (gives_up first.0 t)) [
              | inl up ↦ rw (partial, alive, up) i₂
              | inr on ↦ rw (partial, alive, on) (challenges _ _ second.1 i₂)
            ]
          ]
        ]

    Preserves-handle_started : Preserves I (handle_started hydrate log ts)
    unfolding handle_started started_event
    Preserves-handle_started s i = elim (Bool-cases (ltb (length log.topics) 3)) [
      | inl few ↦ rw few i
      | inr enough ↦ rw enough (Preserves-with_data _ 64 _ (λ bytes. Preserves-started _ _ _) s i)
    ]

  module _ (junk : Text → ℤ) (rpc : Rpc) where
    Preserves-counted :
        (m : Exec Store (Unit {0})) (s : Store) → Preserves I m → I s → I (counted (m s)).1
    Preserves-counted m s h i = rw (counted-state (m s)) (h s i)

    Preserves-scan_log :
        (ts : ℤ) (senders : Text → Text) (log : Log) (s : Store)
        → I s
        → I (scan_log junk rpc ts senders log s).1
    unfolding scan_log
    Preserves-scan_log ts senders log s i =
        let kind = topic 0 log.topics in
        let bidder = senders (lower log.tx_hash) in
        elim (Bool-cases (eqb (length log.topics) 0)) [
          | inl bare ↦ rw bare i
          | inr t ↦ elim (Bool-cases (kind == topic_challenge_started)) [
            | inl e ↦
                rw (t, e)
                  (Preserves-counted (handle_started rpc.hydrate log ts) s
                    (Preserves-handle_started rpc.hydrate log ts) i)
            | inr e ↦ elim (Bool-cases (kind == topic_challenge_averted)) [
              | inl f ↦
                  rw (t, e, f)
                    (Preserves-counted (handle_averted junk log bidder) s
                      (Preserves-handle_averted junk log bidder) i)
              | inr f ↦ elim (Bool-cases (kind == topic_challenge_succeed)) [
                | inl g ↦
                    rw (t, e, f, g)
                      (Preserves-counted (handle_succeeded junk log bidder) s
                        (Preserves-handle_succeeded junk log bidder) i)
                | inr g ↦ rw (t, e, f, g) i
              ]
            ]
          ]
        ]

    Preserves-sum :
        (m k : Exec Store ℕ)
        → Preserves I m
        → Preserves I k
        → Preserves I (m >>= λ a. k >>= λ b. pure (a + b))
    Preserves-sum m k hm hk = Preserves-bind I m _ hm (λ a. Preserves-bind I k _ hk (λ b s i. i))

    Preserves-scan_logs :
        (ts : ℤ) (senders : Text → Text) (ls : List Log)
        → Preserves I (scan_logs junk rpc ts senders ls)
    unfolding scan_logs
    Preserves-scan_logs ts senders [] s i = i
    Preserves-scan_logs ts senders (l ∷ ls) s i =
        Preserves-sum (scan_log junk rpc ts senders l) (scan_logs junk rpc ts senders ls)
          (Preserves-scan_log ts senders l) (Preserves-scan_logs ts senders ls) s i

    Preserves-scan_block :
        (o : Option (ℤ × (Text → Text))) (ls : List Log) → Preserves I (scan_block junk rpc o ls)
    unfolding scan_block
    Preserves-scan_block none ls s i = i
    Preserves-scan_block (some (ts, senders)) ls s i = Preserves-scan_logs ts senders ls s i

    pub Preserves-scan_blocks :
        (logs : List Log) (bs : List ℕ) → Preserves I (scan_blocks junk rpc logs bs)
    unfolding scan_blocks
    Preserves-scan_blocks logs [] s i = i
    Preserves-scan_blocks logs (b ∷ bs) s i =
        Preserves-sum (scan_block junk rpc (rpc.get_block b) (logs_in b logs))
          (scan_blocks junk rpc logs bs) (Preserves-scan_block _ _) (Preserves-scan_blocks logs bs)
          s i

    pub Preserves-scan_challenges : (from to : ℕ) → Preserves I (scan_challenges junk rpc from to)
    unfolding scan_challenges
    Preserves-scan_challenges from to s i = elim (Option-cases (rpc.get_logs from to)) [
      | inl e ↦ rw (scan_challenges, e) i
      | inr (logs, e) ↦
          rw (scan_challenges, e) (Preserves-scan_blocks logs (block_numbers logs) s i)
    ]
