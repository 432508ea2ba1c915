-- ===== src/Indexer/Challenges/Alive.antt =====
-- ScanChallenges ends without a panic where each log has a topic and no hydration panics.
use zchf_grenadier.Prelude.{
  ℕ, ◌+◌, ◌≡◌, ◌≢◌, false, Option, none, some, List, [], ◌∷◌, ◌==◌, nat_eq, list_eq, eqb, length,
  All, Bool-cases, inl, inr,
}
use zchf_grenadier.Prelude.Int.{ℤ}
use zchf_grenadier.Text.{Text, lower}
use zchf_grenadier.Exec.{Result, ok, err, Exec, pure, continue, ◌>>=◌}
use zchf_grenadier.Store.Handle.{Store}
use zchf_grenadier.Chain.Abi.{panicked}
use zchf_grenadier.Chain.Log.{
  Log, block_num, topic, topic_challenge_started, topic_challenge_averted, topic_challenge_succeed,
}
use zchf_grenadier.Indexer.Challenges.Bids.{handle_averted, handle_succeeded}
use zchf_grenadier.Indexer.Challenges.Started.{handle_started}
use zchf_grenadier.Indexer.Challenges.Scan.{
  Rpc, counted, scan_log, scan_logs, scan_block, scan_blocks, logs_in,
}
use zchf_grenadier.Indexer.Challenges.Traversal.{All-sort_logs, All-kept}
use zchf_grenadier.Indexer.Challenges.Unhurt.{
  NoCrash, Lives-handle_averted, Lives-handle_succeeded, Lives-handle_started,
}

-- A result and no error.
abbrev pub Counted : Result ℕ × Store → Type 0
Counted (ok n, s) = Unit
Counted (err e, s) = ⊥

Counted-counted : (p : Result (Unit {0}) × Store) → NoCrash p → Counted (counted p)
unfolding counted
Counted-counted (ok u, s) h = tt
Counted-counted (err e, s) h = rw h tt

Counted-sum :
    (m k : Exec Store ℕ)
    → ((s : Store) → Counted (m s))
    → ((s : Store) → Counted (k s))
    → (s : Store) → Counted ((m >>= λ a. k >>= λ b. pure (a + b)) s)
Counted-sum m k hm hk s = go (m s) (hm s)
  where
    last :
        (a : ℕ) (p : Result ℕ × Store) → Counted p → Counted (continue p.0 p.1 (λ b. pure (a + b)))
    last a (ok b, t) h = tt
    last a (err e, t) h = h

    go :
        (p : Result ℕ × Store)
        → Counted p
        → Counted (continue p.0 p.1 (λ a. k >>= λ b. pure (a + b)))
    go (ok a, t) h = last a (k t) (hk t)
    go (err e, t) h = h

-- The log has a first topic.
abbrev pub HasTopic : Log → Type 0
HasTopic l = eqb (length l.topics) 0 ≡ false

module _ (junk : Text → ℤ) (rpc : Rpc) (calm : (a : Text) → rpc.hydrate a ≢ panicked) where
  Counted-scan_log :
      (ts : ℤ) (senders : Text → Text) (log : Log) (s : Store)
      → HasTopic log
      → Counted (scan_log junk rpc ts senders log s)
  unfolding scan_log
  Counted-scan_log ts senders log s t =
      let kind = topic 0 log.topics in
      let bidder = senders (lower log.tx_hash) in
      elim (Bool-cases (kind == topic_challenge_started)) [
        | inl e ↦
            rw (t, e)
              (Counted-counted (handle_started rpc.hydrate log ts s)
                (Lives-handle_started rpc.hydrate calm log ts s))
        | inr e ↦ elim (Bool-cases (kind == topic_challenge_averted)) [
          | inl f ↦
              rw (t, e, f)
                (Counted-counted (handle_averted junk log bidder s)
                  (Lives-handle_averted junk log bidder s))
          | inr f ↦ elim (Bool-cases (kind == topic_challenge_succeed)) [
            | inl g ↦
                rw (t, e, f, g)
                  (Counted-counted (handle_succeeded junk log bidder s)
                    (Lives-handle_succeeded junk log bidder s))
            | inr g ↦ rw (t, e, f, g) tt
          ]
        ]
      ]

  Counted-scan_logs :
      (ts : ℤ) (senders : Text → Text) (ls : List Log)
      → All HasTopic ls
      → (s : Store) → Counted (scan_logs junk rpc ts senders ls s)
  unfolding scan_logs
  Counted-scan_logs ts senders [] h s = tt
  Counted-scan_logs ts senders (l ∷ ls) (t, h) s =
      Counted-sum (scan_log junk rpc ts senders l) (scan_logs junk rpc ts senders ls)
        (λ x. Counted-scan_log ts senders l x t) (Counted-scan_logs ts senders ls h) s

  Counted-scan_block :
      (o : Option (ℤ × (Text → Text))) (ls : List Log)
      → All HasTopic ls
      → (s : Store) → Counted (scan_block junk rpc o ls s)
  unfolding scan_block
  Counted-scan_block none ls h s = tt
  Counted-scan_block (some (ts, senders)) ls h s = Counted-scan_logs ts senders ls h s

  pub Counted-scan_blocks :
      (logs : List Log) (bs : List ℕ)
      → All HasTopic logs
      → (s : Store) → Counted (scan_blocks junk rpc logs bs s)
  unfolding scan_blocks logs_in
  Counted-scan_blocks logs [] h s = tt
  Counted-scan_blocks logs (b ∷ bs) h s =
      Counted-sum (scan_block junk rpc (rpc.get_block b) (logs_in b logs))
        (scan_blocks junk rpc logs bs)
        (Counted-scan_block (rpc.get_block b) (logs_in b logs)
          (All-sort_logs HasTopic _ (All-kept HasTopic (λ l. eqb (block_num l) b) logs h)))
        (Counted-scan_blocks logs bs h) s
