-- ===== src/Indexer/Challenges/Unhurt.antt =====
-- The handlers of the challenge events panic only where a hydration does.
use zchf_grenadier.Prelude.{
  ℕ, ◌≡◌, ◌≢◌, refl, Bool, true, false, Option, none, some, List, nat_eq, list_eq, length, ltb,
  Bool-cases, inl, inr,
}
use zchf_grenadier.Prelude.Int.{ℤ}
use zchf_grenadier.Text.{Text}
use zchf_grenadier.Exec.{Result, ok, err, is_crash, Exec, continue, ◌>>=◌}
use zchf_grenadier.Store.Rows.{Position, Challenge, Bid}
use zchf_grenadier.Store.Handle.{Db, Store, query, execute}
use zchf_grenadier.Store.Handle.Laws.{query_cases, FailsOnly, execute-FailsOnly}
use zchf_grenadier.Store.Challenges.{
  upsert_challenge, upsert_bid, bid_exists_by_log, get_challenge, challenge_in, put_challenge,
  fold_challenge, put_bid, fold_bid,
}
use zchf_grenadier.Store.Positions.{get_position}
use zchf_grenadier.Chain.Abi.{Decoded, value, refused, panicked}
use zchf_grenadier.Chain.Log.{Log, log_idx}
use zchf_grenadier.Indexer.Challenges.Event.{or_zero, with_data, challenge_id}
use zchf_grenadier.Indexer.Challenges.Bids.{
  write_bid, with_challenge, averted_on, averted, averted_event, unless_seen, skip_if,
  handle_averted, succeeded_on, succeeded, succeeded_event, handle_succeeded,
}
use zchf_grenadier.Indexer.Challenges.Started.{
  is_complete, gives_up, crashes, terms, started, started_event, handle_started,
}

-- A result, or an error that is no panic.
abbrev pub NoCrash : {A : Type 0} → Result A × Store → Type 0
NoCrash (ok a, s) = Unit
NoCrash (err e, s) = is_crash e ≡ false

abbrev Lives : {A : Type 0} → Exec Store A → Type 0
Lives m = (s : Store) → NoCrash (m s)

Lives-bind :
    {A B : Type 0} (m : Exec Store A) (k : A → Exec Store B)
    → Lives m
    → ((a : A) → Lives (k a))
    → Lives (m >>= k)
Lives-bind m k hm hk s = go (m s) (hm s)
  where
    go : (p : Result _ × Store) → NoCrash p → NoCrash (continue p.0 p.1 k)
    go (ok a, t) h = hk a t
    go (err e, t) h = h

Lives-query : {A : Type 0} (f : Db → A) → Lives (query f)
Lives-query f s = query_cases f s NoCrash (λ os. tt) (λ os. refl)

Lives-execute : (change : Db → Option Db) → Lives (execute change)
Lives-execute change s = go (execute change s) (execute-FailsOnly change s)
  where
    go : (p : Result (Unit {0}) × Store) → FailsOnly (p.0, p.1.db) → NoCrash p
    go (ok u, t) h = tt
    go (err e, t) h = rw h refl

Lives-upsert_challenge : (c : Challenge) (block : ℤ) → Lives (upsert_challenge c block)
unfolding upsert_challenge
Lives-upsert_challenge c block = Lives-execute (put_challenge block (fold_challenge c))

Lives-write_bid : (block : ℤ) (c : Challenge) (b : Bid) → Lives (write_bid block c b)
unfolding write_bid upsert_bid
Lives-write_bid block c b =
    Lives-bind (upsert_challenge c block) (λ u. upsert_bid b) (Lives-upsert_challenge c block)
      (λ u. Lives-execute (put_bid (fold_bid b)))

Lives-with_data :
    (o : Option (List ℕ)) (n : ℕ) (k : List ℕ → Exec Store (Unit {0}))
    → ((bytes : List ℕ) → Lives (k bytes))
    → Lives (with_data o n k)
unfolding with_data
Lives-with_data none n k h s = refl
Lives-with_data (some bytes) n k h s = elim (Bool-cases (ltb (length bytes) n)) [
  | inl short ↦ rw short refl
  | inr long ↦ rw long (h bytes s)
]

Lives-found_challenge :
    (id : Text) (k : Challenge → Exec Store (Unit {0}))
    → ((c : Challenge) → Lives (k c))
    → Lives (get_challenge id >>= λ o. with_challenge o k)
unfolding get_challenge with_challenge
Lives-found_challenge id k h =
    Lives-bind (query (challenge_in id)) (λ o. with_challenge o k) (Lives-query (challenge_in id))
      on
  where
    on : (o : Option Challenge) → Lives (with_challenge o k)
    on none s = refl
    on (some c) s = h c s

Lives-unless_seen : (log : Log) (k : Exec Store (Unit {0})) → Lives k → Lives (unless_seen log k)
unfolding unless_seen skip_if
Lives-unless_seen log k h s = go (unseen s)
  where
    unseen : Store → Bool × Store
    unseen t = or_zero false (bid_exists_by_log log.tx_hash (log_idx log) t)

    go : (p : Bool × Store) → NoCrash (skip_if k p)
    go (true, t) = tt
    go (false, t) = h t

module _ (junk : Text → ℤ) (log : Log) (bidder : Text) where
  pub Lives-handle_averted : Lives (handle_averted junk log bidder)
  unfolding handle_averted averted_event averted averted_on
  Lives-handle_averted s = elim (Bool-cases (ltb (length log.topics) 2)) [
    | inl few ↦ rw few refl
    | inr enough ↦ rw enough (
        Lives-unless_seen log _
          (Lives-with_data _ 64 _ (λ bytes. Lives-found_challenge _ _ (λ c. Lives-write_bid _ _ _)))
          s)
  ]

  pub Lives-handle_succeeded : Lives (handle_succeeded junk log bidder)
  unfolding handle_succeeded succeeded_event succeeded succeeded_on
  Lives-handle_succeeded s = elim (Bool-cases (ltb (length log.topics) 2)) [
    | inl few ↦ rw few refl
    | inr enough ↦ rw enough (
        Lives-unless_seen log _
          (Lives-with_data _ 128 _
            (λ bytes. Lives-found_challenge _ _ (λ c. Lives-write_bid _ _ _)))
          s)
  ]

crashes-value :
    (stored : Option Position) (d : Decoded Position) → d ≢ panicked → crashes stored d ≡ false
unfolding crashes
crashes-value (some p) d h = refl
crashes-value none (value p) h = refl
crashes-value none refused h = refl
crashes-value none panicked h = absurd (h refl)

module _ (hydrate : Text → Decoded Position) (calm : (a : Text) → hydrate a ≢ panicked) (log : Log)
    (ts : ℤ) where
  Lives-started :
      (position : Text) (size number : ℕ) → Lives (started hydrate log ts position size number)
  unfolding started
  Lives-started position size number s =
      let first = or_zero none (get_challenge (challenge_id position number) s) in
      let second = or_zero none (get_position position first.1) in
      let t = terms second.0 (hydrate position) in
      let alive = crashes-value second.0 (hydrate position) (calm position) in
      elim (Bool-cases (is_complete first.0)) [
        | inl complete ↦ rw complete tt
        | inr partial ↦ elim (Bool-cases (gives_up first.0 t)) [
          | inl up ↦ rw (partial, alive, up) tt
          | inr on ↦ rw (partial, alive, on) (Lives-upsert_challenge _ _ second.1)
        ]
      ]

  pub Lives-handle_started : Lives (handle_started hydrate log ts)
  unfolding handle_started started_event
  Lives-handle_started s = elim (Bool-cases (ltb (length log.topics) 3)) [
    | inl few ↦ rw few refl
    | inr enough ↦ rw enough (Lives-with_data _ 64 _ (λ bytes. Lives-started _ _ _) s)
  ]
