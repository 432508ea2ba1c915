-- ===== src/Indexer/Bootstrap/Challenges/Laws.antt =====
-- When the marker of the seed is set.
use zchf_grenadier.Prelude.{
  ℕ, ◌≡◌, refl, ap, sym, ◌∙◌, ◌⊎◌, Option, none, some, List, [], ◌∷◌, nat_eq, list_eq, inl, inr,
}
use mathlib.Core.Option.{some-injective}
use zchf_grenadier.Prelude.Int.{pos}
use zchf_grenadier.Text.{Text}
use zchf_grenadier.Text.Decimal.{print, parse, parse-print}
use zchf_grenadier.Exec.{Result, ok, err, continue}
use zchf_grenadier.Table.{upsert, find}
use zchf_grenadier.Table.Laws.{find-upsert_self}
use zchf_grenadier.Store.Rows.{Challenge, Bid}
use zchf_grenadier.Store.Handle.{Db, Store, quiet}
use zchf_grenadier.Store.Handle.Laws.{Wrote, execute-Wrote, bulk-Wrote, steps, query_cases}
use zchf_grenadier.Store.Challenges.{
  put_challenge, fold_challenge, put_bid, fold_bid, bulk_upsert_challenges, bulk_upsert_bids,
}
use zchf_grenadier.Store.Positions.{get_meta, set_meta, text_or_empty}
use zchf_grenadier.Indexer.Sources.{fetch_and_decode, endpoint_challenges, endpoint_bids}
use zchf_grenadier.Indexer.Bootstrap.Laws.{steps-meta}
use zchf_grenadier.Indexer.Bootstrap.Challenges.{
  ApiChallenge, ApiBid, boot_chal_marker, seed_challenges, seed_bids, or_no_bids, seed_from,
  set_marker, with_head, unless_marked, bootstrap_challenges,
}

abbrev challenge_step : Challenge → Db → Option Db
challenge_step c = put_challenge (pos 0) (fold_challenge c)

abbrev bid_step : Bid → Db → Option Db
bid_step b = put_bid (fold_bid b)

abbrev pub challenge_steps : List Challenge → Db → Option Db
challenge_steps = steps challenge_step

abbrev pub bid_steps : List Bid → Db → Option Db
bid_steps = steps bid_step

bulk_upsert_challenges-Wrote :
    (cs : List Challenge) (s : Store)
    → Wrote (challenge_steps cs s.db) s.db (bulk_upsert_challenges cs (pos 0) s)
unfolding bulk_upsert_challenges steps
bulk_upsert_challenges-Wrote [] s = refl
bulk_upsert_challenges-Wrote (c ∷ cs) s = bulk-Wrote challenge_step (c ∷ cs) s

bulk_upsert_bids-Wrote :
    (bs : List Bid) (s : Store) → Wrote (bid_steps bs s.db) s.db (bulk_upsert_bids bs s)
unfolding bulk_upsert_bids steps
bulk_upsert_bids-Wrote [] s = refl
bulk_upsert_bids-Wrote (b ∷ bs) s = bulk-Wrote bid_step (b ∷ bs) s

put_challenge-meta :
    (c : Challenge) (old new : Db) → challenge_step c old ≡ some new → new.meta ≡ old.meta
unfolding put_challenge
put_challenge-meta c old new e = ap (λ (d : Db). d.meta) (sym (some-injective _ _ e))

put_bid-meta : (b : Bid) (old new : Db) → bid_step b old ≡ some new → new.meta ≡ old.meta
unfolding put_bid
put_bid-meta b old new e = ap (λ (d : Db). d.meta) (sym (some-injective _ _ e))

-- The database with both lists written.
abbrev pub SeededBoth : List ApiChallenge → List ApiBid → Db → Db → Type 0
SeededBoth cs bs db new =
    (mid : Db) × (challenge_steps (seed_challenges cs) db ≡ some mid)
    × (bid_steps (seed_bids bs) mid ≡ some new)

meta-SeededBoth :
    (cs : List ApiChallenge) (bs : List ApiBid) (db new : Db)
    → SeededBoth cs bs db new
    → new.meta ≡ db.meta
meta-SeededBoth cs bs db new (mid, h, k) =
    steps-meta bid_step put_bid-meta (seed_bids bs) mid new k
    ∙ steps-meta challenge_step put_challenge-meta (seed_challenges cs) db mid h

abbrev pub marked : ℕ → Db → Db
marked n db = record db { meta = upsert boot_chal_marker (print n) db.meta }

-- After seedFromPeers: an error leaves the meta table, a result means that both lists were written.
abbrev SeedEnds :
    Result (List ApiChallenge) → Result (List ApiBid) → Db → Result (Unit {0}) × Store → Type 0
SeedEnds rc rb db (ok u, s) =
    (cs : List ApiChallenge) × (rc ≡ ok cs) × SeededBoth cs (or_no_bids rb) db s.db
SeedEnds rc rb db (err e, s) = s.db.meta ≡ db.meta

bids_written :
    (cs : List ApiChallenge) (rb : Result (List ApiBid)) (db mid : Db)
    (p : Result (Unit {0}) × Store)
    → challenge_steps (seed_challenges cs) db ≡ some mid
    → Wrote (bid_steps (seed_bids (or_no_bids rb)) mid) mid p
    → SeedEnds (ok cs) rb db p
bids_written cs rb db mid (ok u, s) h w = (cs, refl, (mid, h, w))
bids_written cs rb db mid (err e, s) h w =
    ap (λ (d : Db). d.meta) w
    ∙ steps-meta challenge_step put_challenge-meta (seed_challenges cs) db mid h

challenges_written :
    (cs : List ApiChallenge) (rb : Result (List ApiBid)) (db : Db) (p : Result (Unit {0}) × Store)
    → Wrote (challenge_steps (seed_challenges cs) db) db p
    → SeedEnds (ok cs) rb db (continue p.0 p.1 (λ _. bulk_upsert_bids (seed_bids (or_no_bids rb))))
challenges_written cs rb db (ok u, s) w =
    bids_written cs rb db s.db (bulk_upsert_bids (seed_bids (or_no_bids rb)) s) w
      (bulk_upsert_bids-Wrote (seed_bids (or_no_bids rb)) s)
challenges_written cs rb db (err e, s) w = ap (λ (d : Db). d.meta) w

seed_from-SeedEnds :
    (rc : Result (List ApiChallenge)) (rb : Result (List ApiBid)) (s : Store)
    → SeedEnds rc rb s.db (seed_from rc rb s)
unfolding seed_from
seed_from-SeedEnds (err e) rb s = refl
seed_from-SeedEnds (ok cs) rb s =
    challenges_written cs rb s.db (bulk_upsert_challenges (seed_challenges cs) (pos 0) s)
      (bulk_upsert_challenges-Wrote (seed_challenges cs) s)

-- Where BootstrapChallenges ends: an error leaves the meta table; a result leaves it too, or means
-- that both lists were written and the marker set to the head.
abbrev pub MarkedAfter :
    Result (List ApiChallenge)
    → Result (List ApiBid)
    → Option ℕ
    → Db
    → Result (Unit {0}) × Store
    → Type 0
MarkedAfter rc rb head db (ok u, s) =
    (s.db.meta ≡ db.meta)
    ⊎ ((cs : List ApiChallenge) × (n : ℕ) × (new : Db) × (rc ≡ ok cs)
        × (head ≡ some n)
        × SeededBoth cs (or_no_bids rb) db new
        × (s.db ≡ marked n new))
MarkedAfter rc rb head db (err e, s) = s.db.meta ≡ db.meta

module _ (rc : Result (List ApiChallenge)) (rb : Result (List ApiBid)) (db : Db) (n : ℕ) where
  marker_written :
      (new : Db) (cs : List ApiChallenge) (p : Result (Unit {0}) × Store)
      → rc ≡ ok cs
      → SeededBoth cs (or_no_bids rb) db new
      → Wrote (some (marked n new)) new p
      → MarkedAfter rc rb (some n) db p
  marker_written new cs (ok u, s) e both w =
      inr (cs, n, new, e, refl, both, sym (some-injective _ _ w))
  marker_written new cs (err x, s) e both w =
      ap (λ (d : Db). d.meta) w ∙ meta-SeededBoth cs (or_no_bids rb) db new both

  set_marker-MarkedAfter :
      (p : Result (Unit {0}) × Store)
      → SeedEnds rc rb db p
      → MarkedAfter rc rb (some n) db (set_marker n p)
  unfolding set_marker set_meta
  set_marker-MarkedAfter (err e, s) h = inl h
  set_marker-MarkedAfter (ok u, s) (cs, e, both) =
      marker_written s.db cs _ e both (execute-Wrote (λ d. some (marked n d)) s)

print_nonempty : (n : ℕ) → print n ≡ [] → ⊥
print_nonempty n e = none_some (sym (ap parse e) ∙ parse-print n)
  where
    none_some : parse [] ≡ some n → ⊥
    none_some h = unfold parse in let bad : none ≡ some n = h in cc

module _ (http_get : Text → Option Text) (decode : Text → Option (List ApiChallenge))
    (decode_bids : Text → Option (List ApiBid)) where
  abbrev challenge_answer : Result (List ApiChallenge)
  challenge_answer = fetch_and_decode http_get decode endpoint_challenges

  abbrev bid_answer : Result (List ApiBid)
  bid_answer = fetch_and_decode http_get decode_bids endpoint_bids

  with_head-MarkedAfter :
      (head : Option ℕ) (s : Store)
      → MarkedAfter challenge_answer bid_answer head s.db
          (with_head http_get decode decode_bids head s)
  unfolding with_head
  with_head-MarkedAfter none s = refl
  with_head-MarkedAfter (some n) s =
      set_marker-MarkedAfter challenge_answer bid_answer s.db n
        (seed_from challenge_answer bid_answer s) (seed_from-SeedEnds challenge_answer bid_answer s)

  read-MarkedAfter :
      (head : Option ℕ) (db : Db) (p : Result Text × Store)
      → p.1.db ≡ db
      → MarkedAfter challenge_answer bid_answer head db
          (unless_marked http_get decode decode_bids head p)
  unfolding unless_marked
  read-MarkedAfter head db (ok [], s) e = rw (← e) (with_head-MarkedAfter head s)
  read-MarkedAfter head db (ok (c ∷ v), s) e = inl (ap (λ (d : Db). d.meta) e)
  read-MarkedAfter head db (err x, s) e = rw (← e) (with_head-MarkedAfter head s)

  -- BootstrapChallenges sets its marker only behind a complete seed, whatever the peers answer and
  -- whichever statements fail: where it ends in an error the meta table is as it was, and where it
  -- ends without one the meta table is as it was, or every challenge of version 2 that the peers
  -- listed was written, then every bid of version 2 where the bids were answered, then the marker.
  pub bootstrap_challenges-MarkedAfter :
      (head : Option ℕ) (s : Store)
      → MarkedAfter challenge_answer bid_answer head s.db
          (bootstrap_challenges http_get decode decode_bids head s)
  unfolding bootstrap_challenges get_meta
  bootstrap_challenges-MarkedAfter head s =
      query_cases (λ db. text_or_empty (find boot_chal_marker db.meta)) s
        (λ p.
          MarkedAfter challenge_answer bid_answer head s.db
            (unless_marked http_get decode decode_bids head p))
        (λ os.
          read-MarkedAfter head s.db
            (ok (text_or_empty (find boot_chal_marker s.db.meta)), record s { outcomes = os }) refl)
        (λ os. with_head-MarkedAfter head (record s { outcomes = os }))

  marked_stops :
      (head : Option ℕ) (v : Text) (s : Store)
      → (v ≡ [] → ⊥)
      → unless_marked http_get decode decode_bids head (ok v, s) ≡ (ok tt, s)
  unfolding unless_marked
  marked_stops head [] s h = absurd (h refl)
  marked_stops head (c ∷ v) s h = refl

  -- Once the marker is set, at any head, BootstrapChallenges does nothing and returns without an
  -- error, where no statement fails and whatever the peers and the chain would answer.
  pub bootstrap_challenges-marked :
      (head : Option ℕ) (n : ℕ) (db : Db)
      → bootstrap_challenges http_get decode decode_bids head (quiet (marked n db))
        ≡ (ok tt, quiet (marked n db))
  unfolding bootstrap_challenges get_meta text_or_empty
  bootstrap_challenges-marked head n db =
      rw (find-upsert_self boot_chal_marker (print n) db.meta)
        (marked_stops head (print n) (quiet (marked n db)) (print_nonempty n))
