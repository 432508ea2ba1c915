-- ===== src/Store/Challenges/Laws.antt =====
-- What the challenge and bid tables return after a write.
use zchf_grenadier.Prelude.{
  ℕ, ◌≡◌, refl, ◌≢◌, inl, inr, Bool, true, false, ◌&&◌, Option, some, [], ◌∷◌, ◌==◌, ==_refl,
  nat_eq, list_eq, if◌then◌else◌, Bool-cases,
}
use mathlib.Core.Option.{some-injective}
use zchf_grenadier.Prelude.Int.{ℤ}
use zchf_grenadier.Text.{Text, lower}
use zchf_grenadier.Exec.{Result, ok, err}
use zchf_grenadier.Table.{Table, find, upsert, rows}
use zchf_grenadier.Table.Laws.{find-upsert}
use zchf_grenadier.Store.Rows.{Challenge, ChallengeRow, Bid, BidRow}
use zchf_grenadier.Store.Handle.{Db, Store, quiet, query}
use zchf_grenadier.Store.Handle.Laws.{Wrote, execute-Wrote}
use zchf_grenadier.Store.Challenges.{
  fold_challenge, challenge_row, upsert_challenge, challenge_data, challenge_in, get_challenge,
  has_log, bid_in, bid_exists_by_log, fold_bid, bid_row, put_bid, upsert_bid,
}

abbrev pub after_challenge : Challenge → ℤ → Db → Db
after_challenge c block db = record db {
  challenges = upsert c.id (challenge_row (fold_challenge c) block) db.challenges;
}

abbrev pub after_bid : Bid → Db → Db
after_bid b db = record db { bids = upsert b.id (bid_row (fold_bid b)) db.bids }

pub get_challenge-quiet :
    (id : Text) (db : Db) → get_challenge id (quiet db) ≡ (ok (challenge_in id db), quiet db)
unfolding get_challenge
get_challenge-quiet id db = refl

pub upsert_challenge-quiet :
    (c : Challenge) (block : ℤ) (db : Db)
    → upsert_challenge c block (quiet db) ≡ (ok tt, quiet (after_challenge c block db))
unfolding upsert_challenge
upsert_challenge-quiet c block db = refl

pub upsert_bid-quiet :
    (b : Bid) (db : Db) → upsert_bid b (quiet db) ≡ (ok tt, quiet (after_bid b db))
unfolding upsert_bid
upsert_bid-quiet b db = refl

challenge_data-if :
    (b : Bool) (r : ChallengeRow) (o : Option ChallengeRow)
    → challenge_data (if b then some r else o)
      ≡ (if b then some r.data_column else challenge_data o)
unfolding challenge_data
challenge_data-if true r o = refl
challenge_data-if false r o = refl

-- GetChallenge after UpsertChallenge.
pub challenge_in-after_challenge :
    (c : Challenge) (block : ℤ) (db : Db) (id : Text)
    → challenge_in id (after_challenge c block db)
      ≡ (if c.id == id then some (fold_challenge c) else challenge_in id db)
unfolding challenge_in challenge_row
challenge_in-after_challenge c block db id =
    rw (find-upsert c.id id _ db.challenges) (challenge_data-if _ _ (find id db.challenges))

-- A write of bids leaves the challenges, and the other way round.
pub challenge_in-after_bid :
    (b : Bid) (db : Db) (id : Text) → challenge_in id (after_bid b db) ≡ challenge_in id db
unfolding challenge_in
challenge_in-after_bid b db id = refl

pub bid_in-after_challenge :
    (c : Challenge) (block : ℤ) (db : Db) (tx : Text) (i : ℕ)
    → bid_in tx i (after_challenge c block db) ≡ bid_in tx i db
unfolding bid_in
bid_in-after_challenge c block db tx i = refl

-- Is the row that of the log?
abbrev pub of_log : Text → ℕ → BidRow → Bool
of_log tx i r = r.tx_hash == tx && r.log_index == i

has_log-upsert_self :
    (tx : Text) (i : ℕ) (id : Text) (r : BidRow) (t : Table Text BidRow)
    → of_log tx i r ≡ true
    → has_log tx i (rows (upsert id r t)) ≡ true
unfolding has_log rows upsert
has_log-upsert_self tx i id r [] h = rw h
has_log-upsert_self tx i id r ((j, q) ∷ t) h =
    let ih = has_log-upsert_self tx i id r t h in
    elim (Bool-cases (j == id)) [
      | inl same ↦ rw (same, h)
      | inr other ↦ elim (Bool-cases (of_log tx i q)) [
        | inl here ↦ rw (other, here)
        | inr there ↦ rw (other, there) ih
      ]
    ]

has_log-upsert_other :
    (tx : Text) (i : ℕ) (id : Text) (r : BidRow) (t : Table Text BidRow)
    → of_log tx i r ≡ false
    → has_log tx i (rows t) ≡ false
    → has_log tx i (rows (upsert id r t)) ≡ false
unfolding has_log rows upsert
has_log-upsert_other tx i id r [] h absent = rw h
has_log-upsert_other tx i id r ((j, q) ∷ t) h absent = elim (Bool-cases (of_log tx i q)) [
  | inl here ↦ let bad : true ≡ false = rw here at absent in cc
  | inr there ↦
      let rest : has_log tx i (rows t) ≡ false = rw there at absent in
      elim (Bool-cases (j == id)) [
        | inl same ↦ rw (same, h) rest
        | inr other ↦ rw (other, there) (has_log-upsert_other tx i id r t h rest)
      ]
]

-- BidExistsByLog after UpsertBid: the log of the new row is there, and a log that was not there
-- and is not the new row's still is not.
pub bid_in-after_bid_self :
    (b : Bid) (db : Db) → bid_in (lower b.tx_hash) b.log_index (after_bid b db) ≡ true
unfolding bid_in bid_row fold_bid
bid_in-after_bid_self b db =
    has_log-upsert_self (lower b.tx_hash) b.log_index b.id (bid_row (fold_bid b)) db.bids
      (rw (==_refl (lower b.tx_hash), ==_refl b.log_index))

pub bid_in-after_bid_other :
    (b : Bid) (db : Db) (tx : Text) (i : ℕ)
    → of_log tx i (bid_row (fold_bid b)) ≡ false
    → bid_in tx i db ≡ false
    → bid_in tx i (after_bid b db) ≡ false
unfolding bid_in
bid_in-after_bid_other b db tx i h absent =
    has_log-upsert_other tx i b.id (bid_row (fold_bid b)) db.bids h absent

-- An UpsertBid that succeeds leaves the log of its row in the table.
abbrev pub Marks : Text → ℕ → Result (Unit {0}) × Store → Type 0
Marks tx i (ok u, s) = bid_in tx i s.db ≡ true
Marks tx i (err e, s) = Unit

Marks-of_Wrote :
    (b : Bid) (old : Db) (p : Result (Unit {0}) × Store)
    → Wrote (some (after_bid b old)) old p
    → Marks (lower b.tx_hash) b.log_index p
Marks-of_Wrote b old (ok u, s) w = rw (← some-injective _ _ w) (bid_in-after_bid_self b old)
Marks-of_Wrote b old (err e, s) w = tt

pub upsert_bid-Marks : (b : Bid) (s : Store) → Marks (lower b.tx_hash) b.log_index (upsert_bid b s)
unfolding upsert_bid
upsert_bid-Marks b s = Marks-of_Wrote b s.db _ (execute-Wrote (put_bid (fold_bid b)) s)

pub bid_exists-query :
    (tx : Text) (i : ℕ) → tx ≢ [] → bid_exists_by_log tx i ≡ query (bid_in (lower tx) i)
unfolding bid_exists_by_log
bid_exists-query [] i h = absurd (h refl)
bid_exists-query (c ∷ tx) i h = refl
