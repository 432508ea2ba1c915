-- ===== src/Indexer/Challenges/Started.antt =====
-- handleStarted of indexer/challenges.go.
use zchf_grenadier.Prelude.{
  ℕ, ◌%◌, ◌^◌, Bool, true, false, not, ◌&&◌, ◌||◌, Option, none, List, some, [], nat_eq, list_eq,
  if◌then◌else◌, length, ltb,
}
use zchf_grenadier.Prelude.Int.{ℤ, pos, ltb_ℤ, to_int64}
use zchf_grenadier.Text.{Text, codes}
use zchf_grenadier.Text.Decimal.{print}
use zchf_grenadier.Text.Hex.{hex_to_bytes, topic_to_address}
use zchf_grenadier.Exec.{ok, err, missing_topics, crashed, Exec, fail}
use zchf_grenadier.Chain.Abi.{Decoded, value, refused, panicked}
use zchf_grenadier.Store.Rows.{Position, Challenge}
use zchf_grenadier.Store.Handle.{Store}
use zchf_grenadier.Store.Positions.{get_position}
use zchf_grenadier.Store.Challenges.{upsert_challenge, get_challenge}
use zchf_grenadier.Chain.Log.{Log, block_num}
use zchf_grenadier.Chain.Log.{topic}
use zchf_grenadier.Indexer.Challenges.Event.{challenge_id, or_zero, word, with_data, is_priced}

-- The row is there and fully populated.
unfoldable pub is_complete : Option Challenge → Bool
is_complete none = false
is_complete (some c) = is_priced c.liq_price && ltb_ℤ (pos 0) c.duration

-- Price and challenge period, of the stored position or else of the hydrated one.
unfoldable pub terms : Option Position → Decoded Position → Text × ℤ
terms (some p) hydrated = (p.price, p.challenge_period)
terms none (value p) = (p.price, p.challenge_period)
terms none refused = ([], pos 0)
terms none panicked = ([], pos 0)

-- The hydration is asked for where no position is stored, and panics.
unfoldable pub crashes : Option Position → Decoded Position → Bool
crashes (some p) hydrated = false
crashes none (value p) = false
crashes none refused = false
crashes none panicked = true

-- existing != nil, and the terms are still missing
unfoldable pub gives_up : Option Challenge → Text × ℤ → Bool
gives_up none t = false
gives_up (some c) (price, duration) = not (is_priced price) || not (ltb_ℤ (pos 0) duration)

-- The backfill keeps what the bids wrote.
unfoldable pub keep_bids : Option Challenge → Challenge → Challenge
keep_bids none c = c
keep_bids (some old) c = record c {
  bids = old.bids;
  filled_size = old.filled_size;
  acquired_collateral = old.acquired_collateral;
  status = old.status;
}

unfoldable pub started_row : Log → ℤ → Text → ℕ → ℕ → Text × ℤ → Challenge
started_row log block_ts position size number (price, duration) = record {
  id = challenge_id position number;
  position = position;
  number = number;
  tx_hash = log.tx_hash;
  challenger = topic_to_address (topic 1 log.topics);
  start = block_ts;
  created = block_ts;
  duration = duration;
  size = print size;
  liq_price = price;
  bids = pos 0;
  filled_size = codes "0";
  acquired_collateral = codes "0";
  status = codes "Active";
  version = pos 2;
  block = to_int64 (block_num log);
}

-- handleStarted once the event is decoded; `hydrate` is what HydratePosition answers.
unfoldable pub started : (Text → Decoded Position) → Log → ℤ → Text → ℕ → ℕ → Exec Store (Unit {0})
started hydrate log block_ts position size number s =
    let (existing, s₁) = or_zero none (get_challenge (challenge_id position number) s) in
    let (stored, s₂) = or_zero none (get_position position s₁) in
    let t = terms stored (hydrate position) in
    let write =
      upsert_challenge (keep_bids existing (started_row log block_ts position size number t))
        (to_int64 (block_num log)) in
    if is_complete existing
    then (ok tt, s₁)
    else if crashes stored (hydrate position)
    then (err crashed, s₂)
    else if gives_up existing t
    then (ok tt, s₂)
    else write s₂

-- The event's words: size, number.
unfoldable pub started_event : (Text → Decoded Position) → Log → ℤ → List ℕ → Exec Store (Unit {0})
started_event hydrate log block_ts bytes =
    started hydrate log block_ts (topic_to_address (topic 2 log.topics)) (word 0 bytes)
      (word 1 bytes % 2 ^ 64)

-- handleStarted
unfoldable pub handle_started : (Text → Decoded Position) → Log → ℤ → Exec Store (Unit {0})
handle_started hydrate log block_ts =
    if ltb (length log.topics) 3
    then fail missing_topics
    else with_data (hex_to_bytes log.data_text) 64 (started_event hydrate log block_ts)
