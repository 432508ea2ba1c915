-- ===== src/Tests/Indexing.antt =====
-- The theorems on the ticks of the indexer and on its scans, at concrete chains.
use zchf_grenadier.Prelude.{
  List, ℕ, ◌≤◌, ◌<◌, ◌≡◌, refl, ap, sym, Bool, true, false, none, some, [], ◌∷◌, nat_eq, list_eq,
  arith, All, length,
}
use zchf_grenadier.Prelude.Int.{pos}
use zchf_grenadier.Text.{Text, codes, lower}
use zchf_grenadier.Exec.{pure}
use zchf_grenadier.Table.{Table, HasUniqueKeys}
use zchf_grenadier.Chain.Abi.{Decoded, value, refused, panicked}
use zchf_grenadier.Chain.Hydrate.{Reader}
use zchf_grenadier.Indexer.Tick.Quiet.{HydratesCalmly}
use zchf_grenadier.Store.Rows.{Position}
use zchf_grenadier.Store.Handle.{quiet}
use zchf_grenadier.Store.Positions.LastBlock.{with_last_block, get_last_block-set_last_block}
use zchf_grenadier.Indexer.State.{Indexer, new_indexer}
use zchf_grenadier.Indexer.Refresh.{slices, addr_chunk, touched, touched_at}
use zchf_grenadier.Indexer.Refresh.Slices.{joined, slices-joined}
use zchf_grenadier.Indexer.Refresh.Touched.{last_named, touched-last_named}
use zchf_grenadier.Indexer.Refresh.Current.{HydratesOwn}
use zchf_grenadier.Indexer.Loop.{Scans, tick_at, target_of, last_or_fresh, scan_chunks}
use zchf_grenadier.Indexer.Loop.Chunks.{IsSmall}
use zchf_grenadier.Indexer.Loop.Progress.{Ends}
use zchf_grenadier.Indexer.Loop.Fuel.{scan_chunks_ends}
use zchf_grenadier.Indexer.Loop.Advance.{Advanced}
use zchf_grenadier.Indexer.Tick.Advance.{indexer_tick-Advanced}
use zchf_grenadier.Indexer.Tick.{indexer_scans, Round, run}
use zchf_grenadier.Indexer.Tick.Laws.{IsSound, indexer_tick-Ends, run-new_indexer}
use zchf_grenadier.Tests.Data.{no_junk, started_log, bid_eight, denied_position, denied_db}
use zchf_grenadier.Tests.Positions.{denied_db-IsValid}

-- A chain that answers every filter with one log, and hydrates each address.
abbrev busy_chain : Reader
busy_chain = record {
  get_logs = λ f. some (started_log ∷ []);
  receipt_logs = λ tx. none;
  get_block = λ b. some (pos 7, λ tx. codes "0xa1");
  hydrate = λ a meta. (value (record denied_position { position = a }), meta);
  hydrate_plain = λ a. refused;
}

-- The address of a hydrated position.
abbrev place_of : Decoded Position → Text
place_of (value p) = lower p.position
place_of refused = []
place_of panicked = []

busy_chain-HydratesOwn : HydratesOwn busy_chain
busy_chain-HydratesOwn a meta p e = ap place_of (sym e)

busy_chain-HydratesCalmly : HydratesCalmly busy_chain
busy_chain-HydratesCalmly = ((λ a meta e. cc), (λ a e. cc))

abbrev running : ℕ → Bool
running block = false

abbrev in_place : Table Text ℕ → Table Text ℕ
in_place t = t

abbrev busy_scans : Scans
busy_scans = indexer_scans busy_chain no_junk in_place running

target_of-IsSmall : IsSmall (target_of 2405)
unfolding target_of
target_of-IsSmall = omega arith

indexer_tick-Ends_example :
    Ends busy_scans
      (target_of 2405)
      (new_indexer (quiet denied_db))
      (tick_at busy_scans 2405 (new_indexer (quiet denied_db)))
indexer_tick-Ends_example =
    indexer_tick-Ends busy_chain no_junk in_place running 2405 (new_indexer (quiet denied_db))
      target_of-IsSmall

-- A chain that has no answer, and panics where it is asked for a hydration.
abbrev broken_chain : Reader
broken_chain = record {
  get_logs = λ f. none;
  receipt_logs = λ tx. none;
  get_block = λ b. none;
  hydrate = λ a meta. (panicked, meta);
  hydrate_plain = λ a. panicked;
}

broken_chain-HydratesOwn : HydratesOwn broken_chain
broken_chain-HydratesOwn a meta p e = absurd cc

abbrev three_rounds : List Round
three_rounds =
    record { head = some 2405; chain = busy_chain; order = in_place; cancelled = running }
    ∷ record { head = none; chain = broken_chain; order = in_place; cancelled = running }
    ∷ record { head = some 2410; chain = busy_chain; order = in_place; cancelled = running }
    ∷ []

run-new_indexer_example : IsSound (
    run no_junk three_rounds
      (new_indexer (record { db = denied_db; outcomes = true ∷ false ∷ [] })))
run-new_indexer_example =
    run-new_indexer no_junk three_rounds (record { db = denied_db; outcomes = true ∷ false ∷ [] })
      (busy_chain-HydratesOwn, (broken_chain-HydratesOwn, (busy_chain-HydratesOwn, tt)))
      denied_db-IsValid

-- Scans that find nothing.
abbrev calm : Scans
calm = record {
  discover = λ a b. pure 0;
  refresh = λ a b. pure 0;
  challenges = λ a b. pure 0;
  cancelled = running;
}

-- A store that has scanned up to block 2300.
abbrev at_2300 : Indexer
at_2300 = new_indexer (quiet (with_last_block 2300 denied_db))

last_below : last_or_fresh (target_of 2405) 2300 < target_of 2405
unfolding target_of last_or_fresh
last_below = omega arith

indexer_tick-Advanced_example : Advanced (target_of 2405) (tick_at busy_scans 2405 at_2300)
unfolding new_indexer
indexer_tick-Advanced_example =
    indexer_tick-Advanced busy_chain no_junk in_place running 2405 2300 at_2300
      (λ f. (started_log ∷ [], refl, (refl, tt))) busy_chain-HydratesCalmly (λ a. refl)
      target_of-IsSmall refl (get_last_block-set_last_block 2300 denied_db (omega arith)).1
      last_below

scan_chunks_ends_example :
    scan_chunks calm 10000 5000 100 at_2300 ≡ scan_chunks calm 5002 5000 100 at_2300
scan_chunks_ends_example =
    scan_chunks_ends calm 10000 5002 5000 100 (omega arith) (omega arith) (omega arith)
      (omega arith) at_2300

slices-joined_example :
    (joined (slices addr_chunk (codes "0xa1" ∷ codes "0xa2" ∷ []))
      ≡ (codes "0xa1" ∷ codes "0xa2" ∷ []))
    × All (λ s. length s ≤ addr_chunk) (slices addr_chunk (codes "0xa1" ∷ codes "0xa2" ∷ []))
slices-joined_example = slices-joined (codes "0xa1" ∷ codes "0xa2" ∷ [])

touched-last_named_example :
    HasUniqueKeys (touched (started_log ∷ bid_eight.log ∷ []) [])
    × ((a : Text)
        → touched_at a (touched (started_log ∷ bid_eight.log ∷ []) [])
          ≡ last_named a (started_log ∷ bid_eight.log ∷ []))
touched-last_named_example = touched-last_named (started_log ∷ bid_eight.log ∷ [])
