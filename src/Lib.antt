-- ===== src/Lib.antt =====
-- Verification of zchf-grenadier, the indexer and API of the Frankencoin positions.
--
-- The program polls the chain through a pool of RPC endpoints (transport/), decodes logs and
-- contract calls (chain/), keeps positions, challenges, bids and governance rows in SQLite
-- (store/), advances them block by block (indexer/), and serves them over HTTP (api/).
--
-- Files and code:
--   Prelude, Text, Exec, Table   shared types. A Go string is the list of its bytes (Text); texts of
--     decimal and hexadecimal numbers are Text/Decimal and Text/Hex (strconv, math/big and hexToBytes
--     and parseHexUint64 of the program). Exec is a program over a state that returns or fails.
--     Table is an SQLite table with a primary key, Table/Order the stable ORDER BY … DESC.
--   Store/Rows      the structs and the columns of store/store.go, store/challenges.go and
--     store/governance.go. A `data` column is the record that encoding/json wrote there.
--   Store/Handle    the database handle: each statement succeeds or fails as a list of outcomes
--     says, a failing one changes nothing, and a transaction is undone by any error in it.
--   Store/Positions  store/store.go: Upsert (upsert_position), BulkUpsert, the queries, GetMeta,
--     SetMeta, GetLastBlock, SetLastBlock.
--   Store/Challenges, Store/Governance  the operations of the files of those names.
--   Store/Curate    store/curate.go: Curated, Monitored and their tests.
--   Chain/Log       the logs and constants of chain/client.go and chain/hydrate.go.
--   Chain/Abi, Chain/Multicall  chain/abi.go and chain/multicall.go: bytes written and read. A decoder
--     gives a value, an error (refused) or a run-time panic (panicked).
--   Chain/Hydrate   ResolveOwner of chain/hydrate.go, and Reader, what the indexer asks of the chain.
--   Chain/Returns, Chain/Hydration  HydratePosition and HydrateERC20 of chain/hydrate.go over eth_call.
--   Exec/Keeps      programs that leave a part of the state, or preserve a predicate on it.
--   Indexer/State   the Indexer of indexer/loop.go: store, token metadata, cached addresses.
--   Indexer/Discover, Indexer/Refresh  indexer/discover.go, indexer/refresh.go and
--     indexer/getlogs_chunked.go.
--   Indexer/Sources, Indexer/Bootstrap, Indexer/Bootstrap/Challenges  the peers and the seeds of
--     indexer/sources.go, indexer/bootstrap.go and indexer/bootstrap_challenges.go.
--   Indexer/Governance  the rows and fetches (Fetch) of indexer/bootstrap_governance.go.
--   Indexer/Challenges  indexer/challenges.go: the decoding of events (Event), handleStarted
--     (Started), handleAverted and handleSucceeded (Bids), ScanChallenges (Scan) and its pass over
--     the logs (Order, Traversal).
--   Indexer/Loop    indexer/loop.go: tick, over the three scans as a record of programs.
--   Indexer/Tick    the three scans of the indexer as that record, and the ticks of Run, each with the
--     head, the chain and the map order that it meets.
--   Api/Near        api/near.go: the checks of the proxied quote.
--   Transport/Cache, Transport/Requests  the response cache of transport/balanced.go, and CallRaw over
--     a race of the endpoints that is a parameter.
--   Tests           concrete data, and each theorem applied to it.
--
-- Choices. Integers of 64 bits wrap as in Go where the code computes with them; big.Int is ℤ or ℕ.
-- The loop of a tick runs on fuel `target + 2`: each chunk moves past at least one block, so this
-- is enough. The pages of delegations are read on fuel that stands for the deadline of the
-- request's context: a run that uses it up is an error, as the deadline is. What big.Int holds
-- after a failed SetString is not specified by its documentation, so it is a parameter (`junk`).
-- The order of a Go map is a parameter where it matters. Mutexes make every store operation one
-- step. The answers of the chain (Reader, eth_call), of the peers and of the quote service,
-- json.Unmarshal, fmt.Sscanf, the hashes of signatures, the room that make has and the float64 of
-- the effective interest are parameters. In the ticks the hydration of a position is a field of
-- Reader: a value, an error or a panic. Nothing in the indexer recovers from a panic. It passes
-- through the scans as the error `crashed`, and what it leaves is the database: the indexer in the
-- state after it is the one of a process that is started on that database.
--
-- Not modelled: the HTTP race and scoring of endpoints (transport/balanced.go but for CallRaw and
-- its cache), the JSON-RPC calls of chain/client.go, prices, the HTTP routes, configuration and
-- start-up, which are mostly network input and output, float arithmetic and wiring.
pub mod Prelude
pub mod Text
pub mod Exec
pub mod Table
pub mod Store
pub mod Transport
pub mod Chain
pub mod Indexer
pub mod Api
mod Tests
