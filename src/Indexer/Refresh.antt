-- ===== src/Indexer/Refresh.antt =====
-- indexer/refresh.go and indexer/getlogs_chunked.go: positions whose events say that they changed
-- are hydrated again.
pub mod Slices
pub mod Touched
pub mod Laws
pub mod Current
pub mod Own
use zchf_grenadier.Prelude.{
  ℕ, zero, suc, ◌+◌, ◌-◌, ◌/◌, Bool, true, false, not, ◌&&◌, Option, none, some, List, [], ◌∷◌,
  ◌++◌, nat_eq, list_eq, if◌then◌else◌, length, take, drop, ltb, leb, eqb, ◌==◌, ◌||◌,
}
use zchf_grenadier.Text.{Text, codes, lower, trim_prefix}
use zchf_grenadier.Exec.{Result, ok, err, rpc_failed, Exec, pure, fail, ◌>>=◌}
use zchf_grenadier.Table.{Table, find, upsert}
use zchf_grenadier.Chain.Log.{
  Log, topic, block_num, topic_minting_update, topic_position_denied, topic_forced_sale,
  minting_hub_v2,
}
use zchf_grenadier.Chain.Hydrate.{Reader, LogFilter}
use zchf_grenadier.Indexer.State.{Indexer, known_addresses}
use zchf_grenadier.Indexer.Discover.{store_hydrated}

abbrev pub addr_chunk : ℕ
addr_chunk = 500

-- end, for the chunk that begins at `start`
unfoldable pub slice_end : ℕ → ℕ → ℕ → ℕ
slice_end size start n = let end = start + size in if ltb n end then n else end

-- addrs[start:end], for `count` chunks from `start` on
unfoldable pub slices_from : ℕ → ℕ → ℕ → List Text → List (List Text)
unfolding slice_end
slices_from size start zero addrs = []
slices_from size start (suc count) addrs =
    take (slice_end size start (length addrs) - start) (drop start addrs)
    ∷ slices_from size (start + size) count addrs

-- The address lists that getLogsChunked asks for: one, or chunks of the size.
unfoldable pub slices : ℕ → List Text → List (List Text)
unfolding slices_from
slices chunk_size addrs =
    let size = if eqb chunk_size 0 then addr_chunk else chunk_size in
    if leb (length addrs) size
    then addrs ∷ []
    else slices_from size 0 ((length addrs + size - 1) / size) addrs

-- results, in the order of the chunks, unless one is an error
unfoldable pub merge_logs : (List Text → Option (List Log)) → List (List Text) → Option (List Log)
merge_logs ask [] = some []
merge_logs ask (s ∷ ss) = elim (ask s) [
  | none ↦ none
  | some logs ↦ elim (merge_logs ask ss) [ none ↦ none | some rest ↦ some (logs ++ rest) ]
]

unfoldable pub refresh_filter : ℕ → ℕ → List Text → LogFilter
refresh_filter from to addrs = record {
  from_block = from;
  to_block = to;
  addresses = addrs;
  topics = topic_minting_update ∷ topic_position_denied ∷ topic_forced_sale ∷ [];
}

-- extractFirstAddress
unfoldable pub extract_first_address : Text → Text
extract_first_address s =
    let t = trim_prefix s (codes "0x") in
    if ltb (length t) 64 then [] else codes "0x" ++ lower (take 40 (drop 24 t))

-- len(log.Topics) > 0 && strings.EqualFold(log.Topics[0], …); the topic is ASCII
unfoldable pub is_forced_sale : Log → Bool
is_forced_sale log =
    ltb 0 (length log.topics) && lower (topic 0 log.topics) == lower topic_forced_sale

-- target, "" where the log is passed over
unfoldable pub target : Log → Text
unfolding is_forced_sale extract_first_address
target log = if is_forced_sale log then extract_first_address log.data_text else lower log.address

unfoldable pub is_passed_over : Log → Bool
unfolding is_forced_sale target
is_passed_over log = is_forced_sale log && target log == []

unfoldable pub or_unset : Option ℕ → ℕ
or_unset none = 0
or_unset (some n) = n

-- touched[a], which is 0 where it is not set
unfoldable pub touched_at : Text → Table Text ℕ → ℕ
unfolding or_unset find
touched_at a t = or_unset (find a t)

-- One round of the first loop of Refresh.
unfoldable pub touch : Log → Table Text ℕ → Table Text ℕ
unfolding is_passed_over target touched_at
touch log t =
    if is_passed_over log
    then t
    else if ltb (touched_at (target log) t) (block_num log)
    then upsert (target log) (block_num log) t
    else t

unfoldable pub touched : List Log → Table Text ℕ → Table Text ℕ
unfolding touch
touched [] t = t
touched (l ∷ ls) t = touched ls (touch l t)

-- known[addr]
unfoldable pub is_known : List Text → Text → Bool
is_known [] a = false
is_known (k ∷ ks) a = k == a || is_known ks a

-- A range over the touched positions goes in an order that Go does not fix: `order` is it.
module _ (chain : Reader) (order : Table Text ℕ → Table Text ℕ) where
  -- One round of the second loop.
  unfoldable pub refresh_one : List Text → Text × ℕ → Exec Indexer ℕ
  unfolding is_known store_hydrated
  refresh_one addrs (a, block) ix =
      if not (is_known addrs a)
      then (ok 0, ix)
      else store_hydrated (λ p. p) block (chain.hydrate a ix.collateral_meta) ix

  unfoldable pub refresh_all : List Text → Table Text ℕ → Exec Indexer ℕ
  unfolding refresh_one
  refresh_all addrs [] = pure 0
  refresh_all addrs (e ∷ es) = do n ← refresh_one addrs e; m ← refresh_all addrs es; pure (n + m)

  -- Refresh, once the addresses are known
  unfoldable pub refresh_known : ℕ → ℕ → List Text → Exec Indexer ℕ
  unfolding refresh_all merge_logs slices refresh_filter touched
  refresh_known from to [] ix = (ok 0, ix)
  refresh_known from to (a ∷ more) ix =
      let addrs = a ∷ more in
      elim (merge_logs (λ s. chain.get_logs (refresh_filter from to s))
        (slices addr_chunk (addrs ++ minting_hub_v2 ∷ []))) [
          | none ↦ (err rpc_failed, ix)
          | some logs ↦ refresh_all addrs (order (touched logs [])) ix
        ]

  -- Refresh
  unfoldable pub refresh : ℕ → ℕ → Exec Indexer ℕ
  unfolding refresh_known known_addresses
  refresh from to = do addrs ← known_addresses; refresh_known from to addrs
