-- ===== src/Indexer/Governance.antt =====
-- indexer/bootstrap_governance.go: the rows of the governance tables as the
-- peers answer them.
pub mod Fetch
pub mod Laws
pub mod Refreshed
use zchf_grenadier.Prelude.{
  ◌+◌, ◌*◌, ◌-◌, ◌^◌, ltb, eqb, ℕ, zero, suc, Bool, true, false, not, ◌&&◌, ◌||◌, Option, none,
  some, List, [], ◌∷◌, ◌++◌, map, keep, nat_eq, list_eq, ◌==◌, if◌then◌else◌,
}
use zchf_grenadier.Prelude.Int.{ℤ, pos, negsuc}
use zchf_grenadier.Text.Decimal.{is_digit, negate}
use zchf_grenadier.Text.{Text, codes}
use zchf_grenadier.Exec.{
  Result, ok, err, Error, rpc_failed, bad_data, no_peer, all_peers_failed, Exec, pure, fail, ◌>>=◌,
  ◌>>◌,
}
use zchf_grenadier.Table.{Table}
use zchf_grenadier.Store.Rows.{
  Minter, LeadrateApproved, LeadrateProposed, FpsHolder, EquityDelegation,
}
use zchf_grenadier.Store.Handle.{Store}
use zchf_grenadier.Store.Governance.{
  bulk_upsert_minters, bulk_upsert_approved, bulk_upsert_proposed, bulk_upsert_holders,
  bulk_upsert_delegations,
}
use zchf_grenadier.Indexer.Sources.{
  PeerKind, peer_grenadier, peer_official, peer_ponder, Peer, peers, fetch_and_decode,
  endpoint_minters,
}

-- apiMinterEntry, where a null is `none`
pub record ApiMinterEntry : Type 0 where
  pub chain_id : ℤ
  pub tx_hash : Text
  pub minter : Text
  pub application_period : ℤ
  pub application_fee : Text
  pub apply_message : Text
  pub apply_date : ℤ
  pub suggestor : Text
  pub deny_message : Option Text
  pub deny_date : Option ℤ
  pub deny_tx_hash : Option Text
  pub vetor : Option Text

-- A null leaves the zero value.
unfoldable pub or_zero_value : {A : Type 0} → A → Option A → A
or_zero_value zero_value none = zero_value
or_zero_value zero_value (some a) = a

unfoldable pub convert_minter : ApiMinterEntry → Minter
unfolding or_zero_value
convert_minter e = record {
  chain_id = e.chain_id;
  tx_hash = e.tx_hash;
  minter = e.minter;
  application_period = e.application_period;
  application_fee = e.application_fee;
  apply_message = e.apply_message;
  apply_date = e.apply_date;
  suggestor = e.suggestor;
  deny_message = or_zero_value [] e.deny_message;
  deny_date = or_zero_value (pos 0) e.deny_date;
  deny_tx_hash = or_zero_value [] e.deny_tx_hash;
  vetor = or_zero_value [] e.vetor;
}

-- apiLeadrateRow
pub record ApiLeadrateRow : Type 0 where
  pub chain_id : ℤ
  pub count : ℤ
  pub module_address : Text
  pub created : ℤ
  pub blockheight : ℤ
  pub tx_hash : Text
  pub approved_rate : ℤ
  pub proposer : Text
  pub next_change : ℤ
  pub next_rate : ℤ

unfoldable pub approved_of : ApiLeadrateRow → LeadrateApproved
approved_of r = record {
  chain_id = r.chain_id;
  module_address = r.module_address;
  count = r.count;
  created = r.created;
  blockheight = r.blockheight;
  tx_hash = r.tx_hash;
  approved_rate = r.approved_rate;
}

unfoldable pub proposed_of : ApiLeadrateRow → LeadrateProposed
proposed_of r = record {
  chain_id = r.chain_id;
  module_address = r.module_address;
  count = r.count;
  created = r.created;
  blockheight = r.blockheight;
  tx_hash = r.tx_hash;
  proposer = r.proposer;
  next_change = r.next_change;
  next_rate = r.next_rate;
}

-- The rows by chain and module, in the order in which the maps are ranged over.
abbrev pub ByChain : Type 0
ByChain = Table Text (Table Text (List ApiLeadrateRow))

unfoldable pub rows_of_modules : Table Text (List ApiLeadrateRow) → List ApiLeadrateRow
rows_of_modules [] = []
rows_of_modules ((module_address, rows) ∷ more) = rows ++ rows_of_modules more

unfoldable pub rows_of_chains : ByChain → List ApiLeadrateRow
unfolding rows_of_modules
rows_of_chains [] = []
rows_of_chains ((chain_id, modules) ∷ more) = rows_of_modules modules ++ rows_of_chains more

-- An answer of the GraphQL service.
pub record Page (A : Type 0) : Type 0 where
  pub errors : List Text
  pub items : List A
  pub has_next_page : Bool
  pub end_cursor : Text

-- ponderBalanceItem
pub record BalanceItem : Type 0 where
  pub account : Text
  pub balance : Text
  pub updated : Text

unfoldable pub has_balance : BalanceItem → Bool
has_balance i = not (i.balance == [] || i.balance == codes "0")

-- strconv.ParseUint on digits: 2 ^ 64 where the number is too large, `none` for a bad character.
unfoldable pub scan_uint : ℕ → Text → Option ℕ
unfolding is_digit
scan_uint acc [] = some acc
scan_uint acc (c ∷ s) =
    let n = acc * 10 + (c - b'0') in
    let rest = scan_uint n s in
    if is_digit c then (if ltb n (2 ^ 64) then rest else some (2 ^ 64)) else none

clamp_pos : ℕ → ℤ
clamp_pos n = if ltb n (2 ^ 63) then pos n else pos (2 ^ 63 - 1)

clamp_neg : ℕ → ℤ
unfolding negate
clamp_neg n = if ltb (2 ^ 63) n then negsuc (2 ^ 63 - 1) else negate n

clamped : (ℕ → ℤ) → Text → ℤ
unfolding scan_uint
clamped clamp [] = pos 0
clamped clamp (c ∷ s) = elim (scan_uint 0 (c ∷ s)) [ none ↦ pos 0 | some n ↦ clamp n ]

-- updated, _ := strconv.ParseInt(…): 0 for a text that is no number, and the nearest int64 for one
-- that is out of range.
unfoldable pub parse_clamped : Text → ℤ
unfolding clamped clamp_pos clamp_neg
parse_clamped [] = pos 0
parse_clamped (c ∷ s) =
    if eqb c b'-'
    then clamped clamp_neg s
    else if eqb c b'+'
    then clamped clamp_pos s
    else clamped clamp_pos (c ∷ s)

unfoldable pub holder_of_item : BalanceItem → FpsHolder
unfolding parse_clamped
holder_of_item i = record {
  account = i.account;
  balance = i.balance;
  updated = parse_clamped i.updated;
}

-- What the peers answer: a GET on a URL, and the two GraphQL queries at a base, the second one after
-- a cursor; and json.Unmarshal for each of the shapes.
pub record Upstream : Type 0 where
  pub http_get : Text → Option Text
  pub post_balances : Text → Option Text
  pub post_delegations : Text → Text → Option Text
  pub minters : Text → Option (List ApiMinterEntry)
  pub leadrate : Text → Option (List LeadrateApproved × List LeadrateProposed)
  pub by_chain : Text → Option ByChain
  pub holders : Text → Option (List FpsHolder)
  pub balances : Text → Option (Page BalanceItem)
  pub delegations : Text → Option (List EquityDelegation)
  pub edges : Text → Option (Page EquityDelegation)

-- The decoded body of a request.
unfoldable pub decode_answer : {A : Type 0} → (Text → Option A) → Option Text → Result A
decode_answer decode none = err rpc_failed
decode_answer decode (some body) = elim (decode body) [ none ↦ err bad_data | some a ↦ ok a ]

-- if len(resp.Errors) > 0
unfoldable pub without_errors : {A : Type 0} → Result (Page A) → Result (Page A)
without_errors (err e) = err e
without_errors (ok page) = elim page.errors [ [] ↦ ok page | message ∷ more ↦ err bad_data ]

unfoldable pub with_value :
    {A : Type 0} → Result A → (A → Exec Store (Unit {0})) → Exec Store (Unit {0})
with_value (err e) write = fail e
with_value (ok a) write = write a

-- An error of one peer leads to the next.
unfoldable pub or_else :
    Result (Unit {0}) × Store → Exec Store (Unit {0}) → Result (Unit {0}) × Store
or_else (ok u, s) next = (ok u, s)
or_else (err e, s) next = next s

-- A source is asked at the kinds of peer that serve it (`none`: skipped); the first success wins.
unfoldable pub first_success :
    (Peer → Option (Exec Store (Unit {0}))) → Error → List Peer → Exec Store (Unit {0})
unfolding or_else
first_success job last [] s = (err last, s)
first_success job last (p ∷ ps) s = elim (job p) [
  | none ↦ first_success job last ps s
  | some fetch ↦ or_else (fetch s) (first_success job all_peers_failed ps)
]
