-- ===== src/Chain/Hydrate.antt =====
-- chain/hydrate.go: the metadata of tokens, the owner behind a clone, and what the indexer asks of
-- the chain.
use zchf_grenadier.Prelude.{
  ℕ, Bool, not, ◌&&◌, ◌||◌, Option, none, some, List, [], ◌∷◌, nat_eq, list_eq, if◌then◌else◌,
  length, ltb, ◌==◌,
}
use zchf_grenadier.Prelude.Int.{ℤ}
use zchf_grenadier.Text.{Text, lower}
use zchf_grenadier.Text.Hex.{topic_to_address}
use zchf_grenadier.Table.{Table}
use zchf_grenadier.Store.Rows.{Position}
use zchf_grenadier.Chain.Abi.{Decoded}
use zchf_grenadier.Chain.Log.{Log, topic, topic_ownership, clone_helper}

-- ERC20Meta
pub record Erc20Meta : Type 0 where
  pub name : Text
  pub symbol : Text
  pub decimals : ℤ

abbrev pub CollateralMeta : Type 0
CollateralMeta = Table Text Erc20Meta

-- LogFilter; every filter of the indexer names one topic position.
pub record LogFilter : Type 0 where
  pub from_block : ℕ
  pub to_block : ℕ
  pub addresses : List Text
  pub topics : List Text

-- What the chain answers to the indexer: logs, the logs of a receipt, a block's timestamp and the
-- senders of its transactions by lower-case hash, and the hydration of a position, which may add to
-- the metadata. `none` is an error; a hydration is a value, an error or a panic.
pub record Reader : Type 0 where
  pub get_logs : LogFilter → Option (List Log)
  pub receipt_logs : Text → Option (List Log)
  pub get_block : ℕ → Option (ℤ × (Text → Text))
  pub hydrate : Text → CollateralMeta → Decoded Position × CollateralMeta
  pub hydrate_plain : Text → Decoded Position

-- One round of the loop over the receipt's logs: a handover from the helper.
unfoldable pub is_handover : Text → Log → Bool
unfolding lower
is_handover position log =
    lower log.address == position
    && not (ltb (length log.topics) 3 || not (lower (topic 0 log.topics) == topic_ownership))
    && topic_to_address (topic 1 log.topics) == clone_helper

unfoldable pub first_handover : Text → Text → List Log → Text
unfolding is_handover
first_handover owner position [] = owner
first_handover owner position (log ∷ logs) =
    let rest = first_handover owner position logs in
    if is_handover position log then topic_to_address (topic 2 log.topics) else rest

-- ResolveOwner, which never returns an error
unfoldable pub resolve_owner : (Text → Option (List Log)) → Text → Text → Text → Text
unfolding first_handover lower
resolve_owner receipt_logs emitted position tx_hash =
    let owner = lower emitted in
    if not (owner == clone_helper) then owner else elim (receipt_logs tx_hash) [
      | none ↦ owner
      | some logs ↦ first_handover owner (lower position) logs
    ]
