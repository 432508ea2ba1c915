-- ===== src/Chain/Log.antt =====
-- The logs of chain/client.go and the topics and addresses that the indexer compares.
use zchf_grenadier.Prelude.{ℕ, zero, suc, List, [], ◌∷◌}
use zchf_grenadier.Text.{Text, codes}
use zchf_grenadier.Text.Hex.{parse_hex_uint64, value_of}

pub record Log : Type 0 where
  pub address : Text
  pub topics : List Text
  pub data_text : Text
  pub block_number : Text
  pub tx_hash : Text
  pub log_index : Text

-- BlockNum
unfoldable pub block_num : Log → ℕ
unfolding parse_hex_uint64 value_of
block_num l = value_of (parse_hex_uint64 l.block_number)

-- LogIdx
unfoldable pub log_idx : Log → ℕ
unfolding parse_hex_uint64 value_of
log_idx l = value_of (parse_hex_uint64 l.log_index)

-- Topics[i], in range: where the length was checked, or below the branch that stands for the panic
unfoldable pub topic : ℕ → List Text → Text
topic i [] = []
topic zero (t ∷ ts) = t
topic (suc i) (t ∷ ts) = topic i ts

abbrev pub topic_position_opened : Text
topic_position_opened = codes "0xc9b570ab9d98bdf3e38a40fd71b20edafca42449f23ca51f0bdcbf40e8ffe175"

abbrev pub topic_challenge_started : Text
topic_challenge_started = codes "0xc4b384b2c5ca32c8e77081f4083be594a1ea9ba34f208a9f9a458f70608585f5"

abbrev pub topic_challenge_averted : Text
topic_challenge_averted = codes "0x1eee30d91b773ac47d7485a3acb6bcd8c7c9cd8d95301b1af361baf5f0991d2e"

abbrev pub topic_challenge_succeed : Text
topic_challenge_succeed = codes "0x7d3a26e8d43c5b70f86266bfa26c212e3c097716ff7240ccb6a9034e48754e23"

abbrev pub topic_forced_sale : Text
topic_forced_sale = codes "0x67a660133c1fb4c0bb0480a5e4a9919216684052f13f0713e88fa2fbbc81d082"

abbrev pub topic_minting_update : Text
topic_minting_update = codes "0x9483a26ad376f30b5199a79e75df3bb05158c4ee32a348f53e83245a5e50c86e"

abbrev pub topic_position_denied : Text
topic_position_denied = codes "0xaca80c800ec0d2aa9d9d31b7f886a1dd3067d4676abc637626a18ffb9381653d"

abbrev pub topic_ownership : Text
topic_ownership = codes "0x8be0079c531659141344cd1fd0a4f28419497f9722a3daafe3b4186f6b6457e0"

abbrev pub minting_hub_v2 : Text
minting_hub_v2 = codes "0xde12b620a8a714476a97efd14e6f7180ca653557"

abbrev pub clone_helper : Text
clone_helper = codes "0x55cd2820735db56ca0965be224d71994265f8bee"
