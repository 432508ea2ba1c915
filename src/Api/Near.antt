-- ===== src/Api/Near.antt =====
-- api/near.go: the checks of the proxied quote, and the body that it sends upstream.
pub mod Accepted
pub mod Amount
use zchf_grenadier.Prelude.{
  ℕ, ◌≤◌, ◌<◌, ◌≡◌, Option, none, some, Bool, true, false, not, ◌&&◌, ◌||◌, List, [], ◌∷◌, ◌==◌,
  nat_eq, list_eq, if◌then◌else◌, length, ltb,
}
use zchf_grenadier.Prelude.Int.{ℤ, pos, negsuc, ltb_ℤ}
use zchf_grenadier.Text.{Text, codes, has_prefix, text_lt}
use zchf_grenadier.Text.Decimal.{is_digit}

abbrev pub near_max_amount : Text
near_max_amount = codes "200000000000"

abbrev pub near_body_limit : ℕ
near_body_limit = 4096

abbrev ethereum_usdc : Text
ethereum_usdc = codes "nep141:eth-0xa0b86991c6218b36c1d19d4a2e9eb0ce3606eb48.omft.near"

abbrev pub base_usdc : Text
base_usdc = codes "nep141:base-0x833589fcd6edb6e08f4c7c32d4f71b54bda02913.omft.near"

abbrev gnosis_usdc : Text
gnosis_usdc = codes "nep141:gnosis-0xddafbb505ad214d7b80b1f830fccc89b60fb7a83.omft.near"

-- nearAllowedOriginAssets
unfoldable pub is_allowed_origin : Text → Bool
is_allowed_origin a = a == ethereum_usdc || a == base_usdc || a == gnosis_usdc

pub record NearQuoteReq : Type 0 where
  pub origin_asset : Text
  pub destination_asset : Text
  pub amount : Text
  pub recipient : Text
  pub refund_to : Text
  pub slippage_bps : ℤ
  pub deadline : Text

pub record NearQuoteUpstream : Type 0 where
  pub dry : Bool
  pub swap_type : Text
  pub slippage_tolerance : ℤ
  pub origin_asset : Text
  pub deposit_type : Text
  pub destination_asset : Text
  pub amount : Text
  pub refund_to : Text
  pub refund_type : Text
  pub recipient : Text
  pub recipient_type : Text
  pub deadline : Text

-- What the handler answers by itself, or the request that it sends on.
pub data Verdict : Type 0 where
  rejected : ℕ → Text → Verdict
  forwarded : NearQuoteUpstream → Verdict

-- The loop of isDigitString
unfoldable pub all_digits : Text → Bool
all_digits [] = true
all_digits (c ∷ s) = is_digit c && all_digits s

-- isDigitString
unfoldable pub is_digit_string : Text → Bool
unfolding all_digits
is_digit_string [] = false
is_digit_string (c ∷ s) = all_digits (c ∷ s)

-- compareDigitStrings
unfoldable pub compare_digit_strings : Text → Text → ℤ
compare_digit_strings a b =
    if not (length a == length b)
    then if ltb (length a) (length b) then negsuc 0 else pos 1
    else if text_lt a b
    then negsuc 0
    else if text_lt b a
    then pos 1
    else pos 0

-- s == "" || len(s) > n
unfoldable pub is_empty_or_longer : Text → ℕ → Bool
is_empty_or_longer s n = s == [] || ltb n (length s)

-- upstream
unfoldable pub upstream : NearQuoteReq → NearQuoteUpstream
upstream req = record {
  dry = false;
  swap_type = codes "FLEX_INPUT";
  slippage_tolerance = req.slippage_bps;
  origin_asset = req.origin_asset;
  deposit_type = codes "ORIGIN_CHAIN";
  destination_asset = req.destination_asset;
  amount = req.amount;
  refund_to = req.refund_to;
  refund_type = codes "ORIGIN_CHAIN";
  recipient = req.recipient;
  recipient_type = codes "DESTINATION_CHAIN";
  deadline = req.deadline;
}

-- The checks on the parsed request, in their order.
unfoldable pub check_quote : NearQuoteReq → Verdict
check_quote req =
    if not (is_allowed_origin req.origin_asset)
    then rejected 400 (codes "originAsset not allowed")
    else if not (has_prefix req.destination_asset (codes "nep141:"))
        || ltb 200 (length req.destination_asset)
    then rejected 400 (codes "destinationAsset invalid")
    else if not (is_digit_string req.amount) || ltb 30 (length req.amount)
    then rejected 400 (codes "amount invalid")
    else if ltb_ℤ (pos 0) (compare_digit_strings req.amount near_max_amount)
    then rejected 400 (codes "amount exceeds cap")
    else if is_empty_or_longer req.recipient 200
    then rejected 400 (codes "recipient invalid")
    else if is_empty_or_longer req.refund_to 100
    then rejected 400 (codes "refundTo invalid")
    else if ltb_ℤ req.slippage_bps (pos 10) || ltb_ℤ (pos 500) req.slippage_bps
    then rejected 400 (codes "slippageBps out of range")
    else if is_empty_or_longer req.deadline 40
    then rejected 400 (codes "deadline invalid")
    else forwarded (upstream req)

-- What the upstream service answers.
pub data Reached : Type 0 where
  unreachable unreadable : Reached
  answered : ℕ → Text → Reached

pass_on : Reached → ℕ × Text
pass_on unreachable = (502, codes "upstream unreachable")
pass_on unreadable = (502, codes "upstream read failed")
pass_on (answered status body) = (status, body)

after_checks : (NearQuoteUpstream → Reached) → Verdict → ℕ × Text
unfolding pass_on
after_checks reach (rejected status message) = (status, message)
after_checks reach (forwarded u) = pass_on (reach u)

unfoldable pub decoded_verdict : Option NearQuoteReq → Verdict
unfolding check_quote
decoded_verdict none = rejected 400 (codes "invalid json")
decoded_verdict (some req) = check_quote req

-- The verdict on a body, which `decode` reads as json.Unmarshal does.
unfoldable pub verdict : (Text → Option NearQuoteReq) → Text → Verdict
unfolding decoded_verdict
verdict decode body =
    if ltb near_body_limit (length body)
    then rejected 413 (codes "body too large")
    else decoded_verdict (decode body)

-- makeNearQuoteHandler: status and body (for an error, its message)
unfoldable pub near_quote :
    (Text → Option NearQuoteReq) → (NearQuoteUpstream → Reached) → Text → ℕ × Text
unfolding verdict after_checks
near_quote decode reach body = after_checks reach (verdict decode body)
