-- ===== src/Api/Near/Accepted.antt =====
-- What a quote that is sent upstream satisfies.
use zchf_grenadier.Prelude.{
  ℕ, ◌≤◌, ◌≡◌, refl, ap, sym, Bool, true, false, not, ◌||◌, Option, some, nat_eq, list_eq,
  if◌then◌else◌, length, ltb, arith, Option-cases, inl, inr,
}
use zchf_grenadier.Prelude.Int.{pos, ltb_ℤ}
use zchf_grenadier.Text.{Text, codes, has_prefix}
use zchf_grenadier.Text.Decimal.{parse}
use zchf_grenadier.Api.Near.{
  NearQuoteReq, NearQuoteUpstream, Verdict, rejected, forwarded, is_allowed_origin, near_body_limit,
  is_empty_or_longer, upstream, check_quote, decoded_verdict, verdict,
}
use zchf_grenadier.Api.Near.Amount.{parse-value, within_cap, value}

-- The bounds on a request that goes upstream.
pub record IsAcceptable (req : NearQuoteReq) : Type 0 where
  pub origin : is_allowed_origin req.origin_asset ≡ true
  pub destination : has_prefix req.destination_asset (codes "nep141:") ≡ true
  pub destination_length : length req.destination_asset ≤ 200
  pub amount : ℕ
  pub amount_text : parse req.amount ≡ some amount
  pub amount_cap : amount ≤ 200000000000
  pub recipient : is_empty_or_longer req.recipient 200 ≡ false
  pub refund_to : is_empty_or_longer req.refund_to 100 ≡ false
  pub slippage_low : ltb_ℤ req.slippage_bps (pos 10) ≡ false
  pub slippage_high : ltb_ℤ (pos 500) req.slippage_bps ≡ false
  pub deadline : is_empty_or_longer req.deadline 40 ≡ false

-- A guard that a forwarded request has passed.
guard :
    (b : Bool) (n : ℕ) (t : Text) (v : Verdict) (u : NearQuoteUpstream)
    → (if b then rejected n t else v) ≡ forwarded u
    → (b ≡ false) × (v ≡ forwarded u)
guard true n t v u h = let bad : rejected n t ≡ forwarded u = h in cc
guard false n t v u h = (refl, h)

either : (a b : Bool) → (a || b) ≡ false → (a ≡ false) × (b ≡ false)
either a b h = ground arith

passed : (a : Bool) → not a ≡ false → a ≡ true
passed a h = ground arith

forwarded-injective : (u w : NearQuoteUpstream) → forwarded u ≡ forwarded w → u ≡ w
forwarded-injective u w h = ap (λ (v : Verdict). elim v [ rejected n t ↦ u | forwarded x ↦ x ]) h

check_quote-IsAcceptable :
    (req : NearQuoteReq) (u : NearQuoteUpstream)
    → check_quote req ≡ forwarded u
    → IsAcceptable req × (u ≡ upstream req)
unfolding check_quote
check_quote-IsAcceptable req u h =
    let g₁ = guard _ _ _ _ u h in
    let g₂ = guard _ _ _ _ u g₁.1 in
    let g₃ = guard _ _ _ _ u g₂.1 in
    let g₄ = guard _ _ _ _ u g₃.1 in
    let g₅ = guard _ _ _ _ u g₄.1 in
    let g₆ = guard _ _ _ _ u g₅.1 in
    let g₇ = guard _ _ _ _ u g₆.1 in
    let g₈ = guard _ _ _ _ u g₇.1 in
    let dest = either _ _ g₂.0 in
    let digits = passed _ (either _ _ g₃.0).0 in
    let slip = either _ _ g₇.0 in
    (
      record {
        origin = passed _ g₁.0;
        destination = passed _ dest.0;
        destination_length = ground (arith, dest.1);
        amount = value 0 req.amount;
        amount_text = parse-value req.amount digits;
        amount_cap = within_cap req.amount digits g₄.0;
        recipient = g₅.0;
        refund_to = g₆.0;
        slippage_low = slip.0;
        slippage_high = slip.1;
        deadline = g₈.0;
      },
      sym (forwarded-injective (upstream req) u g₈.1),
    )

-- What the proxy sends upstream comes from a body within the limit whose request has an allowed
-- origin asset, an amount up to 200,000 USDC and the other fields in their bounds, and it is that
-- request with the fixed fields: no other field of the body reaches the service.
pub verdict-IsAcceptable :
    (decode : Text → Option NearQuoteReq) (body : Text) (u : NearQuoteUpstream)
    → verdict decode body ≡ forwarded u
    → (length body ≤ near_body_limit)
      × (req : NearQuoteReq) × (decode body ≡ some req)
      × IsAcceptable req
      × (u ≡ upstream req)
unfolding verdict decoded_verdict
verdict-IsAcceptable decode body u h =
    let message = codes "body too large" in
    let g =
      guard (ltb near_body_limit (length body)) 413 message (decoded_verdict (decode body)) u h in
    elim (Option-cases (decode body)) [
      | inl e ↦ let bad : rejected 400 (codes "invalid json") ≡ forwarded u = rw e at g.1 in cc
      | inr (req, e) ↦
          let r = check_quote-IsAcceptable req u (rw e at g.1) in
          (ground (arith, g.0), req, e, r.0, r.1)
    ]
