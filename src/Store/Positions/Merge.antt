-- ===== src/Store/Positions/Merge.antt =====
-- The merge of Upsert over the row that is there.
use zchf_grenadier.Prelude.{◌≡◌, refl, Bool, Option, none, some, [], ◌∷◌, arith}
use zchf_grenadier.Prelude.Int.{ℤ}
use zchf_grenadier.Text.{Text}
use zchf_grenadier.Store.Rows.{Position}
use zchf_grenadier.Store.Positions.{text_or, int_or, flag_or, balance_or, merge_prev, merged}

text_or-text_or : (t prev : Text) → text_or t (text_or t prev) ≡ text_or t prev
text_or-text_or [] prev = refl
text_or-text_or (c ∷ t) prev = refl

int_or-int_or : (n prev : ℤ) → int_or n (int_or n prev) ≡ int_or n prev
int_or-int_or n prev = ground arith

flag_or-flag_or : (b prev : Bool) → flag_or b (flag_or b prev) ≡ flag_or b prev
flag_or-flag_or b prev = ground arith

balance_or-balance_or : (t prev : Text) → balance_or t (balance_or t prev) ≡ balance_or t prev
unfolding balance_or
balance_or-balance_or t prev = ground arith

-- A position merged twice with the same row is merged once.
pub merge_prev-merge_prev :
    (p prev : Position) → merge_prev p (merge_prev p prev) ≡ merge_prev p prev
unfolding merge_prev
merge_prev-merge_prev p prev = λ i. record p {
  created = int_or-int_or p.created prev.created i;
  parent = text_or-text_or p.parent prev.parent i;
  annual_interest_ppm = int_or-int_or p.annual_interest_ppm prev.annual_interest_ppm i;
  deny_date = int_or-int_or p.deny_date prev.deny_date i;
  denied = flag_or-flag_or p.denied prev.denied i;
  limit_for_clones = text_or-text_or p.limit_for_clones prev.limit_for_clones i;
  available_for_position = text_or-text_or p.available_for_position prev.available_for_position i;
  zchf_name = text_or-text_or p.zchf_name prev.zchf_name i;
  zchf_symbol = text_or-text_or p.zchf_symbol prev.zchf_symbol i;
  zchf_decimals = int_or-int_or p.zchf_decimals prev.zchf_decimals i;
  collateral_balance = balance_or-balance_or p.collateral_balance prev.collateral_balance i;
}

int_or_self : (n : ℤ) → int_or n n ≡ n
int_or_self n = ground arith

text_or_self : (t : Text) → text_or t t ≡ t
text_or_self [] = refl
text_or_self (c ∷ t) = refl

flag_or_self : (b : Bool) → flag_or b b ≡ b
flag_or_self b = ground arith

balance_or_self : (t : Text) → balance_or t t ≡ t
unfolding balance_or
balance_or_self t = ground arith

merge_prev_self : (p : Position) → merge_prev p p ≡ p
unfolding merge_prev
merge_prev_self p = λ i. record p {
  created = int_or_self p.created i;
  parent = text_or_self p.parent i;
  annual_interest_ppm = int_or_self p.annual_interest_ppm i;
  deny_date = int_or_self p.deny_date i;
  denied = flag_or_self p.denied i;
  limit_for_clones = text_or_self p.limit_for_clones i;
  available_for_position = text_or_self p.available_for_position i;
  zchf_name = text_or_self p.zchf_name i;
  zchf_symbol = text_or_self p.zchf_symbol i;
  zchf_decimals = int_or_self p.zchf_decimals i;
  collateral_balance = balance_or_self p.collateral_balance i;
}

pub merged-merged : (p : Position) (o : Option Position) → merged (some (merged o p)) p ≡ merged o p
unfolding merged
merged-merged p none = merge_prev_self p
merged-merged p (some prev) = merge_prev-merge_prev p prev

pub position-merged : (o : Option Position) (p : Position) → (merged o p).position ≡ p.position
unfolding merged
position-merged none p = refl
position-merged (some prev) p = refl
