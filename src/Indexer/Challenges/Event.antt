-- ===== src/Indexer/Challenges/Event.antt =====
-- Decoding of the challenge events of indexer/challenges.go, and the row ids.
use zchf_grenadier.Prelude.{
  ℕ, ◌*◌, Bool, not, ◌||◌, Option, none, some, List, [], ◌++◌, ◌==◌, nat_eq, list_eq, if◌then◌else◌,
  length, ltb, take, drop,
}
use zchf_grenadier.Text.{Text, codes, lower}
use zchf_grenadier.Text.Hex.{big_endian}
use zchf_grenadier.Text.Decimal.{print}
use zchf_grenadier.Exec.{Result, ok, err, bad_data, Exec, fail}
use zchf_grenadier.Store.Handle.{Store}

-- new(big.Int).SetBytes(data[32*i : 32*i+32])
unfoldable pub word : ℕ → List ℕ → ℕ
word i bytes = big_endian 0 (take 32 (drop (32 * i) bytes))

-- challengeID
unfoldable pub challenge_id : Text → ℕ → Text
challenge_id position number = lower position ++ (codes "-challenge-" ++ print number)

-- bidIDApi
unfoldable pub bid_id : Text → ℕ → ℕ → Text
bid_id position number k =
    lower position ++ (codes "-challenge-" ++ (print number ++ (codes "-bid-" ++ print k)))

-- v, _ := …: the zero value stands for an error.
unfoldable pub or_zero : {A : Type 0} → A → Result A × Store → A × Store
or_zero zero_value (ok a, s) = (a, s)
or_zero zero_value (err e, s) = (zero_value, s)

-- The bytes of a log's data, which have to be `n` at least.
unfoldable pub with_data :
    Option (List ℕ) → ℕ → (List ℕ → Exec Store (Unit {0})) → Exec Store (Unit {0})
with_data none n k = fail bad_data
with_data (some bytes) n k = if ltb (length bytes) n then fail bad_data else k bytes

-- liqPrice is neither "" nor "0".
unfoldable pub is_priced : Text → Bool
is_priced t = not (t == [] || t == codes "0")
