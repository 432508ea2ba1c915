-- ===== src/Text/Hex.antt =====
-- Hexadecimal: hexVal and hexToBytes of indexer/challenges.go, strconv.ParseUint and FormatUint in
-- base 16, parseHexUint64 and TopicToAddress of chain/client.go, encoding/hex.
use zchf_grenadier.Prelude.{
  ℕ, ◌+◌, ◌-◌, ◌*◌, ◌/◌, ◌%◌, ◌^◌, ◌<◌, ◌≡◌, refl, true, false, ◌&&◌, Option, none, some, List, [],
  ◌∷◌, ◌++◌, arith, leb, ltb, eqb, if◌then◌else◌, All, inl, inr, Bool-cases, Option-cases, length,
  drop,
}
use zchf_grenadier.Text.{Text, codes, lower, trim_prefix}

-- hexVal; `none` is its -1
unfoldable pub hex_val : ℕ → Option ℕ
hex_val c =
    if leb b'0' c && leb c b'9'
    then some (c - b'0')
    else if leb b'a' c && leb c b'f'
    then some (c - b'a' + 10)
    else if leb b'A' c && leb c b'F'
    then some (c - b'A' + 10)
    else none

-- The byte of two digits.
unfoldable pub hex_pair : Option ℕ → Option ℕ → Option ℕ
hex_pair (some hi) (some lo) = some (hi * 16 + lo)
hex_pair none lo = none
hex_pair (some hi) none = none

cons? : Option ℕ → Option (List ℕ) → Option (List ℕ)
cons? (some b) (some bs) = some (b ∷ bs)
cons? none bs = none
cons? (some b) none = none

-- The loop of hexToBytes and of hex.DecodeString, over a text of even length.
unfoldable pub hex_pairs : Text → Option (List ℕ)
unfolding hex_val hex_pair cons?
hex_pairs [] = some []
hex_pairs (c ∷ []) = none
hex_pairs (hi ∷ lo ∷ s) = cons? (hex_pair (hex_val hi) (hex_val lo)) (hex_pairs s)

-- hexToBytes: an odd text gets a leading zero.
unfoldable pub hex_to_bytes : Text → Option (List ℕ)
unfolding hex_pairs trim_prefix
hex_to_bytes s =
    let t = trim_prefix s (codes "0x") in
    if eqb (length t % 2) 0 then hex_pairs t else hex_pairs (b'0' ∷ t)

-- What strconv.ParseUint returns: a number, or an error with the number beside it.
pub data Parsed : Type 0 where
  parsed : ℕ → Parsed
  failed : ℕ → Parsed

-- The loop of strconv.ParseUint in base 16 at 64 bits: a bad digit gives 0 and an error, a number
-- out of range the largest one and an error.
scan_hex : ℕ → Text → Parsed
unfolding hex_val
scan_hex acc [] = parsed acc
scan_hex acc (c ∷ s) = elim (hex_val c) [
  | none ↦ failed 0
  | some d ↦ elim (leb (2 ^ 60) acc) [
    | true ↦ failed (2 ^ 64 - 1)
    | false ↦ scan_hex (acc * 16 + d) s
  ]
]

-- strconv.ParseUint(s, 16, 64): an empty text is an error.
unfoldable pub parse_uint_hex : Text → Parsed
unfolding scan_hex
parse_uint_hex [] = failed 0
parse_uint_hex (c ∷ s) = scan_hex 0 (c ∷ s)

-- parseHexUint64: an empty text is 0.
unfoldable pub parse_hex_uint64 : Text → Parsed
unfolding parse_uint_hex trim_prefix
parse_hex_uint64 s = elim (trim_prefix s (codes "0x")) [
  | [] ↦ parsed 0
  | c ∷ r ↦ parse_uint_hex (c ∷ r)
]

-- n, _ := …
unfoldable pub value_of : Parsed → ℕ
value_of (parsed n) = n
value_of (failed n) = n

-- TopicToAddress: the last 20 bytes of a topic.
unfoldable pub topic_to_address : Text → Text
unfolding trim_prefix lower
topic_to_address topic =
    let t = trim_prefix topic (codes "0x") in
    if ltb (length t) 40 then [] else codes "0x" ++ lower (drop (length t - 40) t)

hex_digit : ℕ → ℕ
hex_digit d = if ltb d 10 then d + b'0' else d - 10 + b'a'

-- hex.EncodeToString
unfoldable pub hex_encode : List ℕ → Text
unfolding hex_digit
hex_encode [] = []
hex_encode (b ∷ bs) = hex_digit (b / 16) ∷ hex_digit (b % 16) ∷ hex_encode bs

-- big.Int SetBytes: a big-endian number.
unfoldable pub big_endian : ℕ → List ℕ → ℕ
big_endian acc [] = acc
big_endian acc (b ∷ bs) = big_endian (acc * 256 + b) bs

abbrev pub AllBytes : List ℕ → Type 0
AllBytes = All (λ b. b < 256)

hex_val-hex_digit : (d : ℕ) → d < 16 → hex_val (hex_digit d) ≡ some d
unfolding hex_val hex_digit
hex_val-hex_digit d h = ground arith

-- Bytes written as hex digits read back.
pub hex_pairs-hex_encode : (bs : List ℕ) → AllBytes bs → hex_pairs (hex_encode bs) ≡ some bs
unfolding hex_pairs hex_encode
hex_pairs-hex_encode [] h = refl
hex_pairs-hex_encode (b ∷ bs) (small, rest) =
    rw
      (
        hex_val-hex_digit (b / 16) (omega arith),
        hex_val-hex_digit (b % 16) (omega arith),
        hex_pairs-hex_encode bs rest,
      )
      (ground arith)

pub length-hex_encode : (bs : List ℕ) → length (hex_encode bs) ≡ 2 * length bs
unfolding hex_encode
length-hex_encode [] = omega arith
length-hex_encode (b ∷ bs) = omega (arith, length-hex_encode bs)

hex_val-lt : (c : ℕ) {d : ℕ} → hex_val c ≡ some d → d < 16
unfolding hex_val
hex_val-lt c h = ground arith

scan_hex-lt : (acc : ℕ) (s : Text) → acc < 2 ^ 64 → value_of (scan_hex acc s) < 2 ^ 64
unfolding scan_hex value_of
scan_hex-lt acc [] h = h
scan_hex-lt acc (c ∷ s) h = elim (Option-cases (hex_val c)) [
  | inl e ↦ rw (e, scan_hex, value_of) (omega arith)
  | inr (d, e) ↦ elim (Bool-cases (leb (2 ^ 60) acc)) [
    | inl big ↦ rw (e, scan_hex, value_of, big) (omega arith)
    | inr small ↦
        rw (e, scan_hex, small) (scan_hex-lt (acc * 16 + d) s (ground (arith, hex_val-lt c e)))
  ]
]
