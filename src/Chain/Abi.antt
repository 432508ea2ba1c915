-- ===== src/Chain/Abi.antt =====
-- chain/abi.go: 32-byte words, written and read. Go's ints and uint64s are numbers below 2 ^ 64 here;
-- an int that is negative is one of 2 ^ 63 or more.
pub mod Words
use zchf_grenadier.Prelude.{
  ℕ, zero, suc, ◌+◌, ◌-◌, ◌*◌, ◌/◌, ◌%◌, ◌^◌, Bool, true, false, not, ◌&&◌, Option, none, some,
  List, [], ◌∷◌, ◌++◌, if◌then◌else◌, length, take, drop, replicate, ltb, leb, eqb,
}
use zchf_grenadier.Text.{Text, codes, lower, trim_prefix}
use zchf_grenadier.Text.Hex.{hex_pairs, hex_encode, big_endian}

-- A value, an error, or a run-time panic.
pub data Decoded {ℓ} (A : Type ℓ) : Type ℓ where
  value : A → Decoded A
  refused panicked : Decoded A

module _ {A B : Type 0} where
  infixl 5 ◌>>=◌
  abbrev pub ◌>>=◌ : Decoded A → (A → Decoded B) → Decoded B
  value a >>= f = f a
  refused >>= f = refused
  panicked >>= f = panicked

-- x, _ := …, where an error leaves `zero_value`
abbrev pub value_or : {A : Type 0} → A → Decoded A → Decoded A
value_or zero_value (value a) = value a
value_or zero_value refused = value zero_value
value_or zero_value panicked = panicked

unfoldable pub wrap64 : ℕ → ℕ
wrap64 n = n % 2 ^ 64

-- len(data) < p, for an int p
unfoldable pub is_too_short : List ℕ → ℕ → Bool
is_too_short bytes p = ltb (length bytes) p && ltb p (2 ^ 63)

-- data[lo:hi]
unfoldable pub slice : ℕ → ℕ → List ℕ → Decoded (List ℕ)
slice lo hi bytes =
    if leb lo hi && leb hi (length bytes) then value (take (hi - lo) (drop lo bytes)) else panicked

number_of : Decoded (List ℕ) → Decoded ℕ
unfolding big_endian
number_of (value bytes) = value (big_endian 0 bytes)
number_of refused = refused
number_of panicked = panicked

-- binary.BigEndian.Uint64(data[p+24 : p+32])
unfoldable pub uint64_at : List ℕ → ℕ → Decoded ℕ
unfolding slice number_of wrap64
uint64_at bytes p = number_of (slice (wrap64 (p + 24)) (wrap64 (p + 32)) bytes)

-- decodeUint256
unfoldable pub decode_uint256 : List ℕ → ℕ → Decoded ℕ
unfolding is_too_short slice number_of wrap64
decode_uint256 bytes offset =
    if is_too_short bytes (wrap64 (offset + 32))
    then refused
    else number_of (slice offset (wrap64 (offset + 32)) bytes)

-- decodeUint64
unfoldable pub decode_uint64 : List ℕ → ℕ → Decoded ℕ
unfolding is_too_short uint64_at wrap64
decode_uint64 bytes offset =
    if is_too_short bytes (wrap64 (offset + 32)) then refused else uint64_at bytes offset

address_of : Decoded (List ℕ) → Decoded Text
unfolding hex_encode
address_of (value bytes) = value (codes "0x" ++ hex_encode bytes)
address_of refused = refused
address_of panicked = panicked

-- decodeAddress
unfoldable pub decode_address : List ℕ → ℕ → Decoded Text
unfolding is_too_short slice address_of wrap64
decode_address bytes offset =
    if is_too_short bytes (wrap64 (offset + 32))
    then refused
    else address_of (slice (wrap64 (offset + 12)) (wrap64 (offset + 32)) bytes)

flag_of : Decoded (List ℕ) → Decoded Bool
flag_of (value (b ∷ bs)) = value (not (eqb b 0))
flag_of (value []) = panicked
flag_of refused = refused
flag_of panicked = panicked

-- data[p+31] != 0
unfoldable pub flag_at : List ℕ → ℕ → Decoded Bool
unfolding slice flag_of wrap64
flag_at bytes p = flag_of (slice (wrap64 (p + 31)) (wrap64 (p + 31) + 1) bytes)

-- decodeBool
unfoldable pub decode_bool : List ℕ → ℕ → Decoded Bool
unfolding is_too_short flag_at wrap64
decode_bool bytes offset =
    if is_too_short bytes (wrap64 (offset + 32)) then refused else flag_at bytes offset

unfoldable string_body : List ℕ → ℕ → ℕ → Decoded Text
unfolding slice wrap64
string_body bytes off len =
    if ltb (length bytes) (wrap64 (off + 32 + len))
    then refused
    else slice (wrap64 (off + 32)) (wrap64 (off + 32 + len)) bytes

unfoldable string_at : List ℕ → ℕ → Decoded Text
unfolding string_body uint64_at wrap64
string_at bytes off =
    if ltb (length bytes) (wrap64 (off + 32))
    then refused
    else (uint64_at bytes off >>= string_body bytes off)

-- decodeString
unfoldable pub decode_string : List ℕ → ℕ → Decoded Text
unfolding string_at decode_uint64
decode_string bytes offset = decode_uint64 bytes offset >>= string_at bytes

-- The last `count` bytes of a number, the highest first.
unfoldable pub be_bytes : ℕ → ℕ → List ℕ
be_bytes zero v = []
be_bytes (suc count) v = be_bytes count (v / 256) ++ v % 256 ∷ []

-- encodeUint64
unfoldable pub encode_uint64 : ℕ → List ℕ
unfolding be_bytes
encode_uint64 v = replicate 24 0 ++ be_bytes 8 v

-- encodeBool
unfoldable pub encode_bool : Bool → List ℕ
encode_bool b = replicate 31 0 ++ (if b then 1 else 0) ∷ []

-- encodeAddress; `none` is an error
unfoldable pub encode_address : Text → Option (List ℕ)
unfolding hex_pairs lower trim_prefix
encode_address addr =
    let t = trim_prefix (lower addr) (codes "0x") in
    if eqb (length t) 40
    then elim (hex_pairs t) [ none ↦ none | some bytes ↦ some (replicate 12 0 ++ bytes) ]
    else none

-- padTo32
unfoldable pub pad_to_32 : List ℕ → List ℕ
pad_to_32 bytes =
    let rem = length bytes % 32 in if eqb rem 0 then bytes else bytes ++ replicate (32 - rem) 0
