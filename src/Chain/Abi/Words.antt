-- ===== src/Chain/Abi/Words.antt =====
-- A word that is written reads back.
use zchf_grenadier.Prelude.{
  ℕ, zero, suc, ◌+◌, ◌*◌, ◌/◌, ◌%◌, ◌-◌, ◌^◌, ◌<◌, ◌≡◌, refl, ap, sym, ◌∙◌, true, false, ◌&&◌, List,
  [], ◌∷◌, ◌++◌, arith, length, replicate, length-append, take-append, drop-append, leb, ltb,
}
use zchf_grenadier.Text.Hex.{big_endian}
use zchf_grenadier.Chain.Abi.{
  value, wrap64, is_too_short, slice, number_of, uint64_at, decode_uint64, be_bytes, encode_uint64,
}

abbrev bound : ℕ → ℕ
bound zero = 1
bound (suc n) = 256 * bound n

big_endian_snoc :
    (acc b : ℕ) (xs : List ℕ) → big_endian acc (xs ++ b ∷ []) ≡ big_endian acc xs * 256 + b
unfolding big_endian
big_endian_snoc acc b [] = refl
big_endian_snoc acc b (x ∷ xs) = big_endian_snoc (acc * 256 + x) b xs

big_endian-be_bytes : (n v : ℕ) → v < bound n → big_endian 0 (be_bytes n v) ≡ v
unfolding be_bytes
big_endian-be_bytes zero v h = unfold big_endian in omega arith
big_endian-be_bytes (suc n) v h =
    let ih = big_endian-be_bytes n (v / 256) (omega arith) in
    rw (big_endian_snoc 0 (v % 256) (be_bytes n (v / 256)), ih) (omega arith)

length-be_bytes : (n v : ℕ) → length (be_bytes n v) ≡ n
unfolding be_bytes
length-be_bytes zero v = refl
length-be_bytes (suc n) v =
    length-append (be_bytes n (v / 256)) (v % 256 ∷ [])
    ∙ rw (length-be_bytes n (v / 256)) (omega arith)

pub length-encode_uint64 : (v : ℕ) → length (encode_uint64 v) ≡ 32
unfolding encode_uint64
length-encode_uint64 v =
    let whole = length-append (replicate 24 0) (be_bytes 8 v) in
    let digits = length-be_bytes 8 v in omega (arith, whole, digits)

pub append_assoc : (xs ys zs : List ℕ) → (xs ++ ys) ++ zs ≡ xs ++ (ys ++ zs)
append_assoc [] ys zs = refl
append_assoc (x ∷ xs) ys zs = ap (λ l. x ∷ l) (append_assoc xs ys zs)

-- A part of a list, by its place.
pub slice-append :
    (a b c : List ℕ) (lo hi : ℕ)
    → lo ≡ length a
    → hi ≡ length a + length b
    → slice lo hi (a ++ (b ++ c)) ≡ value b
unfolding slice
slice-append a b c lo hi el eh =
    let inside : leb lo hi && leb hi (length (a ++ (b ++ c))) ≡ true =
      rw (length-append a (b ++ c), length-append b c, el, eh) (ground arith) in
    let width : hi - lo ≡ length b = omega (arith, el, eh) in
    rw (inside, width, el, drop-append a (b ++ c)) (ap value (take-append b c))

number_of-slice :
    (a c : List ℕ) (v lo hi : ℕ)
    → v < 2 ^ 64
    → lo ≡ length a + 24
    → hi ≡ length a + 32
    → number_of (slice lo hi (a ++ (encode_uint64 v ++ c))) ≡ value v
unfolding number_of encode_uint64
number_of-slice a c v lo hi small el eh =
    let r : List ℕ = replicate 24 0 in
    let b : List ℕ = be_bytes 8 v in
    let front : length (a ++ r) ≡ length a + 24 = length-append a r in
    let digits : length b ≡ 8 = length-be_bytes 8 v in
    let parts : a ++ ((r ++ b) ++ c) ≡ (a ++ r) ++ (b ++ c) =
      ap (λ l. a ++ l) (append_assoc r b c) ∙ sym (append_assoc a r (b ++ c)) in
    let start : lo ≡ length (a ++ r) = omega (arith, el, front) in
    let end : hi ≡ length (a ++ r) + length b = omega (arith, eh, front, digits) in
    let part : slice lo hi (a ++ ((r ++ b) ++ c)) ≡ value b =
      ap (slice lo hi) parts ∙ slice-append (a ++ r) b c lo hi start end in
    ap number_of part ∙ ap value (big_endian-be_bytes 8 v (omega arith))

-- decodeUint64 reads back what encodeUint64 wrote, at any place in the bytes, for every uint64.
pub decode_uint64-encode_uint64 :
    (a c : List ℕ) (v : ℕ)
    → v < 2 ^ 64
    → length a + 32 < 2 ^ 63
    → decode_uint64 (a ++ (encode_uint64 v ++ c)) (length a) ≡ value v
unfolding decode_uint64 is_too_short wrap64 uint64_at
decode_uint64-encode_uint64 a c v small room =
    let whole = length-append a (encode_uint64 v ++ c) in
    let word = length-append (encode_uint64 v) c in
    let size = length-encode_uint64 v in
    let enough : ltb (length (a ++ (encode_uint64 v ++ c))) ((length a + 32) % 2 ^ 64) ≡ false =
      ground (arith, whole, word, size) in
    rw enough (
      number_of-slice a c v ((length a + 24) % 2 ^ 64) ((length a + 32) % 2 ^ 64) small
        (omega arith) (omega arith))
