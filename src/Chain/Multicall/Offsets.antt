-- ===== src/Chain/Multicall/Offsets.antt =====
-- The offsets of an encoded call lead to its tuples.
use zchf_grenadier.Prelude.{
  ℕ, zero, suc, ◌+◌, ◌*◌, ◌≡◌, refl, ap, sym, ◌∙◌, List, [], ◌∷◌, ◌++◌, arith, length, take, drop,
  length-append, take-append, drop-append,
}
use zchf_grenadier.Chain.Abi.{encode_uint64}
use zchf_grenadier.Chain.Abi.Words.{append_assoc, length-encode_uint64}
use zchf_grenadier.Chain.Multicall.{offsets, joined, array_data}

offsets_cons :
    (cursor : ℕ) (b : List ℕ) (bs : List (List ℕ))
    → offsets cursor (b ∷ bs) ≡ encode_uint64 cursor ++ offsets (cursor + length b) bs
unfolding offsets
offsets_cons cursor b bs = refl

length-offsets : (cursor : ℕ) (bs : List (List ℕ)) → length (offsets cursor bs) ≡ length bs * 32
length-offsets cursor [] = unfold offsets in refl
length-offsets cursor (b ∷ bs) =
    let rest = length-offsets (cursor + length b) bs in
    let both = length-append (encode_uint64 cursor) (offsets (cursor + length b) bs) in
    let word = length-encode_uint64 cursor in
    ap length (offsets_cons cursor b bs) ∙ both ∙ omega (arith, rest, word)

drop_front : (w xs : List ℕ) (k m n : ℕ) → length w ≡ k → n ≡ k + m → drop n (w ++ xs) ≡ drop m xs
drop_front [] xs k m n e f = ap (λ x. drop x xs) (omega (arith, e, f))
drop_front (y ∷ w) xs k m zero e f = absurd (omega (arith, e, f))
drop_front (y ∷ w) xs k m (suc n) e f = drop_front w xs (length w) m n refl (omega (arith, e, f))

take_front : (w xs : List ℕ) (n : ℕ) → length w ≡ n → take n (w ++ xs) ≡ w
take_front w xs n e = ap (λ k. take k (w ++ xs)) (sym e) ∙ take-append w xs

joined_cons : (b : List ℕ) (bs : List (List ℕ)) → joined (b ∷ bs) ≡ b ++ joined bs
unfolding joined
joined_cons b bs = refl

length-joined_cons :
    (b : List ℕ) (bs : List (List ℕ)) → length (joined (b ∷ bs)) ≡ length b + length (joined bs)
length-joined_cons b bs = ap length (joined_cons b bs) ∙ length-append b (joined bs)

-- The word of the tuple behind `before`, among the offsets from the cursor on.
offset_word :
    (cursor : ℕ) (before after : List (List ℕ)) (b rest : List ℕ)
    → take 32 (drop (length before * 32) (offsets cursor (before ++ b ∷ after) ++ rest))
      ≡ encode_uint64 (cursor + length (joined before))
offset_word cursor [] after b rest =
    let first =
      ap (λ o. o ++ rest) (offsets_cons cursor b after)
      ∙ append_assoc (encode_uint64 cursor) (offsets (cursor + length b) after) rest in
    let none_before : length (joined []) ≡ 0 = unfold joined in refl in
    ap (take 32) first
    ∙ take_front (encode_uint64 cursor) _ 32 (length-encode_uint64 cursor)
    ∙ ap encode_uint64 (omega (arith, none_before))
offset_word cursor (x ∷ before) after b rest =
    let first =
      ap (λ o. o ++ rest) (offsets_cons cursor x (before ++ b ∷ after))
      ∙ append_assoc (encode_uint64 cursor) (offsets (cursor + length x) (before ++ b ∷ after))
          rest in
    let place = length-joined_cons x before in
    ap (λ l. take 32 (drop (suc (length before) * 32) l)) first
    ∙ ap (take 32) (
        drop_front (encode_uint64 cursor) _ 32 (length before * 32) (suc (length before) * 32)
          (length-encode_uint64 cursor) (omega arith))
    ∙ offset_word (cursor + length x) before after b rest
    ∙ ap encode_uint64 (omega (arith, place))

joined-append :
    (before after : List (List ℕ)) → joined (before ++ after) ≡ joined before ++ joined after
joined-append [] after = unfold joined in refl
joined-append (b ∷ before) after =
    joined_cons b (before ++ after)
    ∙ ap (λ l. b ++ l) (joined-append before after)
    ∙ sym (append_assoc b (joined before) (joined after))
    ∙ ap (λ l. l ++ joined after) (sym (joined_cons b before))

array_data_parts :
    (bodies : List (List ℕ))
    → array_data bodies ≡ offsets (length bodies * 32) bodies ++ joined bodies
unfolding array_data
array_data_parts bodies = refl

-- In the data of an encoded array of tuples the word of each tuple's place holds the offset of the
-- tuple: the tuple stands in the data at that offset.
pub array_data-offsets :
    (before after : List (List ℕ)) (b : List ℕ)
    → let bodies = before ++ b ∷ after in
      let offset = length bodies * 32 + length (joined before) in
      (take 32 (drop (length before * 32) (array_data bodies)) ≡ encode_uint64 offset)
      × (take (length b) (drop offset (array_data bodies)) ≡ b)
array_data-offsets before after b =
    let bodies = before ++ b ∷ after in
    let cursor = length bodies * 32 in
    let split =
      joined-append before (b ∷ after) ∙ ap (λ l. joined before ++ l) (joined_cons b after) in
    (
      ap (λ l. take 32 (drop (length before * 32) l)) (array_data_parts bodies)
          ∙ offset_word cursor before after b (joined bodies),
      ap (λ l. take (length b) (drop (cursor + length (joined before)) l)) (array_data_parts bodies)
          ∙ ap (take (length b)) (
              drop_front (offsets cursor bodies) (joined bodies) cursor (length (joined before))
                (cursor + length (joined before)) (length-offsets cursor bodies) refl)
          ∙ ap (λ l. take (length b) (drop (length (joined before)) l)) split
          ∙ ap (take (length b)) (drop-append (joined before) (b ++ joined after))
          ∙ take-append b (joined after),
    )
