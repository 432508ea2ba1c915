-- ===== src/Indexer/Challenges/Order.antt =====
-- Which logs a scan goes through, and in which order.
use mathlib.Core.List.{Perm, perm_middle}
use mathlib.Core.List.Perm
use mathlib.Core.Path.{subst}
use zchf_grenadier.Prelude.{
  ℕ, ◌<◌, ◌≤◌, ◌≡◌, refl, ap, ◌∙◌, Bool, true, false, ◌&&◌, ◌||◌, List, [], ◌∷◌, ◌++◌, eqb, ltb,
  leb, keep, All, arith, Bool-cases, inl, inr,
}
use zchf_grenadier.Chain.Log.{Log, block_num, log_idx}
use zchf_grenadier.Indexer.Challenges.Scan.{
  place_block, block_numbers, place_log, sort_logs, logs_in,
}

-- The logs that scan_blocks hands on for these blocks, in its order.
abbrev pub scanned : List Log → List ℕ → List Log
scanned logs [] = []
scanned logs (b ∷ bs) = logs_in b logs ++ scanned logs bs

place_log-perm : (l : Log) (ks : List Log) → Perm (place_log l ks) (l ∷ ks)
unfolding place_log
place_log-perm l [] = Perm.refl _
place_log-perm l (k ∷ ks) = elim (Bool-cases (leb (log_idx l) (log_idx k))) [
  | inl le ↦ rw le (Perm.refl _)
  | inr gt ↦ rw gt (Perm.trans (Perm.cons k (place_log-perm l ks)) (Perm.swap _ _ _))
]

sort_logs-perm : (ls : List Log) → Perm (sort_logs ls) ls
unfolding sort_logs
sort_logs-perm [] = Perm.refl _
sort_logs-perm (l ∷ ls) =
    Perm.trans (place_log-perm l (sort_logs ls)) (Perm.cons l (sort_logs-perm ls))

-- Two tests that exclude each other split a list.
keep-split :
    (p q r : Log → Bool)
    → ((l : Log) → r l ≡ (p l || q l))
    → ((l : Log) → (p l && q l) ≡ false)
    → (xs : List Log) → Perm (keep p xs ++ keep q xs) (keep r xs)
keep-split p q r union apart [] = Perm.refl _
keep-split p q r union apart (x ∷ xs) =
    let rest = keep-split p q r union apart xs in
    let both = apart x in
    let any = union x in
    elim (Bool-cases (p x)) [
      | inl on ↦
          let no : q x ≡ false = ground (arith, both, on) in
          let sure : r x ≡ true = ground (arith, any, on) in rw (on, no, sure) (Perm.cons x rest)
      | inr not_p ↦ elim (Bool-cases (q x)) [
        | inl on ↦
            let sure : r x ≡ true = ground (arith, any, on) in
            rw (not_p, on, sure)
              (Perm.trans (perm_middle (keep p xs) (keep q xs)) (Perm.cons x rest))
        | inr off ↦
            let out : r x ≡ false = ground (arith, any, not_p, off) in rw (not_p, off, out) rest
      ]
    ]

abbrev holds : ℕ → List ℕ → Bool
holds n [] = false
holds n (b ∷ bs) = eqb n b || holds n bs

-- Every block number is smaller than those after it.
abbrev pub IsAscending : List ℕ → Type 0
IsAscending [] = Unit
IsAscending (b ∷ bs) = All (λ c. b < c) bs × IsAscending bs

not_below : (n b : ℕ) (bs : List ℕ) → All (λ c. b < c) bs → n ≤ b → holds n bs ≡ false
not_below n b [] h le = refl
not_below n b (c ∷ bs) (first, rest) le = let other = not_below n b bs rest le in ground arith

not_both : (n b : ℕ) (bs : List ℕ) → All (λ c. b < c) bs → (eqb n b && holds n bs) ≡ false
not_both n b bs h = elim (Bool-cases (eqb n b)) [
  | inl same ↦ let out = not_below n b bs h (ground (arith, same)) in rw (same, out) refl
  | inr other ↦ rw other refl
]

none_kept : (logs : List Log) → Perm [] (keep (λ l. false) logs)
none_kept [] = Perm.refl []
none_kept (l ∷ logs) = none_kept logs

All-weaken : (n b : ℕ) (bs : List ℕ) → n < b → All (λ c. b < c) bs → All (λ c. n < c) bs
All-weaken n b [] lt h = tt
All-weaken n b (c ∷ bs) lt (first, rest) = (omega arith, All-weaken n b bs lt rest)

All-place_block :
    (m n : ℕ) (bs : List ℕ) → m < n → All (λ c. m < c) bs → All (λ c. m < c) (place_block n bs)
unfolding place_block
All-place_block m n [] lt h = (lt, tt)
All-place_block m n (b ∷ bs) lt (first, rest) =
    let below = All-place_block m n bs lt rest in
    elim (Bool-cases (eqb n b)) [
      | inl same ↦ rw same (first, rest)
      | inr other ↦ elim (Bool-cases (ltb n b)) [
        | inl low ↦ rw (other, low) (lt, (first, rest))
        | inr high ↦ rw (other, high) (first, below)
      ]
    ]

IsAscending-place_block : (n : ℕ) (bs : List ℕ) → IsAscending bs → IsAscending (place_block n bs)
unfolding place_block
IsAscending-place_block n [] h = (tt, tt)
IsAscending-place_block n (b ∷ bs) (first, rest) = elim (Bool-cases (eqb n b)) [
  | inl same ↦ rw same (first, rest)
  | inr other ↦ elim (Bool-cases (ltb n b)) [
    | inl low ↦
        let lt : n < b = ground (arith, low) in
        rw (other, low) ((lt, All-weaken n b bs lt first), (first, rest))
    | inr high ↦
        let lt : b < n = ground (arith, high, other) in
        rw (other, high) (All-place_block b n bs lt first, IsAscending-place_block n bs rest)
  ]
]

IsAscending-block_numbers : (ls : List Log) → IsAscending (block_numbers ls)
unfolding block_numbers
IsAscending-block_numbers [] = tt
IsAscending-block_numbers (l ∷ ls) =
    IsAscending-place_block (block_num l) (block_numbers ls) (IsAscending-block_numbers ls)

holds-place_block : (m n : ℕ) (bs : List ℕ) → holds m (place_block n bs) ≡ (eqb m n || holds m bs)
unfolding place_block
holds-place_block m n [] = refl
holds-place_block m n (b ∷ bs) = let rest = holds-place_block m n bs in ground arith

keep-holds :
    (ls : List Log) (bs : List ℕ)
    → All (λ l. holds (block_num l) bs ≡ true) ls
    → keep (λ l. holds (block_num l) bs) ls ≡ ls
keep-holds [] bs h = refl
keep-holds (l ∷ ls) bs (first, rest) = rw first (ap (λ ks. l ∷ ks) (keep-holds ls bs rest))

holds_more :
    (ls : List Log) (n : ℕ) (bs : List ℕ)
    → All (λ l. holds (block_num l) bs ≡ true) ls
    → All (λ l. holds (block_num l) (place_block n bs) ≡ true) ls
holds_more [] n bs h = tt
holds_more (l ∷ ls) n bs (first, rest) =
    (holds-place_block (block_num l) n bs ∙ ground (arith, first), holds_more ls n bs rest)

holds_own : (ls : List Log) → All (λ l. holds (block_num l) (block_numbers ls) ≡ true) ls
unfolding block_numbers
holds_own [] = tt
holds_own (l ∷ ls) = (
  holds-place_block (block_num l) (block_num l) (block_numbers ls) ∙ ground arith,
  holds_more ls (block_num l) (block_numbers ls) (holds_own ls),
)

-- The blocks of an ascending list take the logs that are in them.
scanned-perm :
    (logs : List Log) (bs : List ℕ)
    → IsAscending bs
    → Perm (scanned logs bs) (keep (λ l. holds (block_num l) bs) logs)
unfolding logs_in
scanned-perm logs [] h = none_kept logs
scanned-perm logs (b ∷ bs) (first, rest) =
    Perm.trans
      (Perm.append (sort_logs-perm (keep (λ l. eqb (block_num l) b) logs))
        (scanned-perm logs bs rest))
      (keep-split (λ l. eqb (block_num l) b) (λ l. holds (block_num l) bs)
        (λ l. holds (block_num l) (b ∷ bs)) (λ l. refl) (λ l. not_both (block_num l) b bs first)
        logs)

-- Logs of one block, by log index.
abbrev pub IsByIndex : List Log → Type 0
IsByIndex [] = Unit
IsByIndex (l ∷ ls) = All (λ k. log_idx l ≤ log_idx k) ls × IsByIndex ls

All-lower :
    (l k : Log) (ls : List Log)
    → log_idx l ≤ log_idx k
    → All (λ x. log_idx k ≤ log_idx x) ls
    → All (λ x. log_idx l ≤ log_idx x) ls
All-lower l k [] le h = tt
All-lower l k (x ∷ ls) le (first, rest) = (omega arith, All-lower l k ls le rest)

All-place_log :
    (n : ℕ) (l : Log) (ks : List Log)
    → n ≤ log_idx l
    → All (λ x. n ≤ log_idx x) ks
    → All (λ x. n ≤ log_idx x) (place_log l ks)
unfolding place_log
All-place_log n l [] le h = (le, tt)
All-place_log n l (k ∷ ks) le (first, rest) = elim (Bool-cases (leb (log_idx l) (log_idx k))) [
  | inl below ↦ rw below (le, (first, rest))
  | inr above ↦ rw above (first, All-place_log n l ks le rest)
]

place_log-IsByIndex : (l : Log) (ks : List Log) → IsByIndex ks → IsByIndex (place_log l ks)
unfolding place_log
place_log-IsByIndex l [] h = (tt, tt)
place_log-IsByIndex l (k ∷ ks) (top, rest) = elim (Bool-cases (leb (log_idx l) (log_idx k))) [
  | inl below ↦
      let le : log_idx l ≤ log_idx k = ground (arith, below) in
      rw below ((le, All-lower l k ks le top), (top, rest))
  | inr above ↦
      let le : log_idx k ≤ log_idx l = ground (arith, above) in
      rw above (All-place_log (log_idx k) l ks le top, place_log-IsByIndex l ks rest)
]

sort_logs-IsByIndex : (ls : List Log) → IsByIndex (sort_logs ls)
unfolding sort_logs
sort_logs-IsByIndex [] = tt
sort_logs-IsByIndex (l ∷ ls) = place_log-IsByIndex l (sort_logs ls) (sort_logs-IsByIndex ls)

-- The blocks that ScanChallenges goes through ascend strictly, the logs that it takes of each block
-- are in the order of their log index, and all of the lists together are the logs of the range, each
-- as often as it is there.
pub scanned_all :
    (logs : List Log)
    → IsAscending (block_numbers logs)
      × ((b : ℕ) → IsByIndex (logs_in b logs))
      × Perm (scanned logs (block_numbers logs)) logs
unfolding logs_in
scanned_all logs = (
  IsAscending-block_numbers logs,
  (λ b. sort_logs-IsByIndex (keep (λ l. eqb (block_num l) b) logs)),
  subst (λ ks. Perm (scanned logs (block_numbers logs)) ks)
      (keep-holds logs (block_numbers logs) (holds_own logs))
      (scanned-perm logs (block_numbers logs) (IsAscending-block_numbers logs)),
)
