-- ===== src/Indexer/Challenges/Traversal.antt =====
-- ScanChallenges takes the logs of its range one by one, in the order of the chain.
use mathlib.Core.List.{Perm}
use zchf_grenadier.Prelude.{
  ℕ, ◌+◌, ◌<◌, ◌≤◌, ◌≡◌, refl, ap, sym, ◌∙◌, ◌⊎◌, inl, inr, Bool, true, Option, none, some, List,
  [], ◌∷◌, ◌++◌, eqb, leb, keep, All, All-keep, arith, Bool-cases,
}
use mathlib.Core.Path.{fun_ext}
use zchf_grenadier.Prelude.Int.{ℤ}
use zchf_grenadier.Text.{Text}
use zchf_grenadier.Exec.{Result, ok, err, Exec, pure, continue, ◌>>=◌}
use zchf_grenadier.Store.Handle.{Store}
use zchf_grenadier.Chain.Log.{Log, block_num, log_idx}
use zchf_grenadier.Indexer.Challenges.Scan.{
  Rpc, place_log, sort_logs, logs_in, block_numbers, scan_log, scan_logs, scan_block, scan_blocks,
  scan_challenges,
}
use zchf_grenadier.Indexer.Challenges.Order.{IsAscending, IsByIndex, scanned, scanned_all}

-- The sum of two counts, or the first error.
abbrev plus : Exec Store ℕ → Exec Store ℕ → Exec Store ℕ
plus m k = m >>= λ a. k >>= λ b. pure (a + b)

plus-zero : (k : Exec Store ℕ) (s : Store) → plus (pure 0) k s ≡ k s
plus-zero k s = go (k s)
  where
    go : (p : Result ℕ × Store) → continue p.0 p.1 (λ b. pure (0 + b)) ≡ p
    go (ok b, t) = ap (λ n. (ok n, t)) (omega arith)
    go (err e, t) = refl

plus_assoc : (m k h : Exec Store ℕ) (s : Store) → plus (plus m k) h s ≡ plus m (plus k h) s
plus_assoc m k h s = go (m s)
  where
    last :
        (a b : ℕ) (p : Result ℕ × Store)
        → continue p.0 p.1 (λ c. pure ((a + b) + c))
          ≡ continue
              (continue p.0 p.1 (λ c. pure (b + c))).0
              (continue p.0 p.1 (λ c. pure (b + c))).1
              (λ c. pure (a + c))
    last a b (ok c, t) = ap (λ n. (ok n, t)) (omega arith)
    last a b (err e, t) = refl

    middle :
        (a : ℕ) (p : Result ℕ × Store)
        → continue
            (continue p.0 p.1 (λ b. pure (a + b))).0
            (continue p.0 p.1 (λ b. pure (a + b))).1
            (λ n. h >>= λ c. pure (n + c))
          ≡ continue
              (continue p.0 p.1 (λ b. h >>= λ c. pure (b + c))).0
              (continue p.0 p.1 (λ b. h >>= λ c. pure (b + c))).1
              (λ n. pure (a + n))
    middle a (ok b, t) = last a b (h t)
    middle a (err e, t) = refl

    go :
        (p : Result ℕ × Store)
        → continue
            (continue p.0 p.1 (λ a. k >>= λ b. pure (a + b))).0
            (continue p.0 p.1 (λ a. k >>= λ b. pure (a + b))).1
            (λ n. h >>= λ c. pure (n + c))
          ≡ continue p.0 p.1 (λ a. plus k h >>= λ b. pure (a + b))
    go (ok a, t) = middle a (k t)
    go (err e, t) = refl

module _ (P : Log → Type 0) where
  pub All-place : (l : Log) (ks : List Log) → P l → All P ks → All P (place_log l ks)
  unfolding place_log
  All-place l [] p h = (p, tt)
  All-place l (k ∷ ks) p (q, h) = elim (Bool-cases (leb (log_idx l) (log_idx k))) [
    | inl below ↦ rw below (p, (q, h))
    | inr above ↦ rw above (q, All-place l ks p h)
  ]

  pub All-sort_logs : (ks : List Log) → All P ks → All P (sort_logs ks)
  unfolding sort_logs
  All-sort_logs [] h = tt
  All-sort_logs (k ∷ ks) (p, h) = All-place k (sort_logs ks) p (All-sort_logs ks h)

  pub All-kept : (p : Log → Bool) (xs : List Log) → All P xs → All P (keep p xs)
  All-kept p [] h = tt
  All-kept p (x ∷ xs) (q, h) = elim (Bool-cases (p x)) [
    | inl kept ↦ rw kept (q, All-kept p xs h)
    | inr gone ↦ rw gone (All-kept p xs h)
  ]

  All-append : (xs ys : List Log) → All P xs → All P ys → All P (xs ++ ys)
  All-append [] ys h k = k
  All-append (x ∷ xs) ys (p, h) k = (p, All-append xs ys h k)

  All-from : (Q : Log → Type 0) → ((l : Log) → Q l → P l) → (xs : List Log) → All Q xs → All P xs
  All-from Q f [] h = tt
  All-from Q f (x ∷ xs) (q, h) = (f x q, All-from Q f xs h)

-- The logs of a block are in it.
in_block : (b : ℕ) (logs : List Log) → All (λ l. block_num l ≡ b) (logs_in b logs)
unfolding logs_in
in_block b logs =
    All-sort_logs (λ l. block_num l ≡ b) (keep (λ l. eqb (block_num l) b) logs)
      (All-from (λ l. block_num l ≡ b) (λ l. eqb (block_num l) b ≡ true) (λ l h. ground (arith, h))
        (keep (λ l. eqb (block_num l) b) logs) (All-keep (λ l. eqb (block_num l) b) logs))

-- By block, and in a block by log index.
abbrev IsBefore : Log → Log → Type 0
IsBefore l k = (block_num l < block_num k) ⊎ ((block_num l ≡ block_num k) × (log_idx l ≤ log_idx k))

abbrev pub IsInOrder : List Log → Type 0
IsInOrder [] = Unit
IsInOrder (l ∷ ls) = All (IsBefore l) ls × IsInOrder ls

IsInOrder-append :
    (b : ℕ) (xs ys : List Log)
    → All (λ l. block_num l ≡ b) xs
    → IsByIndex xs
    → All (λ l. b < block_num l) ys
    → IsInOrder ys
    → IsInOrder (xs ++ ys)
IsInOrder-append b [] ys same sorted later h = h
IsInOrder-append b (x ∷ xs) ys (here, same) (first, sorted) later h = (
  All-append (IsBefore x) xs ys (go xs same first)
      (All-from (IsBefore x) (λ l. b < block_num l) (λ l lt. inl (rw here lt)) ys later),
  IsInOrder-append b xs ys same sorted later h,
)
  where
    go :
        (ks : List Log)
        → All (λ l. block_num l ≡ b) ks
        → All (λ k. log_idx x ≤ log_idx k) ks
        → All (IsBefore x) ks
    go [] i j = tt
    go (k ∷ ks) (i, is) (j, js) = (inr (here ∙ sym i, j), go ks is js)

scanned-after :
    (b : ℕ) (logs : List Log) (bs : List ℕ)
    → All (λ c. b < c) bs
    → All (λ l. b < block_num l) (scanned logs bs)
scanned-after b logs [] h = tt
scanned-after b logs (c ∷ bs) (lt, h) =
    All-append (λ l. b < block_num l) (logs_in c logs) (scanned logs bs)
      (All-from (λ l. b < block_num l) (λ l. block_num l ≡ c) (λ l e. rw e lt) (logs_in c logs)
        (in_block c logs))
      (scanned-after b logs bs h)

scanned-IsInOrder :
    (logs : List Log) (bs : List ℕ)
    → IsAscending bs
    → ((b : ℕ) → IsByIndex (logs_in b logs))
    → IsInOrder (scanned logs bs)
scanned-IsInOrder logs [] up sorted = tt
scanned-IsInOrder logs (b ∷ bs) (first, up) sorted =
    IsInOrder-append b (logs_in b logs) (scanned logs bs) (in_block b logs) (sorted b)
      (scanned-after b logs bs first) (scanned-IsInOrder logs bs up sorted)

module _ (junk : Text → ℤ) (rpc : Rpc) where
  -- A log with the block that it is in; one whose block cannot be fetched is passed over.
  abbrev in_its_block : Option (ℤ × (Text → Text)) → Log → Exec Store ℕ
  in_its_block none l = pure 0
  in_its_block (some (ts, senders)) l = scan_log junk rpc ts senders l

  -- The logs one after the other, up to a panic: how many of them count.
  abbrev pub one_by_one : List Log → Exec Store ℕ
  one_by_one [] = pure 0
  one_by_one (l ∷ ls) = plus (in_its_block (rpc.get_block (block_num l)) l) (one_by_one ls)

  one_by_one-append :
      (xs ys : List Log) (s : Store)
      → one_by_one (xs ++ ys) s ≡ plus (one_by_one xs) (one_by_one ys) s
  one_by_one-append [] ys s = sym (plus-zero (one_by_one ys) s)
  one_by_one-append (x ∷ xs) ys s =
      ap (λ k. plus (in_its_block (rpc.get_block (block_num x)) x) k s)
        (fun_ext (one_by_one-append xs ys))
      ∙ sym (
          plus_assoc (in_its_block (rpc.get_block (block_num x)) x) (one_by_one xs) (one_by_one ys)
            s)

  scan_block-one_by_one :
      (b : ℕ) (o : Option (ℤ × (Text → Text))) (ls : List Log)
      → rpc.get_block b ≡ o
      → All (λ l. block_num l ≡ b) ls
      → (s : Store) → scan_block junk rpc o ls s ≡ one_by_one ls s
  unfolding scan_block scan_logs
  scan_block-one_by_one b none [] e h s = refl
  scan_block-one_by_one b none (l ∷ ls) e (here, h) s =
      scan_block-one_by_one b none ls e h s ∙ sym (plus-zero (one_by_one ls) s) ∙ rw (here, e) refl
  scan_block-one_by_one b (some (ts, senders)) [] e h s = refl
  scan_block-one_by_one b (some (ts, senders)) (l ∷ ls) e (here, h) s =
      rw (here, e)
        (ap (λ k. plus (scan_log junk rpc ts senders l) k s)
          (fun_ext (scan_block-one_by_one b (some (ts, senders)) ls e h)))

  scan_blocks-one_by_one :
      (logs : List Log) (bs : List ℕ) (s : Store)
      → scan_blocks junk rpc logs bs s ≡ one_by_one (scanned logs bs) s
  unfolding scan_blocks
  scan_blocks-one_by_one logs [] s = refl
  scan_blocks-one_by_one logs (b ∷ bs) s =
      ap (λ m. plus m (scan_blocks junk rpc logs bs) s)
        (fun_ext
          (scan_block-one_by_one b (rpc.get_block b) (logs_in b logs) refl (in_block b logs)))
      ∙ ap (λ k. plus (one_by_one (logs_in b logs)) k s) (fun_ext (scan_blocks-one_by_one logs bs))
      ∙ sym (one_by_one-append (logs_in b logs) (scanned logs bs) s)

  -- ScanChallenges on an answer of the chain is one pass over the logs of that answer, each as often
  -- as it is there, in the order of their blocks and in a block in that of their log index: every log
  -- is handled with the timestamp and the senders of its own block, or passed over where this block
  -- cannot be fetched, and the sum of the counts is returned, up to a panic, which ends the pass.
  pub scan_challenges-IsInOrder :
      (from to : ℕ) (logs : List Log)
      → rpc.get_logs from to ≡ some logs
      → (ls : List Log) × Perm ls logs
        × IsInOrder ls
        × ((s : Store) → scan_challenges junk rpc from to s ≡ one_by_one ls s)
  unfolding scan_challenges
  scan_challenges-IsInOrder from to logs e =
      let all = scanned_all logs in
      (
        scanned logs (block_numbers logs),
        all.2,
        scanned-IsInOrder logs (block_numbers logs) all.0 all.1,
        (λ s. rw (scan_challenges, e) (scan_blocks-one_by_one logs (block_numbers logs) s)),
      )
