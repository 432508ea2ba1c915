-- ===== src/Indexer/Challenges/Meta.antt =====
-- The challenge scan does not touch the last scanned block.
use zchf_grenadier.Prelude.{ℕ, ◌≡◌, refl, ap, sym, ◌∙◌, some, nat_eq, list_eq}
use mathlib.Core.Option.{some-injective}
use zchf_grenadier.Prelude.Int.{ℤ}
use zchf_grenadier.Text.{Text}
use zchf_grenadier.Exec.{Result, ok, err}
use zchf_grenadier.Store.Rows.{PositionRow, Challenge, Bid}
use zchf_grenadier.Table.{Table}
use zchf_grenadier.Store.Handle.{Db, Store, execute}
use zchf_grenadier.Store.Handle.Laws.{Wrote, execute-Wrote, db-query}
use zchf_grenadier.Store.Challenges.{upsert_challenge, upsert_bid}
use zchf_grenadier.Indexer.Challenges.Scan.{Rpc, scan_challenges}
use zchf_grenadier.Exec.Keeps.{Keeps}
use zchf_grenadier.Indexer.Challenges.Preserves.{Preserves-scan_challenges}

-- What the challenge scan does not write.
abbrev view : Db → Table Text PositionRow × Table Text Text
view db = (db.positions, db.meta)

abbrev pub seen : Store → Table Text PositionRow × Table Text Text
seen s = view s.db

-- A statement that leaves the tables of positions and of the meta data.
Keeps-execute :
    (change : Db → Db)
    → ((db : Db) → (view (change db) ≡ view db))
    → Keeps seen (execute (λ db. some (change db)))
Keeps-execute change h s =
    go (execute (λ db. some (change db)) s) (execute-Wrote (λ db. some (change db)) s)
  where
    go : (p : Result (Unit {0}) × Store) → Wrote (some (change s.db)) s.db p → seen p.1 ≡ seen s
    go (ok u, t) e = ap view (sym (some-injective _ _ e)) ∙ h s.db
    go (err x, t) e = ap view e

Keeps-upsert_challenge : (c : Challenge) (block : ℤ) → Keeps seen (upsert_challenge c block)
unfolding upsert_challenge
Keeps-upsert_challenge c block = Keeps-execute _ (λ db. refl)

Keeps-upsert_bid : (b : Bid) → Keeps seen (upsert_bid b)
unfolding upsert_bid
Keeps-upsert_bid b = Keeps-execute _ (λ db. refl)

module _ (junk : Text → ℤ) (rpc : Rpc) where
  scan_challenges-seen : (from to : ℕ) → Keeps seen (scan_challenges junk rpc from to)
  scan_challenges-seen from to s =
      Preserves-scan_challenges (λ t. seen t ≡ seen s) (λ A f t h. ap view (db-query f t) ∙ h)
        (λ c block t h. Keeps-upsert_challenge c block t ∙ h) (λ b t h. Keeps-upsert_bid b t ∙ h)
        junk rpc from to s refl

  -- ScanChallenges leaves the meta table as it is, whatever the chain answers and whichever of its
  -- statements fail.
  pub scan_challenges-KeepsMeta :
      (from to : ℕ) → Keeps (λ (s : Store). s.db.meta) (scan_challenges junk rpc from to)
  scan_challenges-KeepsMeta from to s = ap (λ v. v.1) (scan_challenges-seen from to s)

  pub scan_challenges-KeepsPositions :
      (from to : ℕ) → Keeps (λ (s : Store). s.db.positions) (scan_challenges junk rpc from to)
  scan_challenges-KeepsPositions from to s = ap (λ v. v.0) (scan_challenges-seen from to s)
