-- ===== src/Store/Positions/LastBlock.antt =====
-- The last scanned block, kept in the meta table as a decimal text.
use zchf_grenadier.Prelude.{ℕ, ◌^◌, ◌<◌, ◌≡◌, refl, some, [], ◌∷◌, nat_eq, list_eq}
use zchf_grenadier.Text.{Text, codes}
use zchf_grenadier.Text.Decimal.{print, parse_uint64, parse_uint64-print}
use zchf_grenadier.Exec.{ok}
use zchf_grenadier.Table.{upsert}
use zchf_grenadier.Table.Laws.{find-upsert_self}
use zchf_grenadier.Store.Handle.{Db, Store, quiet}
use zchf_grenadier.Store.Positions.{read_block, get_last_block, set_last_block}

abbrev pub with_last_block : ℕ → Db → Db
with_last_block n db = record db { meta = upsert (codes "last_block") (print n) db.meta }

read_block_digits :
    (v : Text) (n : ℕ) (s : Store) → parse_uint64 v ≡ some n → read_block v s ≡ (ok n, s)
unfolding read_block
read_block_digits [] n s h = unfold parse_uint64 in cc
read_block_digits (c ∷ v) n s h = rw (h, read_block)

-- SetLastBlock writes one key of the meta table, and GetLastBlock then reads the number back, for
-- every 64-bit block number and where no statement fails.
pub get_last_block-set_last_block :
    (n : ℕ) (db : Db)
    → n < 2 ^ 64
    → (set_last_block n (quiet db) ≡ (ok tt, quiet (with_last_block n db)))
      × (get_last_block (quiet (with_last_block n db)) ≡ (ok n, quiet (with_last_block n db)))
get_last_block-set_last_block n db h = (
  unfold set_last_block in refl,
  unfold get_last_block in
      rw (find-upsert_self (codes "last_block") (print n) db.meta)
        (read_block_digits (print n) n _ (parse_uint64-print n h)),
)
