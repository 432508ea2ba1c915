-- ===== src/Store/Handle/Laws.antt =====
-- What a statement and a transaction leave behind, whatever the outcomes of the statements.
use mathlib.Core.Option.{some-injective}
use zchf_grenadier.Prelude.{
  ◌≡◌, refl, ap, sym, ◌∙◌, Bool, true, false, Option, none, some, List, [], ◌∷◌, Option-cases, inl,
  inr, if◌then◌else◌,
}
use zchf_grenadier.Exec.Keeps.{Keeps}
use zchf_grenadier.Exec.{Result, ok, err, db_failed, Exec, ◌>>◌, continue}
use zchf_grenadier.Store.Handle.{
  Db, Store, quiet, send, query, done, execute, control, settle, transaction, each, write_rows,
  bulk, snapshot,
}

-- The rows of a bulk writer, one after the other; `none` is a violated constraint.
unfoldable pub steps : {R : Type 0} → (R → Db → Option Db) → List R → Db → Option Db
steps step [] db = some db
steps step (r ∷ rs) db = elim (step r db) [ none ↦ none | some db' ↦ steps step rs db' ]

-- What stands in the database after a write with result `r`: the old value or the new one.
abbrev pub Wrote : Option Db → Db → Result (Unit {0}) × Store → Type 0
Wrote new old (ok u, s) = new ≡ some s.db
Wrote new old (err e, s) = s.db ≡ old

done-Wrote :
    (sent : Bool) (new : Option Db) (old : Db) (os : List Bool)
    → Wrote new old ((done sent new old).0, record { db = (done sent new old).1; outcomes = os })
unfolding done
done-Wrote true none old os = refl
done-Wrote true (some new) old os = refl
done-Wrote false new old os = refl

pub execute-Wrote :
    (change : Db → Option Db) (s : Store) → Wrote (change s.db) s.db (execute change s)
unfolding execute
execute-Wrote change s = done-Wrote (send s.outcomes).0 (change s.db) s.db (send s.outcomes).1

-- The error of a write that fails.
abbrev pub FailsOnly : Result (Unit {0}) × Db → Type 0
FailsOnly (ok u, db) = Unit
FailsOnly (err e, db) = e ≡ db_failed

done-FailsOnly : (sent : Bool) (new : Option Db) (old : Db) → FailsOnly (done sent new old)
unfolding done
done-FailsOnly true none old = refl
done-FailsOnly true (some new) old = tt
done-FailsOnly false new old = refl

pub execute-FailsOnly :
    (change : Db → Option Db) (s : Store)
    → FailsOnly ((execute change s).0, (execute change s).1.db)
unfolding execute
execute-FailsOnly change s = done-FailsOnly (send s.outcomes).0 (change s.db) s.db

pub db-query : {A : Type 0} (f : Db → A) (s : Store) → (query f s).1.db ≡ s.db
unfolding query
db-query f s = refl

-- A SELECT that is answered, and one that fails.
pub query_cases :
    {A : Type 0} (f : Db → A) (s : Store) (P : Result A × Store → Type 0)
    → ((os : List Bool) → P (ok (f s.db), record s { outcomes = os }))
    → ((os : List Bool) → P (err db_failed, record s { outcomes = os }))
    → P (query f s)
unfolding query
query_cases f s P good bad = go (send s.outcomes).0
  where
    go :
        (b : Bool)
        → P (if b then ok (f s.db) else err db_failed, record s { outcomes = (send s.outcomes).1 })
    go true = good _
    go false = bad _

-- What a write that succeeds leaves; of one that fails it says nothing.
abbrev pub Leaves : Option Db → Result (Unit {0}) × Store → Type 0
Leaves new (ok u, s) = new ≡ some s.db
Leaves new (err e, s) = Unit

Leaves-of_Wrote :
    (new : Option Db) (old : Db) (p : Result (Unit {0}) × Store) → Wrote new old p → Leaves new p
Leaves-of_Wrote new old (ok u, s) h = h
Leaves-of_Wrote new old (err e, s) h = tt

execute-Leaves : (change : Db → Option Db) (s : Store) → Leaves (change s.db) (execute change s)
execute-Leaves change s = Leaves-of_Wrote _ s.db (execute change s) (execute-Wrote change s)

control-Leaves : (s : Store) → Leaves (some s.db) (control s)
unfolding control
control-Leaves s = execute-Leaves some s

Leaves-bind :
    (p : Result (Unit {0}) × Store) (k : Exec Store (Unit {0})) (mid new : Option Db)
    → Leaves mid p
    → ((s : Store) → mid ≡ some s.db → Leaves new (k s))
    → Leaves new (continue p.0 p.1 (λ _. k))
Leaves-bind (ok u, s) k mid new h next = next s h
Leaves-bind (err e, s) k mid new h next = tt

transaction-Wrote :
    (body : Exec Store (Unit {0})) (new : Option Db) (s : Store)
    → Leaves new (body s)
    → Wrote new s.db (transaction body s)
unfolding transaction
transaction-Wrote body new s h = go (body s) h
  where
    go : (p : Result (Unit {0}) × Store) → Leaves new p → Wrote new s.db (settle s.db p)
    go (ok u, s') h = h
    go (err e, s') h = refl

control_then-Leaves :
    (k : Exec Store (Unit {0})) (new : Db → Option Db)
    → ((s : Store) → Leaves (new s.db) (k s))
    → (s : Store) → Leaves (new s.db) ((control >> k) s)
control_then-Leaves k new h s =
    Leaves-bind (control s) k (some s.db) (new s.db) (control-Leaves s)
      (λ s' e. rw (some-injective _ _ e) (h s'))

module _ {R : Type 0} (step : R → Db → Option Db) where
  each-Leaves : (rs : List R) (s : Store) → Leaves (steps step rs s.db) (each step rs s)
  unfolding each steps
  each-Leaves [] s = refl
  each-Leaves (r ∷ rs) s =
      Leaves-bind (execute (step r) s) (each step rs) (step r s.db) _ (execute-Leaves (step r) s)
        (λ s' h. rw (h, steps) (each-Leaves rs s'))

  each_commit-Leaves :
      (rs : List R) (s : Store) → Leaves (steps step rs s.db) ((each step rs >> control) s)
  each_commit-Leaves rs s =
      Leaves-bind (each step rs s) control (steps step rs s.db) _ (each-Leaves rs s)
        (λ s' h. rw h (control-Leaves s'))

  write_rows-Leaves : (rs : List R) (s : Store) → Leaves (steps step rs s.db) (write_rows step rs s)
  unfolding write_rows
  write_rows-Leaves rs =
      control_then-Leaves (each step rs >> control) (steps step rs) (each_commit-Leaves rs)

  each-quiet :
      (rs : List R) (db new : Db)
      → steps step rs db ≡ some new
      → each step rs (quiet db) ≡ (ok tt, quiet new)
  unfolding each execute steps send done
  each-quiet [] db new h = ap (λ d. (ok tt, quiet d)) (some-injective db new h)
  each-quiet (r ∷ rs) db new h = elim (Option-cases (step r db)) [
    | inl e ↦ let bad : none ≡ some new = rw (e, steps) at h in cc
    | inr (mid, e) ↦ rw e (each-quiet rs mid new (rw (e, steps) at h))
  ]

  -- A bulk writer writes every row or none.
  pub bulk-Wrote : (rs : List R) (s : Store) → Wrote (steps step rs s.db) s.db (bulk step rs s)
  unfolding bulk
  bulk-Wrote rs s =
      transaction-Wrote (control >> write_rows step rs) (steps step rs s.db) s
        (control_then-Leaves (write_rows step rs) (steps step rs) (write_rows-Leaves rs) s)

  module _ (clear : Db → Db) where
    clear_then-Leaves :
        (rs : List R) (s : Store)
        → Leaves
            (steps step rs (clear s.db))
            ((execute (λ db. some (clear db)) >> write_rows step rs) s)
    clear_then-Leaves rs s =
        Leaves-bind (execute (λ db. some (clear db)) s) (write_rows step rs) (some (clear s.db))
          (steps step rs (clear s.db)) (execute-Leaves (λ db. some (clear db)) s)
          (λ s' e. rw (some-injective _ _ e) (write_rows-Leaves rs s'))

    -- A snapshot writer replaces every row, or changes none.
    pub snapshot-Wrote :
        (rs : List R) (s : Store)
        → Wrote (steps step rs (clear s.db)) s.db (snapshot clear step rs s)
    unfolding snapshot
    snapshot-Wrote rs s =
        transaction-Wrote (control >> (execute (λ db. some (clear db)) >> write_rows step rs))
          (steps step rs (clear s.db)) s
          (control_then-Leaves (execute (λ db. some (clear db)) >> write_rows step rs)
            (λ db. steps step rs (clear db)) (clear_then-Leaves rs) s)

    pub snapshot-quiet :
        (rs : List R) (db new : Db)
        → steps step rs (clear db) ≡ some new
        → snapshot clear step rs (quiet db) ≡ (ok tt, quiet new)
    unfolding snapshot control transaction write_rows execute send done settle
    snapshot-quiet rs db new h = rw (each-quiet rs (clear db) new h)

-- A row writer that leaves a part of the database.
pub steps-view :
    {R T : Type 0} (view : Db → T) (step : R → Db → Option Db)
    → ((r : R) (db new : Db) → step r db ≡ some new → view new ≡ view db)
    → (rs : List R) (db new : Db) → steps step rs db ≡ some new
    → view new ≡ view db
unfolding steps
steps-view view step keeps [] db new e = ap view (sym (some-injective _ _ e))
steps-view view step keeps (r ∷ rs) db new e = elim (Option-cases (step r db)) [
  | inl h ↦ let bad : none ≡ some new = rw (h, steps) at e in cc
  | inr (mid, h) ↦ steps-view view step keeps rs mid new (rw (h, steps) at e) ∙ keeps r db mid h
]

-- A snapshot writer that clears and fills other tables leaves a part of the database.
pub snapshot-Keeps :
    {R T : Type 0} (view : Db → T) (step : R → Db → Option Db) (clear : Db → Db)
    → ((r : R) (db new : Db) → step r db ≡ some new → view new ≡ view db)
    → ((db : Db) → view (clear db) ≡ view db)
    → (rs : List R) → Keeps (λ (s : Store). view s.db) (snapshot clear step rs)
snapshot-Keeps view step clear keeps cleared rs s =
    go (snapshot clear step rs s) (snapshot-Wrote step clear rs s)
  where
    go :
        (p : Result (Unit {0}) × Store)
        → Wrote (steps step rs (clear s.db)) s.db p
        → view p.1.db ≡ view s.db
    go (ok u, t) w = steps-view view step keeps rs (clear s.db) t.db w ∙ cleared s.db
    go (err e, t) w = ap view w
