-- ===== src/Indexer/Refresh/Touched.antt =====
-- The touched positions are those of the logs, each with its last block.
use Prim.Native.Nat.{max}
use zchf_grenadier.Prelude.{
  ℕ, ◌≤◌, ◌<◌, ◌≡◌, refl, ap, ◌∙◌, Bool, true, false, not, ◌&&◌, Option, some, List, [], ◌∷◌,
  nat_eq, list_eq, if◌then◌else◌, ltb, ◌==◌, ==_iff, arith, Bool-cases, inl, inr,
}
use zchf_grenadier.Text.{Text}
use zchf_grenadier.Table.{Table, find, upsert, HasUniqueKeys}
use zchf_grenadier.Table.Laws.{find-upsert, upsert-HasUniqueKeys}
use zchf_grenadier.Chain.Log.{Log, block_num}
use zchf_grenadier.Indexer.Refresh.{target, is_passed_over, or_unset, touched_at, touch, touched}

-- The log names the position.
abbrev pub names : Text → Log → Bool
names a log = not (is_passed_over log) && target log == a

-- The last block in which a log names the position, 0 for none.
abbrev pub last_named : Text → List Log → ℕ
last_named a [] = 0
last_named a (l ∷ ls) = max (if names a l then block_num l else 0) (last_named a ls)

or_unset-if :
    (b : Bool) (n : ℕ) (o : Option ℕ)
    → or_unset (if b then some n else o) ≡ (if b then n else or_unset o)
unfolding or_unset
or_unset-if true n o = refl
or_unset-if false n o = refl

touched_at-upsert :
    (a k : Text) (n : ℕ) (t : Table Text ℕ)
    → touched_at a (upsert k n t) ≡ (if k == a then n else touched_at a t)
unfolding touched_at
touched_at-upsert a k n t = ap or_unset (find-upsert k a n t) ∙ or_unset-if (k == a) n (find a t)

touched_at-touch :
    (a : Text) (l : Log) (t : Table Text ℕ)
    → touched_at a (touch l t) ≡ max (touched_at a t) (if names a l then block_num l else 0)
unfolding touch
touched_at-touch a l t = elim (Bool-cases (is_passed_over l)) [
  | inl over ↦ rw over (omega arith)
  | inr on ↦ elim (Bool-cases (ltb (touched_at (target l) t) (block_num l))) [
    | inl newer ↦
        rw (on, newer, touched_at-upsert a (target l) (block_num l) t)
          (elim (Bool-cases (target l == a)) [
            | inr other ↦ rw other (omega arith)
            | inl same ↦
                let e : target l ≡ a = (==_iff (target l) a).0 same in
                let lt : touched_at a t < block_num l = ground (arith, rw e at newer) in
                rw same (omega (arith, lt))
          ])
    | inr older ↦
        rw (on, older)
          (elim (Bool-cases (target l == a)) [
            | inr other ↦ rw other (omega arith)
            | inl same ↦
                let e : target l ≡ a = (==_iff (target l) a).0 same in
                let le : block_num l ≤ touched_at a t = ground (arith, rw e at older) in
                rw same (omega (arith, le))
          ])
  ]
]

touched_at-touched :
    (a : Text) (ls : List Log) (t : Table Text ℕ)
    → touched_at a (touched ls t) ≡ max (touched_at a t) (last_named a ls)
unfolding touched
touched_at-touched a [] t = omega arith
touched_at-touched a (l ∷ ls) t =
    touched_at-touched a ls (touch l t) ∙ rw (touched_at-touch a l t) (omega arith)

touch-HasUniqueKeys : (l : Log) (t : Table Text ℕ) → HasUniqueKeys t → HasUniqueKeys (touch l t)
unfolding touch
touch-HasUniqueKeys l t h = elim (Bool-cases (is_passed_over l)) [
  | inl over ↦ rw over h
  | inr on ↦ elim (Bool-cases (ltb (touched_at (target l) t) (block_num l))) [
    | inl newer ↦ rw (on, newer) (upsert-HasUniqueKeys (target l) (block_num l) t h)
    | inr older ↦ rw (on, older) h
  ]
]

touched-HasUniqueKeys :
    (ls : List Log) (t : Table Text ℕ) → HasUniqueKeys t → HasUniqueKeys (touched ls t)
unfolding touched
touched-HasUniqueKeys [] t h = h
touched-HasUniqueKeys (l ∷ ls) t h =
    touched-HasUniqueKeys ls (touch l t) (touch-HasUniqueKeys l t h)

-- The table of touched positions of Refresh holds each position once, with the last block in which
-- one of the logs names it, and reads as 0 for a position that no log names.
pub touched-last_named :
    (logs : List Log)
    → HasUniqueKeys (touched logs [])
      × ((a : Text) → touched_at a (touched logs []) ≡ last_named a logs)
unfolding touched_at find or_unset
touched-last_named logs =
    (touched-HasUniqueKeys logs [] tt, λ a. touched_at-touched a logs [] ∙ omega arith)
