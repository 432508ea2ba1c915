-- ===== src/Exec/Keeps.antt =====
-- Programs that leave a part of the state as it was, whether they return or fail.
use zchf_grenadier.Prelude.{◌≡◌, ◌∙◌}
use zchf_grenadier.Exec.{Result, ok, err, Exec, continue, ◌>>=◌}

abbrev pub Keeps : {S T A : Type 0} → (S → T) → Exec S A → Type 0
Keeps view m = (s : _) → view (m s).1 ≡ view s

pub Keeps-bind :
    {S T A B : Type 0} (view : S → T) (m : Exec S A) (k : A → Exec S B)
    → Keeps view m
    → ((a : A) → Keeps view (k a))
    → Keeps view (m >>= k)
Keeps-bind view m k hm hk s = go (m s) (hm s)
  where
    go : (p : Result _ × _) → view p.1 ≡ view s → view (continue p.0 p.1 k).1 ≡ view s
    go (ok a, t) h = hk a t ∙ h
    go (err e, t) h = h

-- Programs that preserve a predicate on the state, whether they return or fail.
abbrev pub Preserves : {S A : Type 0} → (S → Type 0) → Exec S A → Type 0
Preserves I m = (s : _) → I s → I (m s).1

pub Preserves-bind :
    {S A B : Type 0} (I : S → Type 0) (m : Exec S A) (k : A → Exec S B)
    → Preserves I m
    → ((a : A) → Preserves I (k a))
    → Preserves I (m >>= k)
Preserves-bind I m k hm hk s i = go (m s) (hm s i)
  where
    go : (p : Result _ × _) → I p.1 → I (continue p.0 p.1 k).1
    go (ok a, t) h = hk a t h
    go (err e, t) h = h
