-- ===== src/Indexer/Sources/Laws.antt =====
-- Which peer's answer is taken.
use zchf_grenadier.Prelude.{
  ℕ, ◌+◌, ◌≡◌, refl, ap, ◌∙◌, true, false, Option, List, [], ◌∷◌, ◌++◌, eqb, if◌then◌else◌, arith,
  All, Bool-cases, inl, inr,
}
use zchf_grenadier.Text.{Text}
use zchf_grenadier.Exec.{Result, ok, err, Error, no_peer, all_peers_failed}
use zchf_grenadier.Indexer.Sources.{
  Peer, PathSpec, peers, Attempt, skipped, failed, answered, try_peer, fetch_from, fetch_from_peers,
}

abbrev pub IsUnanswered : Attempt → Type 0
IsUnanswered skipped = Unit
IsUnanswered failed = Unit
IsUnanswered (answered body) = ⊥

-- How many of the peers are asked and fail.
abbrev pub failures : List Attempt → ℕ
failures [] = 0
failures (skipped ∷ rest) = failures rest
failures (failed ∷ rest) = failures rest + 1
failures (answered b ∷ rest) = failures rest

abbrev pub no_answer : ℕ → Error
no_answer n = if eqb n 0 then no_peer else all_peers_failed

no_answer_zero : (n : ℕ) → eqb n 0 ≡ true → no_peer ≡ no_answer n
no_answer_zero n e = rw e refl

no_answer_some : (n : ℕ) → eqb n 0 ≡ false → all_peers_failed ≡ no_answer n
no_answer_some n e = rw e refl

module _ (http_get : Text → Option Text) (spec : PathSpec) where
  abbrev pub attempts : List Peer → List Attempt
  attempts [] = []
  attempts (p ∷ ps) = try_peer http_get spec p ∷ attempts ps

  -- The answer of the first peer that gives one, or the error that says whether any was asked.
  abbrev pub IsFirstAnswer : ℕ → List Peer → Result (Text × Peer) → Type 0
  IsFirstAnswer tried ps (ok (body, p)) =
      (before after : List Peer) × (ps ≡ before ++ p ∷ after)
      × All IsUnanswered (attempts before)
      × (try_peer http_get spec p ≡ answered body)
  IsFirstAnswer tried ps (err e) =
      All IsUnanswered (attempts ps) × (e ≡ no_answer (tried + failures (attempts ps)))

  later :
      (tried more : ℕ) (p : Peer) (ps : List Peer) (a : Attempt) (r : Result (Text × Peer))
      → try_peer http_get spec p ≡ a
      → IsUnanswered a
      → tried + failures (a ∷ attempts ps) ≡ more + failures (attempts ps)
      → IsFirstAnswer more ps r
      → IsFirstAnswer tried (p ∷ ps) r
  later tried more p ps a (ok (body, q)) e u n (before, after, s, all, found) =
      (p ∷ before, after, ap (λ xs. p ∷ xs) s, (rw e u, all), found)
  later tried more p ps a (err x) e u n (all, what) = ((rw e u, all), what ∙ rw (e, n) refl)

  from_attempt :
      (tried : ℕ) (p : Peer) (ps : List Peer) (a : Attempt)
      → try_peer http_get spec p ≡ a
      → ((n : ℕ) → IsFirstAnswer n ps (fetch_from http_get spec n ps))
      → IsFirstAnswer tried (p ∷ ps) (fetch_from http_get spec tried (p ∷ ps))
  unfolding fetch_from
  from_attempt tried p ps skipped e rest =
      rw (e, fetch_from) (later tried tried p ps skipped _ e tt refl (rest tried))
  from_attempt tried p ps failed e rest =
      rw (e, fetch_from)
        (later tried (tried + 1) p ps failed _ e tt (omega arith) (rest (tried + 1)))
  from_attempt tried p ps (answered body) e rest = rw (e, fetch_from) ([], ps, refl, tt, e)

  no_answer-none : (tried : ℕ) → IsFirstAnswer tried [] (fetch_from http_get spec tried [])
  unfolding fetch_from
  no_answer-none tried = elim (Bool-cases (eqb tried 0)) [
    | inl e ↦ rw (e, fetch_from) (tt, no_answer_zero (tried + 0) (ground (arith, e)))
    | inr e ↦ rw (e, fetch_from) (tt, no_answer_some (tried + 0) (ground (arith, e)))
  ]

  fetch_from-IsFirstAnswer :
      (tried : ℕ) (ps : List Peer) → IsFirstAnswer tried ps (fetch_from http_get spec tried ps)
  fetch_from-IsFirstAnswer tried [] = no_answer-none tried
  fetch_from-IsFirstAnswer tried (p ∷ ps) =
      from_attempt tried p ps (try_peer http_get spec p) refl (λ n. fetch_from-IsFirstAnswer n ps)

  -- FetchFromPeers returns the answer of the first peer in the list that serves the endpoint and
  -- answers with a body that is empty or begins like JSON; every peer before it was skipped or
  -- failed. It returns an error only where every peer was skipped or failed, and the error says
  -- whether any of them was asked.
  pub fetch_from_peers-IsFirstAnswer : IsFirstAnswer 0 peers (fetch_from_peers http_get spec)
  unfolding fetch_from_peers
  fetch_from_peers-IsFirstAnswer = fetch_from-IsFirstAnswer 0 peers
