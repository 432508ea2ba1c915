-- ===== src/Indexer/Governance/Laws.antt =====
-- What a refresh of the governance tables leaves.
use zchf_grenadier.Prelude.{
  ℕ, ◌≡◌, refl, ap, sym, ◌∙◌, Option, none, some, List, [], ◌∷◌, ◌++◌, map, nat_eq, list_eq,
}
use mathlib.Core.Option.{some-injective}
use zchf_grenadier.Text.{Text, codes}
use zchf_grenadier.Exec.{Result, ok, err, Error, Exec, all_peers_failed, no_peer, ◌>>◌}
use zchf_grenadier.Exec.Keeps.{Keeps, Keeps-bind}
use zchf_grenadier.Table.{Table}
use zchf_grenadier.Store.Rows.{
  PositionRow, ChallengeRow, BidRow, MinterRow, LeadrateApproved, LeadrateProposed, FpsHolder,
  EquityDelegation, Minter,
}
use zchf_grenadier.Store.Handle.{Db, Store}
use zchf_grenadier.Store.Handle.Laws.{snapshot-Keeps}
use zchf_grenadier.Store.Governance.{
  with_minters, with_approved, with_proposed, with_holders, with_delegations, insert_minter,
  insert_approved, insert_proposed, insert_holder, insert_delegation, bulk_upsert_minters,
  bulk_upsert_approved, bulk_upsert_proposed, bulk_upsert_holders, bulk_upsert_delegations,
}
use zchf_grenadier.Indexer.Sources.{
  Peer, PeerKind, peer_grenadier, peer_official, peer_ponder, peers,
}
use zchf_grenadier.Indexer.Governance.{
  Upstream, approved_of, proposed_of, rows_of_chains, with_value, or_else, first_success,
  decode_answer,
}
use zchf_grenadier.Indexer.Governance.Fetch.{
  leadrate_source, holders_source, delegations_source, write_leadrate, leadrate_from_grenadier,
  write_proposals, write_rates, both_answers, leadrate_from_official, leadrate_job,
  holders_from_grenadier, holders_from_ponder, holders_job, delegations_from_grenadier,
  delegations_from_ponder, delegations_job, run_source,
}

-- The tables that the indexer writes.
abbrev pub indexer_tables :
    Db → (Table Text PositionRow × Table Text Text) × (Table Text ChallengeRow × Table Text BidRow)
indexer_tables db = ((db.positions, db.meta), (db.challenges, db.bids))

-- What the sources other than the applications leave.
abbrev others :
    Db
    → ((Table Text PositionRow × Table Text Text) × (Table Text ChallengeRow × Table Text BidRow))
      × Table (Text × Text) MinterRow
others db = (indexer_tables db, db.minters)

abbrev pub other_tables :
    Store
    → ((Table Text PositionRow × Table Text Text) × (Table Text ChallengeRow × Table Text BidRow))
      × Table (Text × Text) MinterRow
other_tables s = others s.db

-- The update of one table, where the row violates no constraint.
updated :
    {T V : Type 0} (view : Db → V) (put : Db → Option T → Option Db) (db new : Db) (o : Option T)
    → (put db none ≡ none)
    → ((t : T) (d : Db) → put db (some t) ≡ some d → view d ≡ view db)
    → put db o ≡ some new
    → view new ≡ view db
updated view put db new none gone kept e = let bad : none ≡ some new = sym gone ∙ e in cc
updated view put db new (some t) gone kept e = kept t new e

Keeps-bulk_upsert_approved :
    (items : List LeadrateApproved) → Keeps other_tables (bulk_upsert_approved items)
unfolding bulk_upsert_approved insert_approved with_approved
Keeps-bulk_upsert_approved =
    snapshot-Keeps others insert_approved (λ db. record db { leadrate_approved = [] })
      (λ r db new.
        updated others with_approved db new _ refl
          (λ t d e. ap others (sym (some-injective _ _ e))))
      (λ db. refl)

Keeps-bulk_upsert_proposed :
    (items : List LeadrateProposed) → Keeps other_tables (bulk_upsert_proposed items)
unfolding bulk_upsert_proposed insert_proposed with_proposed
Keeps-bulk_upsert_proposed =
    snapshot-Keeps others insert_proposed (λ db. record db { leadrate_proposed = [] })
      (λ r db new.
        updated others with_proposed db new _ refl
          (λ t d e. ap others (sym (some-injective _ _ e))))
      (λ db. refl)

Keeps-bulk_upsert_holders :
    (items : List FpsHolder) → Keeps other_tables (bulk_upsert_holders items)
unfolding bulk_upsert_holders insert_holder with_holders
Keeps-bulk_upsert_holders =
    snapshot-Keeps others insert_holder (λ db. record db { fps_holders = [] })
      (λ r db new.
        updated others with_holders db new _ refl (λ t d e. ap others (sym (some-injective _ _ e))))
      (λ db. refl)

Keeps-bulk_upsert_delegations :
    (items : List EquityDelegation) → Keeps other_tables (bulk_upsert_delegations items)
unfolding bulk_upsert_delegations insert_delegation with_delegations
Keeps-bulk_upsert_delegations =
    snapshot-Keeps others insert_delegation (λ db. record db { equity_delegations = [] })
      (λ r db new.
        updated others with_delegations db new _ refl
          (λ t d e. ap others (sym (some-injective _ _ e))))
      (λ db. refl)

pub Keeps-bulk_upsert_minters :
    (items : List Minter) → Keeps (λ s. indexer_tables s.db) (bulk_upsert_minters items)
unfolding bulk_upsert_minters insert_minter with_minters
Keeps-bulk_upsert_minters =
    snapshot-Keeps indexer_tables insert_minter (λ db. record db { minters = [] })
      (λ r db new.
        updated indexer_tables with_minters db new _ refl
          (λ t d e. ap indexer_tables (sym (some-injective _ _ e))))
      (λ db. refl)

Keeps-with_value :
    {A T : Type 0} (view : Store → T) (r : Result A) (write : A → Exec Store (Unit {0}))
    → ((a : A) → Keeps view (write a))
    → Keeps view (with_value r write)
unfolding with_value
Keeps-with_value view (ok a) write h = h a
Keeps-with_value view (err e) write h = λ s. refl

abbrev JobKeeps : {T : Type 0} → (Store → T) → Option (Exec Store (Unit {0})) → Type 0
JobKeeps view none = Unit
JobKeeps view (some fetch) = Keeps view fetch

Keeps-or_else :
    {T : Type 0} (view : Store → T) (p : Result (Unit {0}) × Store) (next : Exec Store (Unit {0}))
    → Keeps view next
    → view (or_else p next).1 ≡ view p.1
unfolding or_else
Keeps-or_else view (ok u, s) next h = refl
Keeps-or_else view (err e, s) next h = h s

Keeps-first_job :
    {T : Type 0} (view : Store → T) (job : Peer → Option (Exec Store (Unit {0}))) (last : Error)
    (p : Peer) (ps : List Peer) (o : Option (Exec Store (Unit {0})))
    → job p ≡ o
    → JobKeeps view o
    → ((e : Error) → Keeps view (first_success job e ps))
    → Keeps view (first_success job last (p ∷ ps))
unfolding first_success
Keeps-first_job view job last p ps none e h rest s = rw (e, first_success) (rest last s)
Keeps-first_job view job last p ps (some fetch) e h rest s =
    rw (e, first_success)
      (Keeps-or_else view (fetch s) (first_success job all_peers_failed ps) (rest all_peers_failed)
        ∙ h s)

Keeps-first_success :
    {T : Type 0} (view : Store → T) (job : Peer → Option (Exec Store (Unit {0})))
    → ((p : Peer) → JobKeeps view (job p))
    → (last : Error) (ps : List Peer) → Keeps view (first_success job last ps)
Keeps-first_success view job h last [] = λ s. unfold first_success in refl
Keeps-first_success view job h last (p ∷ ps) =
    Keeps-first_job view job last p ps (job p) refl (h p) (λ e. Keeps-first_success view job h e ps)

module _ (up : Upstream) where
  Keeps-write_proposals : (body : Text) → Keeps other_tables (write_proposals up body)
  unfolding write_proposals
  Keeps-write_proposals body =
      Keeps-with_value other_tables (decode_answer up.by_chain (some body))
        (λ list. bulk_upsert_proposed (map proposed_of (rows_of_chains list)))
        (λ list. Keeps-bulk_upsert_proposed (map proposed_of (rows_of_chains list)))

  Keeps-write_rates : (rates proposals : Text) → Keeps other_tables (write_rates up rates proposals)
  unfolding write_rates
  Keeps-write_rates rates proposals =
      Keeps-with_value other_tables (decode_answer up.by_chain (some rates))
        (λ list.
          bulk_upsert_approved (map approved_of (rows_of_chains list))
          >> write_proposals up proposals)
        (λ list.
          Keeps-bind other_tables (bulk_upsert_approved (map approved_of (rows_of_chains list)))
            (λ u. write_proposals up proposals)
            (Keeps-bulk_upsert_approved (map approved_of (rows_of_chains list)))
            (λ u. Keeps-write_proposals proposals))

  Keeps-both_answers :
      (rates proposals : Option Text) → Keeps other_tables (both_answers up rates proposals)
  unfolding both_answers
  Keeps-both_answers none proposals = λ s. refl
  Keeps-both_answers (some rates) none = λ s. refl
  Keeps-both_answers (some rates) (some proposals) = Keeps-write_rates rates proposals

  Keeps-leadrate_job :
      (kind : PeerKind) (base : Text) → JobKeeps other_tables (leadrate_job up kind base)
  unfolding leadrate_job leadrate_from_grenadier leadrate_from_official write_leadrate
  Keeps-leadrate_job peer_grenadier base =
      Keeps-with_value other_tables _ (write_leadrate up) (λ rates.
        Keeps-bind other_tables (bulk_upsert_approved rates.0) (λ u. bulk_upsert_proposed rates.1)
          (Keeps-bulk_upsert_approved rates.0) (λ u. Keeps-bulk_upsert_proposed rates.1))
  Keeps-leadrate_job peer_official base =
      Keeps-both_answers (up.http_get (base ++ codes "/savings/leadrate/rates"))
        (up.http_get (base ++ codes "/savings/leadrate/proposals"))
  Keeps-leadrate_job peer_ponder base = tt

  Keeps-holders_job :
      (kind : PeerKind) (base : Text) → JobKeeps other_tables (holders_job up kind base)
  unfolding holders_job holders_from_grenadier holders_from_ponder
  Keeps-holders_job peer_grenadier base =
      Keeps-with_value other_tables _ bulk_upsert_holders Keeps-bulk_upsert_holders
  Keeps-holders_job peer_official base = tt
  Keeps-holders_job peer_ponder base =
      Keeps-with_value other_tables _ _ (λ page. Keeps-bulk_upsert_holders _)

  Keeps-delegations_job :
      (pages : ℕ) (kind : PeerKind) (base : Text)
      → JobKeeps other_tables (delegations_job up pages kind base)
  unfolding delegations_job delegations_from_grenadier delegations_from_ponder
  Keeps-delegations_job pages peer_grenadier base =
      Keeps-with_value other_tables _ bulk_upsert_delegations Keeps-bulk_upsert_delegations
  Keeps-delegations_job pages peer_official base = tt
  Keeps-delegations_job pages peer_ponder base =
      Keeps-with_value other_tables _ bulk_upsert_delegations Keeps-bulk_upsert_delegations

  pub Keeps-run_leadrate : (pages : ℕ) → Keeps other_tables (run_source up pages leadrate_source)
  unfolding run_source
  Keeps-run_leadrate pages =
      Keeps-first_success other_tables (λ p. leadrate_job up p.kind p.base)
        (λ p. Keeps-leadrate_job p.kind p.base) no_peer peers

  pub Keeps-run_holders : (pages : ℕ) → Keeps other_tables (run_source up pages holders_source)
  unfolding run_source
  Keeps-run_holders pages =
      Keeps-first_success other_tables (λ p. holders_job up p.kind p.base)
        (λ p. Keeps-holders_job p.kind p.base) no_peer peers

  pub Keeps-run_delegations :
      (pages : ℕ) → Keeps other_tables (run_source up pages delegations_source)
  unfolding run_source
  Keeps-run_delegations pages =
      Keeps-first_success other_tables (λ p. delegations_job up pages p.kind p.base)
        (λ p. Keeps-delegations_job pages p.kind p.base) no_peer peers
