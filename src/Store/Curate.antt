-- ===== src/Store/Curate.antt =====
-- store/curate.go: which positions are shown for cloning, for challenging and for monitoring.
pub mod Best
use zchf_grenadier.Prelude.{
  ℕ, Bool, true, false, not, ◌&&◌, ◌||◌, Option, none, some, List, [], ◌∷◌, map, nat_eq, list_eq,
  if◌then◌else◌, keep, ◌==◌,
}
use zchf_grenadier.Prelude.Int.{ℤ, pos, negsuc, ◌-ℤ◌, ◌+ℤ◌, ltb_ℤ, int_eq}
use zchf_grenadier.Text.{Text, codes, lower}
use zchf_grenadier.Text.Decimal.{parse_int, print_int}
use zchf_grenadier.Exec.{Result, ok, err, Exec, pure, ◌>>=◌}
use zchf_grenadier.Table.{Table, find, upsert, rows}
use zchf_grenadier.Store.Rows.{Position, Challenge}
use zchf_grenadier.Store.Handle.{Store}
use zchf_grenadier.Store.Positions.{all_live}
use zchf_grenadier.Store.Challenges.{active_challenges}

is_positive : Option ℤ → Bool
is_positive none = false
is_positive (some z) = ltb_ℤ (pos 0) z

-- isLive
unfoldable pub is_live : Position → ℤ → Bool
is_live p now =
    if p.closed || p.denied
    then false
    else if ltb_ℤ (pos 0) p.expiration && not (ltb_ℤ now p.expiration)
    then false
    else not (ltb_ℤ (pos 0) p.cooldown && ltb_ℤ now p.cooldown)

-- isCuratable
unfoldable pub is_curatable : Position → ℤ → Bool
unfolding is_positive parse_int
is_curatable p now =
    if p.closed || p.denied
    then false
    else if ltb_ℤ (pos 0) p.expiration && not (ltb_ℤ now p.expiration)
    then false
    else if ltb_ℤ (pos 0) p.cooldown && ltb_ℤ now p.cooldown
    then false
    else is_positive (parse_int p.available_for_clones)

-- isMonitorable
unfoldable pub is_monitorable : Position → Bool
unfolding is_positive parse_int
is_monitorable p =
    if p.closed || p.denied then false else is_positive (parse_int p.collateral_balance)

-- effectiveInterestPPM is a float64 of the reserve contribution and the annual interest; `effective`
-- is the place of that number among the floats.
module _ (effective : ℤ → ℤ → ℤ) where
  abbrev pub rank : Position → ℤ
  rank p = effective p.reserve_contribution p.annual_interest_ppm

  -- betterThan
  unfoldable pub better_than : Position → Position → Bool
  better_than a b =
      if not (rank a == rank b) then ltb_ℤ (rank a) (rank b) else ltb_ℤ b.expiration a.expiration

  -- cur, ok := best[key]; if !ok || betterThan(p, cur)
  unfoldable pub replaces : Position → Option Position → Bool
  unfolding better_than
  replaces p none = true
  replaces p (some cur) = better_than p cur

  -- One round of the loop of Curated.
  unfoldable pub consider : ℤ → Position → Table Text Position → Table Text Position
  unfolding is_curatable replaces find upsert lower
  consider now p best =
      if not (is_curatable p now)
      then best
      else if replaces p (find (lower p.collateral) best)
      then upsert (lower p.collateral) p best
      else best

  unfoldable pub best_of : ℤ → List Position → Table Text Position → Table Text Position
  unfolding consider
  best_of now [] best = best
  best_of now (p ∷ ps) best = best_of now ps (consider now p best)

  -- Curated
  unfoldable pub curated : ℤ → Exec Store (List Position)
  unfolding best_of rows all_live
  curated now = do all ← all_live; pure (rows (best_of now all []))

-- The remaining size of an open challenge; a text that is no number counts for nothing.
unfoldable pub remaining : Challenge → Option ℤ
unfolding parse_int
remaining c =
    let filled : ℤ = elim (parse_int c.filled_size) [ none ↦ pos 0 | some z ↦ z ] in
    elim (parse_int c.size) [ none ↦ none | some size ↦ some (size -ℤ filled) ]

-- One round of the loop over the active challenges.
add_remaining : Text → Option ℤ → Table Text ℤ → Table Text ℤ
unfolding find upsert
add_remaining key none t = t
add_remaining key (some r) t =
    let cur : ℤ = elim (find key t) [ none ↦ pos 0 | some z ↦ z ] in
    if ltb_ℤ (pos 0) r then upsert key (cur +ℤ r) t else t

-- remainingByPos
unfoldable pub remaining_by_position : List Challenge → Table Text ℤ → Table Text ℤ
unfolding remaining add_remaining lower
remaining_by_position [] t = t
remaining_by_position (c ∷ cs) t =
    remaining_by_position cs (add_remaining (lower c.position) (remaining c) t)

pub record MonitoredPosition : Type 0 where
  pub position : Position
  pub challenged_collateral : Text

monitored_position : Table Text ℤ → Position → MonitoredPosition
unfolding find lower print_int
monitored_position t p = record {
  position = p;
  challenged_collateral = elim (find (lower p.position) t) [
    | none ↦ codes "0"
    | some r ↦ print_int r
  ];
}

-- The list of active challenges, or none on an error.
or_empty : Result (List Challenge) × Store → Result (List Challenge) × Store
or_empty (ok cs, s) = (ok cs, s)
or_empty (err e, s) = (ok [], s)

-- Monitored
unfoldable pub monitored : Exec Store (List MonitoredPosition)
unfolding all_live active_challenges or_empty remaining_by_position monitored_position
    is_monitorable
monitored = do
  all ← all_live
  active ← λ s. or_empty (active_challenges s)
  pure (map (monitored_position (remaining_by_position active [])) (keep is_monitorable all))
