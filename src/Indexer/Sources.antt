-- ===== src/Indexer/Sources.antt =====
-- indexer/sources.go: the peers that a bootstrap asks, one after the other.
pub mod Laws
use zchf_grenadier.Prelude.{
  ℕ, ◌+◌, Bool, true, false, ◌||◌, Option, none, some, List, [], ◌∷◌, ◌++◌, nat_eq, list_eq, ◌==◌,
  eqb, if◌then◌else◌,
}
use zchf_grenadier.Text.{Text, codes}
use zchf_grenadier.Exec.{Result, ok, err, no_peer, all_peers_failed, bad_data}

pub data PeerKind : Type 0 where
  peer_grenadier peer_official peer_ponder : PeerKind

pub record Peer : Type 0 where
  pub name : Text
  pub base : Text
  pub kind : PeerKind

abbrev pub peers : List Peer
peers =
    record {
      name = codes "grenadier.frankencoin.win";
      base = codes "https://grenadier.frankencoin.win";
      kind = peer_grenadier;
    }
    ∷ record {
      name = codes "api.frankencoin.com";
      base = codes "https://api.frankencoin.com";
      kind = peer_official;
    }
    ∷ record {
      name = codes "ponder.frankencoin.com";
      base = codes "https://ponder.frankencoin.com";
      kind = peer_ponder;
    }
    ∷ []

-- An empty path says that the kind of peer does not serve the endpoint.
pub record PathSpec : Type 0 where
  pub grenadier : Text
  pub official : Text

abbrev pub endpoint_positions : PathSpec
endpoint_positions = record { grenadier = codes "/positions"; official = codes "/positions/list" }

abbrev pub endpoint_challenges : PathSpec
endpoint_challenges = record {
  grenadier = codes "/challenges";
  official = codes "/challenges/list";
}

abbrev pub endpoint_minters : PathSpec
endpoint_minters = record {
  grenadier = codes "/governance/minters";
  official = codes "/ecosystem/minter/list";
}

abbrev pub endpoint_bids : PathSpec
endpoint_bids = record { grenadier = []; official = codes "/challenges/bids/list" }

-- pathFor
unfoldable pub path_for : PeerKind → PathSpec → Text
path_for peer_official spec = spec.official
path_for peer_grenadier spec = spec.grenadier
path_for peer_ponder spec = spec.grenadier

-- How one round of the loop ends.
pub data Attempt : Type 0 where
  skipped failed : Attempt
  answered : Text → Attempt

-- The answer must begin like JSON; an empty one passes.
unfoldable pub shaped : Option Text → Attempt
shaped none = failed
shaped (some []) = answered []
shaped (some (c ∷ body)) = if eqb c b'{' || eqb c b'[' then answered (c ∷ body) else failed

-- httpGetWithTimeout is the parameter: the body of a 200 answer, or `none`.
module _ (http_get : Text → Option Text) where
  -- Once the path is known.
  unfoldable pub ask : Text → Text → Attempt
  unfolding shaped
  ask base [] = skipped
  ask base (c ∷ path) = shaped (http_get (base ++ c ∷ path))

  -- One round of the loop of FetchFromPeers.
  unfoldable pub try_kind : PeerKind → Text → PathSpec → Attempt
  unfolding ask path_for
  try_kind peer_ponder base spec = skipped
  try_kind peer_grenadier base spec = ask base (path_for peer_grenadier spec)
  try_kind peer_official base spec = ask base (path_for peer_official spec)

  unfoldable pub try_peer : PathSpec → Peer → Attempt
  unfolding try_kind
  try_peer spec p = try_kind p.kind p.base spec

  -- The loop, after `tried` peers were asked.
  unfoldable pub fetch_from : PathSpec → ℕ → List Peer → Result (Text × Peer)
  unfolding try_peer
  fetch_from spec tried [] = if eqb tried 0 then err no_peer else err all_peers_failed
  fetch_from spec tried (p ∷ ps) = elim (try_peer spec p) [
    | skipped ↦ fetch_from spec tried ps
    | failed ↦ fetch_from spec (tried + 1) ps
    | answered body ↦ ok (body, p)
  ]

  -- FetchFromPeers
  unfoldable pub fetch_from_peers : PathSpec → Result (Text × Peer)
  unfolding fetch_from
  fetch_from_peers spec = fetch_from spec 0 peers

  unfoldable decoded : {A : Type 0} → (Text → Option A) → Result (Text × Peer) → Result A
  decoded decode (err e) = err e
  decoded decode (ok (body, p)) = elim (decode body) [ none ↦ err bad_data | some a ↦ ok a ]

  -- FetchAndDecodeFromPeers
  unfoldable pub fetch_and_decode : {A : Type 0} → (Text → Option A) → PathSpec → Result A
  unfolding decoded fetch_from_peers
  fetch_and_decode decode spec = decoded decode (fetch_from_peers spec)
