-- ===== src/Xds/StreamTests.antt =====
-- The theorems of the cache and its streams at concrete teams.
use flowplane.Base.{
  ℕ, ◌≡◌, ◌⊎◌, refl, true, map, List, [], ◌∷◌, Option, none, some, Text, chars, All, length, lookup,
  insert, List-Eq, ℕ-Eq, arith,
}
use flowplane.Xds.Quarantine.{
  install_raw, install_raw_with_failures, rotate_raw, prune, recompute_served, serve_one,
  filter_map,
}
use flowplane.Xds.Rollback.{single}
use flowplane.Xds.Team.{
  ResourceType, cluster, listener, type_url, type_order, of_url, SnapshotCache, Translated, new,
  team_set, of_type, or_default, notify, install_team, rebuild,
}
use flowplane.Xds.Install.{translated, rebuild-IsInstalled}
use flowplane.Xds.Ads.{DiscoveryRequest, Resolved, refused, unauthenticated, AdsStream, sort}
use flowplane.Xds.Handlers.{on_request, on_change}
use flowplane.Xds.Push.{urls, stale_urls, is_stale, on_change-urls}
use flowplane.Xds.Signal.{on_change-missed}
use flowplane.Xds.Reply.{IsCurrent, ack_of, on_request-IsCurrent, on_request-ack}

no_secrets : List ℕ → Option Text
no_secrets bytes = none

nobody : Text → Resolved
nobody node_id = refused unauthenticated

abbrev rows : Translated
rows = record {
  cluster_named = single (chars "backend") (type_url cluster) (1 ∷ []);
  cluster_failures = [];
  endpoint_named = [];
  route_named = [];
  route_failures = [];
  listener_named = single (chars "edge") (type_url listener) (2 ∷ []);
  listener_failures = [];
  secret_named = [];
  secret_failures = [];
}

abbrev cache_of : SnapshotCache
cache_of = rebuild new 10 rows

abbrev stream_of : AdsStream
stream_of = record {
  team = some 10;
  node_label = chars "node";
  certificate_id = none;
  states =
      (
        listener,
        record { subscribed = true; sent_version = none; last_nonce = []; resource_names = [] },
      )
      ∷ [];
  nonce_seq = 0;
}

abbrev clusters_please : DiscoveryRequest
clusters_please = record {
  node_id = chars "node";
  type_url = type_url cluster;
  resource_names = [];
  response_nonce = [];
  version_info = [];
  error_detail = none;
}

on_change-urls_example :
    urls (on_change no_secrets cache_of stream_of).1 ≡ stale_urls cache_of 10 type_order stream_of
unfolding rebuild install_team install_raw install_raw_with_failures rotate_raw prune
    recompute_served serve_one notify lookup
on_change-urls_example = on_change-urls no_secrets cache_of 10 stream_of refl refl

rebuild-IsInstalled_example :
    (team_set (rebuild cache_of 20 rows) 10 listener ≡ team_set cache_of 10 listener)
    × ((team_set (rebuild cache_of 20 rows) 20 listener).resources
        ≡ map
            (λ r. r.any)
            (filter_map
              (serve_one (of_type listener (or_default (lookup 20 cache_of.snapshots))).quarantine)
              (translated listener rows)))
    × ((team_set (rebuild cache_of 20 rows) 20 listener ≡ team_set cache_of 20 listener)
        ⊎ ((rebuild cache_of 20 rows).change_tx.1 ≡ some 20))
unfolding rebuild install_team install_raw install_raw_with_failures rotate_raw prune
    recompute_served serve_one notify lookup insert
rebuild-IsInstalled_example =
    rebuild-IsInstalled cache_of 20 10 rows listener (λ e. omega (arith, e)) tt

on_change-missed_example :
    (on_change no_secrets (rebuild cache_of 20 rows) stream_of ≡ (stream_of, []))
    × ((t : ResourceType)
        → is_stale (rebuild cache_of 20 rows) 10 stream_of t ≡ is_stale cache_of 10 stream_of t)
unfolding rebuild install_team install_raw install_raw_with_failures rotate_raw prune
    recompute_served serve_one notify lookup insert
on_change-missed_example =
    on_change-missed no_secrets new 10 20 rows rows stream_of (λ e. omega (arith, e)) refl refl

on_request-IsCurrent_example :
    All
      (IsCurrent no_secrets cache_of 10)
      (on_request no_secrets nobody true cache_of stream_of clusters_please).effects
on_request-IsCurrent_example =
    on_request-IsCurrent no_secrets nobody true cache_of 10 stream_of clusters_please refl

on_request-ack_example :
    let turn = on_request no_secrets nobody true cache_of stream_of clusters_please in
    (length turn.effects ≡ 1)
    × ((on_request no_secrets nobody true cache_of turn.stream
          (ack_of turn.effects clusters_please)).effects
        ≡ [])
    × ((on_request no_secrets nobody true cache_of turn.stream
          (ack_of turn.effects clusters_please)).cache
        ≡ cache_of)
unfolding of_url sort lookup
on_request-ack_example =
    on_request-ack no_secrets nobody true cache_of 10 cluster stream_of clusters_please refl refl
      refl
