-- ===== src/Dht/Settings.antt =====
-- src/dht/dht_settings.rs: `DHTSettings`, its defaults, and `DHTSettingsBuilder`.
use Prim.Native.String.{String}
use rustydht_lib.Prelude.{ℕ, ◌*◌, Bool, false, List, [], ◌∷◌}
use rustydht_lib.Common.Int.{ℤ, pos}

pub record DhtSettings : Type 0 where
  pub token_secret_size : ℕ
  pub max_peers_response : ℕ
  pub max_sample_response : ℕ
  pub min_sample_interval_secs : ℤ
  pub router_ping_interval_secs : ℕ
  pub reverify_interval_secs : ℕ
  pub reverify_grace_period_secs : ℕ
  pub verify_grace_period_secs : ℕ
  pub get_peers_freshness_secs : ℕ
  pub find_nodes_interval_secs : ℕ
  pub find_nodes_skip_count : ℕ
  pub max_torrents : ℕ
  pub max_peers_per_torrent : ℕ
  pub ping_check_interval_secs : ℕ
  pub outgoing_request_prune_secs : ℕ
  pub outgoing_reqiest_check_interval_secs : ℕ
  pub read_only : Bool
  pub routers : List String
  pub throttle_packet_count : ℕ
  pub throttle_period_secs : ℕ
  pub throttle_naughty_timeout_secs : ℕ
  pub throttle_max_tracking_secs : ℕ

unfoldable pub default : DhtSettings
default = record {
  token_secret_size = 10;
  max_peers_response = 128;
  max_sample_response = 50;
  min_sample_interval_secs = pos 10;
  router_ping_interval_secs = 900;
  reverify_interval_secs = 14 * 60;
  reverify_grace_period_secs = 15 * 60;
  verify_grace_period_secs = 60;
  get_peers_freshness_secs = 15 * 60;
  find_nodes_interval_secs = 33;
  find_nodes_skip_count = 32;
  max_torrents = 50;
  max_peers_per_torrent = 100;
  ping_check_interval_secs = 10;
  outgoing_request_prune_secs = 30;
  outgoing_reqiest_check_interval_secs = 30;
  read_only = false;
  routers =
      "router.bittorrent.com:6881" ∷ "router.utorrent.com:6881" ∷ "dht.transmissionbt.com:6881"
      ∷ [];
  throttle_packet_count = 10;
  throttle_period_secs = 6;
  throttle_naughty_timeout_secs = 60;
  throttle_max_tracking_secs = 86400;
}

pub record DhtSettingsBuilder : Type 0 where
  pub settings : DhtSettings

unfoldable pub new : DhtSettingsBuilder
unfolding default
new = record { settings = default }

-- `make_builder_method!`
abbrev on : DhtSettingsBuilder → (DhtSettings → DhtSettings) → DhtSettingsBuilder
on b f = record b { settings = f b.settings }

unfoldable pub token_secret_size : DhtSettingsBuilder → ℕ → DhtSettingsBuilder
token_secret_size b v = on b (λ s. record s { token_secret_size = v })

unfoldable pub max_peers_response : DhtSettingsBuilder → ℕ → DhtSettingsBuilder
max_peers_response b v = on b (λ s. record s { max_peers_response = v })

unfoldable pub max_sample_response : DhtSettingsBuilder → ℕ → DhtSettingsBuilder
max_sample_response b v = on b (λ s. record s { max_sample_response = v })

unfoldable pub min_sample_interval_secs : DhtSettingsBuilder → ℤ → DhtSettingsBuilder
min_sample_interval_secs b v = on b (λ s. record s { min_sample_interval_secs = v })

unfoldable pub router_ping_interval_secs : DhtSettingsBuilder → ℕ → DhtSettingsBuilder
router_ping_interval_secs b v = on b (λ s. record s { router_ping_interval_secs = v })

unfoldable pub reverify_interval_secs : DhtSettingsBuilder → ℕ → DhtSettingsBuilder
reverify_interval_secs b v = on b (λ s. record s { reverify_interval_secs = v })

unfoldable pub reverify_grace_period_secs : DhtSettingsBuilder → ℕ → DhtSettingsBuilder
reverify_grace_period_secs b v = on b (λ s. record s { reverify_grace_period_secs = v })

unfoldable pub verify_grace_period_secs : DhtSettingsBuilder → ℕ → DhtSettingsBuilder
verify_grace_period_secs b v = on b (λ s. record s { verify_grace_period_secs = v })

unfoldable pub get_peers_freshness_secs : DhtSettingsBuilder → ℕ → DhtSettingsBuilder
get_peers_freshness_secs b v = on b (λ s. record s { get_peers_freshness_secs = v })

unfoldable pub find_nodes_interval_secs : DhtSettingsBuilder → ℕ → DhtSettingsBuilder
find_nodes_interval_secs b v = on b (λ s. record s { find_nodes_interval_secs = v })

unfoldable pub find_nodes_skip_count : DhtSettingsBuilder → ℕ → DhtSettingsBuilder
find_nodes_skip_count b v = on b (λ s. record s { find_nodes_skip_count = v })

unfoldable pub max_torrents : DhtSettingsBuilder → ℕ → DhtSettingsBuilder
max_torrents b v = on b (λ s. record s { max_torrents = v })

unfoldable pub max_peers_per_torrent : DhtSettingsBuilder → ℕ → DhtSettingsBuilder
max_peers_per_torrent b v = on b (λ s. record s { max_peers_per_torrent = v })

unfoldable pub ping_check_interval_secs : DhtSettingsBuilder → ℕ → DhtSettingsBuilder
ping_check_interval_secs b v = on b (λ s. record s { ping_check_interval_secs = v })

unfoldable pub outgoing_request_prune_secs : DhtSettingsBuilder → ℕ → DhtSettingsBuilder
outgoing_request_prune_secs b v = on b (λ s. record s { outgoing_request_prune_secs = v })

unfoldable pub outgoing_reqiest_check_interval_secs : DhtSettingsBuilder → ℕ → DhtSettingsBuilder
outgoing_reqiest_check_interval_secs b v =
    on b (λ s. record s { outgoing_reqiest_check_interval_secs = v })

unfoldable pub read_only : DhtSettingsBuilder → Bool → DhtSettingsBuilder
read_only b v = on b (λ s. record s { read_only = v })

unfoldable pub routers : DhtSettingsBuilder → List String → DhtSettingsBuilder
routers b v = on b (λ s. record s { routers = v })

unfoldable pub throttle_packet_count : DhtSettingsBuilder → ℕ → DhtSettingsBuilder
throttle_packet_count b v = on b (λ s. record s { throttle_packet_count = v })

unfoldable pub throttle_period_secs : DhtSettingsBuilder → ℕ → DhtSettingsBuilder
throttle_period_secs b v = on b (λ s. record s { throttle_period_secs = v })

unfoldable pub throttle_naughty_timeout_secs : DhtSettingsBuilder → ℕ → DhtSettingsBuilder
throttle_naughty_timeout_secs b v = on b (λ s. record s { throttle_naughty_timeout_secs = v })

unfoldable pub throttle_max_tracking_secs : DhtSettingsBuilder → ℕ → DhtSettingsBuilder
throttle_max_tracking_secs b v = on b (λ s. record s { throttle_max_tracking_secs = v })

unfoldable pub build : DhtSettingsBuilder → DhtSettings
build b = b.settings
