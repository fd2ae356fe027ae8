-- ===== src/Tests/Pings.antt =====
-- A peer whose last version is 1 pings one whose last version is 2.
use jax_fs.Prelude.{ℕ, ◌≡◌, refl, none, some, [], ◌∷◌}
use jax_fs.Prelude.Results.{ok}
use jax_fs.Ord.{u64_ord}
use jax_fs.Ord.Max.{max_by_key}
use jax_fs.BTreeMap.{get}
use jax_fs.BucketLog.Memory.{Inner, empty_log, head, heads, height}
use jax_fs.Sync.Ping.{Host, goals, ping_peer}
use jax_fs.Sync.Pinged.{ping_peer_lem}
use jax_fs.Tests.Manifests.{toy, version}

abbrev log_of : ℕ → ℕ → Inner ℕ ℕ
log_of link at = record empty_log {
  entries = (5, (at, link ∷ []) ∷ []) ∷ [];
  max_heights = (5, at) ∷ [];
}

abbrev host : ℕ → ℕ → Host toy
host link at = record {
  logs = log_of link at;
  load = λ l. some (version at none);
  from_hex = λ name. some 7;
}

our_head : head 5 none (log_of 1 3) ≡ ok (1, 3)
unfolding head heads height get max_by_key
our_head = refl

their_head : head 5 none (log_of 2 4) ≡ ok (2, 4)
unfolding head heads height get max_by_key
their_head = refl

ping_peer_lem_example :
    (goals toy (ping_peer toy (host 1 3) 7 (host 2 4) 8 5).0 ≡ [])
    × (goals toy (ping_peer toy (host 1 3) 7 (host 2 4) 8 5).1 ≡ (2, 4) ∷ [])
ping_peer_lem_example = ping_peer_lem toy (host 1 3) (host 2 4) 7 8 5 1 2 3 4 our_head their_head
