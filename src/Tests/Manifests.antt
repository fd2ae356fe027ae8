-- ===== src/Tests/Manifests.antt =====
-- Manifests and the synchronisation of a bucket on small inputs: numbers stand for keys, links and
-- bytes, and a signature is the pair of the key and what it signs.
use jax_fs.Prelude.{
  ℕ, zero, suc, ◌≡◌, ◌≢◌, ◌↔◌, ◌&&◌, refl, false, Option, none, some, List, [], ◌∷◌, arith,
}
use jax_fs.Prelude.Results.{ok, err}
use jax_fs.Ord.{u64_ord, ◌==◌, ==_refl}
use jax_fs.Ord.Lex.{lex_ord}
use jax_fs.BTreeMap.{get, insert}
use jax_fs.Manifest.Platform.{Platform, SignatureLaws}
use jax_fs.Manifest.Types.{Manifest, Shares, new_owner, new_mirror}
use jax_fs.BucketLog.Memory.{
  append, empty_log, has, finish_append, check_append, open_bucket, add_entry,
}
use jax_fs.BucketLog.Head.{Request, run}
use jax_fs.Sync.Provenance.{ProvenanceResult, verify_author}
use jax_fs.Sync.Authors.{WrittenByOwner, verify_author_valid_iff}
use jax_fs.Sync.Chain.{SyncError, Linked, download_loop, find_common_ancestor}
use jax_fs.Sync.Download.{Falls, walks_end}
use jax_fs.Sync.Job.{Peer, SyncBucketJob, apply_manifest_chain, execute}
use jax_fs.Sync.Applied.{apply_manifest_chain_first_only}
use jax_fs.Sync.Safety.{Safe, execute-Safe}

abbrev pub toy : Platform
toy = record {
  Uuid = ℕ;
  Key = ℕ;
  SecretKey = ℕ;
  Signature = ℕ × ℕ;
  Secret = ℕ;
  SecretShare = ℕ;
  Link = ℕ;
  Version = ℕ;
  Bytes = ℕ;
  Mime = ℕ;
  LinkedData = ℕ;
  to_hex = λ k. k ∷ [];
  public_key = λ k. k;
  sign_bytes = λ k b. (k, b);
  verify_bytes = λ k b s. s.0 == k && s.1 == b;
}

toy_laws : SignatureLaws toy
toy_laws = record { verify_sign = λ k b. ground (arith, ==_refl k, ==_refl b) }

abbrev toy_encode : Manifest toy → Option ℕ
toy_encode m = some m.height

-- The peer 7 owns the bucket, and the peer 8 mirrors it.
abbrev shares : Shares toy
shares = (7 ∷ [], new_owner toy 0 7) ∷ (8 ∷ [], new_mirror toy 8) ∷ []

abbrev pub version : ℕ → Option ℕ → Manifest toy
version height previous = record {
  id = 5;
  name = [];
  height = height;
  version = 0;
  shares = shares;
  entry = 0;
  pins = 0;
  previous = previous;
  ops_log = none;
  public = none;
  author = some 7;
  signature = some (7, height);
}

-- The manifests of the peer, under the links 1, 2, 3 and so on.
abbrev toy_fetch : ℕ → Option (Manifest toy)
toy_fetch zero = none
toy_fetch (suc zero) = some (version 0 none)
toy_fetch (suc (suc l)) = some (version (suc l) (some (suc l)))

abbrev requests : List (Request ℕ ℕ)
requests =
    record { bucket = 5; name = []; current = 1; previous = none; at = 0; published = false } ∷ []

abbrev peer : Peer toy
peer = record { logs = run 0 requests empty_log; jobs = [] }

abbrev job : SyncBucketJob toy
job = record { bucket_id = 5; target = record { link = 3; height = 2; peer_ids = 7 ∷ [] } }

verify_author_valid_iff_example :
    verify_author toy toy_encode (version 1 (some 1)) (some (version 0 none))
      ≡ ok ProvenanceResult.valid
    ↔ WrittenByOwner toy toy_encode (version 1 (some 1)) (some (version 0 none))
verify_author_valid_iff_example =
    verify_author_valid_iff toy toy_encode (version 1 (some 1)) (some (version 0 none))

-- The links of the peer count its manifests.
toy-Falls : Falls toy toy_fetch (λ l. l)
toy-Falls zero k m f q = cc
toy-Falls (suc zero) k m f q = cc
toy-Falls (suc (suc l)) k m f q =
    let same : some (suc l) ≡ some k = cc (f, q) in ground (arith, same)

walks_end_example :
    ((heights_of : ℕ → List ℕ)
      → find_common_ancestor toy toy_fetch 4 heights_of 3 ≢ err SyncError.out_of_fuel)
    × ((stop_link : Option ℕ) (manifests : List (Linked toy))
        → download_loop toy toy_fetch 4 stop_link 3 manifests ≢ err SyncError.out_of_fuel)
walks_end_example = walks_end toy toy_fetch (λ l. l) toy-Falls 4 3 (omega arith)

execute-Safe_example :
    Safe toy 0 toy_encode 8 toy_fetch toy_fetch 5 3 peer.logs
      (execute toy 0 toy_encode 8 toy_fetch toy_fetch 4 job peer).0.logs
execute-Safe_example = execute-Safe toy 0 toy_encode 8 toy_fetch toy_fetch 4 job peer

apply_manifest_chain_first_only_example :
    has 5 3
      (apply_manifest_chain toy 0 5
        ((version 1 (some 1), 2) ∷ (version 2 (some 2), 3) ∷ [])
        peer).0.logs
    ≡ has 5 3 peer.logs
apply_manifest_chain_first_only_example =
    apply_manifest_chain_first_only toy 0 5 (version 1 (some 1), 2) ((version 2 (some 2), 3) ∷ [])
      peer 5 3 (λ e. omega arith)

-- The job appends the manifest after the common ancestor, and not the target.
test_execute : has 5 2 (execute toy 0 toy_encode 8 toy_fetch toy_fetch 4 job peer).0.logs ≡ 1 ∷ []
unfolding execute new_owner has run append get insert finish_append check_append open_bucket
    add_entry
test_execute = refl
