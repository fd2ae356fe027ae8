-- ===== src/Sync/Chain.antt =====
-- crates/common/src/peer/sync/sync_bucket.rs: the two walks back through the manifests of a peer.
-- `fetch` stands for the download of a manifest from the peers and its decoding. A walk ends only
-- because the links of manifests do not go round in a circle, so it is given fuel.
use jax_fs.Prelude.{
  ℕ, zero, suc, Bool, true, false, not, Option, none, some, List, [], ◌∷◌, is_empty,
}
use jax_fs.Prelude.Results.{Result, ok, err, ◌>>=◌}
use jax_fs.Ord.{Ord, ◌==◌}
use jax_fs.Manifest.Platform.{Platform}
use jax_fs.Manifest.Types.{Manifest}
use jax_fs.Sync.Provenance.{ProvenanceError, ProvenanceResult, verify_author}

-- The errors that `anyhow` carries; `out_of_fuel` stands for a walk that does not end.
pub data SyncError (p : Platform) : Type 0 where
  out_of_fuel : SyncError p
  download_failed : p.Link → SyncError p
  provenance : ProvenanceError p → SyncError p
  append_failed : ℕ → SyncError p

module _ (p : Platform) where
  -- A manifest with its link.
  abbrev pub Linked : Type 0
  Linked = Manifest p × p.Link

  -- `match manifest.previous()`, with what the loop goes on to.
  unfoldable pub follow {ℓ} : {R : Type ℓ} → Option p.Link → R → (p.Link → R) → R
  follow none stop next = stop
  follow (some prev_link) stop next = next prev_link

  -- One round of the loop of `download_manifest_chain`. The manifests that the code pushes and at
  -- last reverses are put in front at once.
  unfoldable pub visit :
      Option (Manifest p)
      → Bool
      → p.Link
      → List Linked
      → (p.Link → List Linked → Result (SyncError p) (List Linked))
      → Result (SyncError p) (List Linked)
  unfolding follow
  visit none stopped current manifests next = err (SyncError.download_failed current)
  visit (some manifest) true current manifests next = ok manifests
  visit (some manifest) false current manifests next =
      let longer : List Linked = (manifest, current) ∷ manifests in
      follow manifest.previous (ok longer) (λ prev_link. next prev_link longer)

  -- One round of the loop of `find_common_ancestor`; an error of the log counts as a link that is
  -- not in it.
  unfoldable pub look :
      Option (Manifest p)
      → Bool
      → p.Link
      → (p.Link → Result (SyncError p) (Option (p.Link × ℕ)))
      → Result (SyncError p) (Option (p.Link × ℕ))
  unfolding follow
  look none known current next = err (SyncError.download_failed current)
  look (some manifest) true current next = ok (some (current, manifest.height))
  look (some manifest) false current next = follow manifest.previous (ok none) next

-- Whether the walk has come to the link where it is to stop.
unfoldable pub is_stop : {Link : Type 0} ⦃lo : Ord Link⦄ → Option Link → Link → Bool
is_stop none current = false
is_stop (some stop_link) current = current == stop_link

module _ (p : Platform) ⦃lo : Ord p.Link⦄ (fetch : p.Link → Option (Manifest p)) where
  unfoldable pub download_loop :
      ℕ → Option p.Link → p.Link → List (Linked p) → Result (SyncError p) (List (Linked p))
  unfolding is_stop visit
  download_loop zero stop_link current manifests = err SyncError.out_of_fuel
  download_loop (suc fuel) stop_link current manifests =
      visit p (fetch current) (is_stop stop_link current) current manifests
        (download_loop fuel stop_link)

  -- `heights_of` is the query `has` of the bucket in the log.
  unfoldable pub find_common_ancestor :
      ℕ → (p.Link → List ℕ) → p.Link → Result (SyncError p) (Option (p.Link × ℕ))
  unfolding look
  find_common_ancestor zero heights_of current = err SyncError.out_of_fuel
  find_common_ancestor (suc fuel) heights_of current =
      look p (fetch current) (not (is_empty (heights_of current))) current
        (find_common_ancestor fuel heights_of)

module _ (p : Platform) (encode : Manifest p → Option p.Bytes) where
  unfoldable pub blame :
      p.Link → Result (ProvenanceError p) ProvenanceResult → Result (SyncError p) (Unit {0})
  blame link (ok r) = ok tt
  blame link (err e) = err (SyncError.provenance (ProvenanceError.invalid_manifest_in_chain link e))

  -- The validation of a downloaded chain, from the oldest manifest to the newest.
  unfoldable pub validate : Option (Manifest p) → List (Linked p) → Result (SyncError p) (Unit {0})
  unfolding blame verify_author
  validate previous [] = ok tt
  validate previous ((manifest, link) ∷ rest) =
      blame link (verify_author p encode manifest previous) >>= λ _. validate (some manifest) rest

module _ (p : Platform) ⦃lo : Ord p.Link⦄ (encode : Manifest p → Option p.Bytes)
    (fetch : p.Link → Option (Manifest p)) where
  unfoldable pub download_manifest_chain :
      ℕ → p.Link → Option p.Link → Option (Manifest p) → Result (SyncError p) (List (Linked p))
  unfolding download_loop validate
  download_manifest_chain fuel start_link stop_link trusted_base = do
    manifests ← download_loop p fetch fuel stop_link start_link []
    _ ← validate p encode trusted_base manifests
    ok manifests
