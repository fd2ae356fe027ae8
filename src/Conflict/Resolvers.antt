-- ===== src/Conflict/Resolvers.antt =====
-- crates/common/src/mount/conflict: the four strategies that come with the crate.
use jax_fs.Prelude.{
  ℕ, zero, suc, ◌+◌, ◌/◌, ◌%◌, leb, take, map_option, [], ◌∷◌, ◌++◌, if◌then◌else◌, unwrap_or,
}
use jax_fs.Ord.{Ord, gtb}
use jax_fs.FilePath.{Name, FilePath, parent, file_name}
use jax_fs.PathOps.Op.{OpType, op_id_ord}
use jax_fs.Conflict.Types.{Resolution, ConflictResolver}

-- `u64::to_string`: the decimal digits of a number below 10^fuel.
decimal : ℕ → ℕ → Name → Name
decimal zero n tail = tail
decimal (suc fuel) n tail =
    let digit : ℕ = 48 + n % 10 in
    let more = decimal fuel (n / 10) (digit ∷ tail) in if leb n 9 then digit ∷ tail else more

-- Twenty digits hold every `u64`.
unfoldable pub u64_to_string : ℕ → Name
unfolding decimal
u64_to_string n = decimal 20 n []

-- `ConflictFile::conflict_path`: the version follows the whole file name, behind `@`.
unfoldable pub conflict_path : FilePath → Name → FilePath
unfolding parent file_name
conflict_path path version =
    let name = unwrap_or (file_name path) (b'f' ∷ b'i' ∷ b'l' ∷ b'e' ∷ []) in
    unwrap_or (parent path) [] ++ (name ++ b'@' ∷ version) ∷ []

module _ {Key Link : Type 0} where
  unfoldable pub base_wins : ConflictResolver Key Link
  base_wins conflict local_peer = Resolution.use_base

  unfoldable pub fork_on_conflict : ConflictResolver Key Link
  fork_on_conflict conflict local_peer = Resolution.keep_both

module _ {Key Link : Type 0} ⦃o : Ord Key⦄ where
  unfoldable pub last_write_wins : ConflictResolver Key Link
  last_write_wins conflict local_peer =
      if gtb conflict.incoming.id conflict.base.id
      then Resolution.use_incoming
      else Resolution.use_base

  -- What `ConflictFile` and the default rule do with a conflict that is not between two `Add`s.
  unfoldable pub add_or_last_write : (Link → Name) → ℕ → OpType → OpType → ConflictResolver Key Link
  unfolding conflict_path u64_to_string last_write_wins
  add_or_last_write hash_text hash_length OpType.add OpType.add conflict local_peer =
      let version =
        unwrap_or
          (map_option (λ link. take hash_length (hash_text link)) conflict.incoming.content_link)
          (u64_to_string conflict.incoming.id.timestamp) in
      Resolution.rename_incoming (conflict_path conflict.incoming.path version)
  add_or_last_write hash_text hash_length _ _ conflict local_peer =
      last_write_wins conflict local_peer

  -- `hash_text` is `link.hash().to_string()`, the hash in hexadecimal; the default `hash_length` is 8.
  unfoldable pub conflict_file : (Link → Name) → ℕ → ConflictResolver Key Link
  unfolding add_or_last_write
  conflict_file hash_text hash_length conflict local_peer =
      add_or_last_write hash_text hash_length conflict.base.op_type conflict.incoming.op_type
        conflict local_peer
