-- ===== src/Mount/Pins.antt =====
-- crates/common/src/mount/pins.rs: the set of pinned hashes, as a table with no values.
use jax_fs.Prelude.{ℕ, Bool, List, [], ◌∷◌, length}
use jax_fs.Ord.{Ord}
use jax_fs.BTreeMap.{BTreeMap, insert, contains_key, keys}

abbrev pub Pins : Type 0 → Type 0
Pins Hash = BTreeMap Hash (Unit {0})

module _ {Hash : Type 0} where
  abbrev pub new_pins : Pins Hash
  new_pins = []

  unfoldable pub count_pins : Pins Hash → ℕ
  count_pins pins = length pins

  unfoldable pub to_vec : Pins Hash → List Hash
  unfolding keys
  to_vec pins = keys pins

module _ {Hash : Type 0} ⦃ho : Ord Hash⦄ where
  unfoldable pub pin : Hash → Pins Hash → Pins Hash
  unfolding insert
  pin hash pins = insert hash tt pins

  unfoldable pub extend : List Hash → Pins Hash → Pins Hash
  unfolding pin
  extend [] pins = pins
  extend (hash ∷ hashes) pins = extend hashes (pin hash pins)

  unfoldable pub is_pinned : Hash → Pins Hash → Bool
  unfolding contains_key
  is_pinned hash pins = contains_key hash pins

  unfoldable pub from_vec : List Hash → Pins Hash
  unfolding extend
  from_vec hashes = extend hashes new_pins
