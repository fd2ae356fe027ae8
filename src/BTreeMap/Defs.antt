-- ===== src/BTreeMap/Defs.antt =====
-- The operations: an insertion keeps the order of the entries and replaces the value of its key.
use Prim.Native.Nat.Ordering.{lt, eq, gt}
use jax_fs.Prelude.{Bool, Option, none, some, List, [], ◌∷◌, is_some}
use jax_fs.Ord.{Ord}

abbrev pub BTreeMap {ℓ κ} : Type ℓ → Type κ → Type (ℓ ⊔ κ)
BTreeMap K V = List (K × V)

module _ {ℓ κ} {K : Type ℓ} {V : Type κ} where
  unfoldable pub keys : BTreeMap K V → List K
  keys [] = []
  keys ((k, v) ∷ m) = k ∷ keys m

  unfoldable pub values : BTreeMap K V → List V
  values [] = []
  values ((k, v) ∷ m) = v ∷ values m

module _ {ℓ κ} {K : Type ℓ} {V : Type κ} ⦃o : Ord K⦄ where
  unfoldable pub get : K → BTreeMap K V → Option V
  get k [] = none
  get k ((j, w) ∷ m) = elim (o.cmp k j) [ eq ↦ some w | _ ↦ get k m ]

  unfoldable pub contains_key : K → BTreeMap K V → Bool
  contains_key k m = is_some (get k m)

  unfoldable pub insert : K → V → BTreeMap K V → BTreeMap K V
  insert k v [] = (k, v) ∷ []
  insert k v ((j, w) ∷ m) = elim (o.cmp k j) [
    | lt ↦ (k, v) ∷ (j, w) ∷ m
    | eq ↦ (k, v) ∷ m
    | gt ↦ (j, w) ∷ insert k v m
  ]

  unfoldable pub remove : K → BTreeMap K V → BTreeMap K V
  remove k [] = []
  remove k ((j, w) ∷ m) = elim (o.cmp k j) [ eq ↦ m | _ ↦ (j, w) ∷ remove k m ]
