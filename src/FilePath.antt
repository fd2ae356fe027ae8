-- ===== src/FilePath.antt =====
-- `std::path::Path` as the mount uses it after `clean_path`: the list of the components of a path,
-- each a list of bytes. `Ord` and `==` of paths compare the components in turn.
use jax_fs.Prelude.{ℕ, Option, none, some, List, [], ◌∷◌, map_option}

abbrev pub Name : Type 0
Name = List ℕ

abbrev pub FilePath : Type 0
FilePath = List Name

-- `Path::parent`: all components but the last; the empty path has none.
unfoldable pub parent : FilePath → Option FilePath
parent [] = none
parent (n ∷ []) = some []
parent (n ∷ m ∷ p) = map_option (λ q. n ∷ q) (parent (m ∷ p))

-- `Path::file_name`: the last component.
unfoldable pub file_name : FilePath → Option Name
file_name [] = none
file_name (n ∷ []) = some n
file_name (n ∷ m ∷ p) = file_name (m ∷ p)
