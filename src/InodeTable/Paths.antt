-- ===== src/InodeTable/Paths.antt =====
-- crates/daemon/src/fuse/inode_table.rs: paths as text, a list of code points.
use jax_fs.Prelude.{
  zero, suc, Option, none, some, take, or_else, map_option, ℕ, Bool, false, ◌&&◌, ◌||◌, List, [],
  ◌∷◌, reverse, any, is_empty, length, ltb, if◌then◌else◌,
}
use jax_fs.Ord.{u64_ord, ◌==◌}
use jax_fs.Ord.Lex.{lex, lex_ord}
use jax_fs.FilePath.{Name}

-- `char::is_whitespace`: the code points of the Unicode property White_Space.
abbrev white_space : List ℕ
white_space =
    9 ∷ 10 ∷ 11 ∷ 12 ∷ 13 ∷ 32 ∷ 133 ∷ 160 ∷ 5760 ∷ 8192 ∷ 8193 ∷ 8194 ∷ 8195 ∷ 8196 ∷ 8197 ∷ 8198
    ∷ 8199 ∷ 8200 ∷ 8201 ∷ 8202 ∷ 8232 ∷ 8233 ∷ 8239 ∷ 8287 ∷ 12288 ∷ []

trim_start : Name → Name
unfolding any
trim_start [] = []
trim_start (c ∷ s) =
    let rest = trim_start s in if any (λ w. w == c) white_space then rest else c ∷ s

-- `str::trim`
unfoldable pub trim : Name → Name
unfolding trim_start
trim s = reverse (trim_start (reverse (trim_start s)))

abbrev pub root : Name
root = b'/' ∷ []

abbrev starts_with_slash : Name → Bool
starts_with_slash [] = false
starts_with_slash (c ∷ s) = c == b'/'

ends_with_slash : Name → Bool
ends_with_slash [] = false
ends_with_slash (c ∷ []) = c == b'/'
ends_with_slash (c ∷ d ∷ s) = ends_with_slash (d ∷ s)

-- `String::pop`
pop : Name → Name
pop [] = []
pop (c ∷ []) = []
pop (c ∷ d ∷ s) = c ∷ pop (d ∷ s)

abbrev lead : Name → Name
lead s = if starts_with_slash s then s else b'/' ∷ s

abbrev drop_slash : Name → Name
drop_slash s = if ltb 1 (length s) && ends_with_slash s then pop s else s

-- What has a slash first is longer than one byte exactly when it is longer than one code point.
unfoldable pub normalize_path : Name → Name
unfolding trim ends_with_slash pop lex
normalize_path path =
    let path' = trim path in
    if is_empty path' || path' == root then root else drop_slash (lead path')

-- `str::rfind('/')`, the position of the last slash.
rfind_slash : Name → Option ℕ
rfind_slash [] = none
rfind_slash (c ∷ s) =
    or_else (map_option (λ i. suc i) (rfind_slash s)) (if c == b'/' then some 0 else none)

abbrev parent_at : Option ℕ → Name → Name
parent_at none normalized = root
parent_at (some zero) normalized = root
parent_at (some (suc pos)) normalized = take (suc pos) normalized

unfoldable pub parent_path : Name → Name
unfolding normalize_path rfind_slash lex
parent_path path =
    let normalized = normalize_path path in
    if normalized == root then root else parent_at (rfind_slash normalized) normalized

abbrev drop : ℕ → Name → Name
drop zero s = s
drop (suc n) [] = []
drop (suc n) (c ∷ s) = drop n s

abbrev after_at : Option ℕ → Name → Name
after_at none normalized = normalized
after_at (some pos) normalized = drop (suc pos) normalized

-- A path that is not normalised, only trimmed: one that ends with a slash has no filename.
unfoldable pub filename : Name → Name
unfolding trim rfind_slash lex
filename path =
    let normalized = trim path in
    if normalized == root || is_empty normalized
    then []
    else after_at (rfind_slash normalized) normalized
