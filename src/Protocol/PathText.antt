-- ===== src/Protocol/PathText.antt =====
-- server/src/protocol.c: `proto_validate_path` and `proto_normalize_path`, which work on the text of
-- a path and know nothing of directories.
pub mod Forms
pub mod Laws
use simple_ftp.Base.{
  ℕ, Bool, true, false, not, ◌&&◌, ◌||◌, Option, none, some, List, [], ◌∷◌, map, ltb, leb, ◌==◌,
  if◌then◌else◌, length,
}
use simple_ftp.CString.{Bytes, codes, contains}

-- `path[i] < 32 && path[i] != '\t'`, where `char` is signed: bytes from 128 on are negative.
unfoldable pub is_refused : ℕ → Bool
is_refused c = (ltb c 32 || leb 128 c) && not (c == b'\t')

unfoldable pub has_refused : Bytes → Bool
unfolding is_refused
has_refused [] = false
has_refused (c ∷ s) = is_refused c || has_refused s

-- `proto_validate_path`
unfoldable pub validate_path : Bytes → Bool
unfolding has_refused
validate_path path =
    if length path == 0
    then true
    else if contains (codes "..") path
    then false
    else not (has_refused path)

-- The first loop, at one byte.
unfoldable pub forward_slash : ℕ → ℕ
forward_slash c = if c == b'\\' then b'/' else c

-- The second loop; the flag is `last_was_slash`.
unfoldable pub collapse_slashes : Bool → Bytes → Bytes
collapse_slashes last [] = []
collapse_slashes last (c ∷ s) =
    let after_slash = collapse_slashes true s in
    let after_other = c ∷ collapse_slashes false s in
    if c == b'/' then (if last then after_slash else c ∷ after_slash) else after_other

-- A slash at the very end goes.
unfoldable pub drop_last_slash : Bytes → Bytes
drop_last_slash [] = []
drop_last_slash (c ∷ []) = if c == b'/' then [] else c ∷ []
drop_last_slash (c ∷ d ∷ s) = c ∷ drop_last_slash (d ∷ s)

-- The last step: the first byte always stays.
unfoldable pub strip_trailing : Bytes → Bytes
unfolding drop_last_slash
strip_trailing [] = []
strip_trailing (c ∷ s) = c ∷ drop_last_slash s

-- `proto_normalize_path`; `none` stands for -1.
unfoldable pub normalize_path : Bytes → ℕ → Option Bytes
unfolding forward_slash collapse_slashes strip_trailing
normalize_path path max_length =
    if max_length == 0
    then none
    else if leb max_length (length path)
    then none
    else some (strip_trailing (collapse_slashes false (map forward_slash path)))
