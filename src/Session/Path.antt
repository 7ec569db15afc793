-- ===== src/Session/Path.antt =====
-- server/src/session.c, `normalize_and_validate_path`: a client's path, absolute or relative to the
-- current directory, becomes an absolute path of the virtual file system.
pub mod Walk
pub mod Stack
pub mod Confined
pub mod Stable
pub mod Refines
pub mod Truncated
use mathlib.Core.List.{reverse}
use simple_ftp.Base.{
  ℕ, zero, suc, ◌+◌, ◌-◌, Bool, true, false, Option, none, some, List, [], ◌∷◌, ◌++◌, leb, ◌==◌,
  if◌then◌else◌, length, take,
}
use simple_ftp.CString.{Bytes, codes, str_eq, strncpy}
use simple_ftp.CString.Tokens.{tokens}
use simple_ftp.CString.Scan.{◌>>=◌}
use simple_ftp.Protocol.PathText.{validate_path, normalize_path}

-- `SESSION_MAX_PATH`
abbrev pub max_path : ℕ
max_path = 1024

abbrev pub dot : Bytes
dot = codes "."

abbrev pub dot_dot : Bytes
dot_dot = codes ".."

abbrev pub root : Bytes
root = codes "/"

-- `path[0] == '/'`
unfoldable pub is_absolute : Bytes → Bool
is_absolute [] = false
is_absolute (c ∷ s) = c == b'/'

-- `temp`, with its copies cut to the buffer.
unfoldable pub absolute_text : Bytes → Bytes → Bytes
unfolding is_absolute str_eq
absolute_text base path =
    if is_absolute path
    then strncpy max_path path
    else if str_eq base root
    then strncpy max_path (b'/' ∷ path)
    else strncpy max_path (base ++ (b'/' ∷ path))

-- One token of the loop. The components found so far stand with the last one first.
unfoldable pub take_component : Bytes → List Bytes → List Bytes
unfolding str_eq
take_component token [] =
    if str_eq token dot then [] else if str_eq token dot_dot then [] else token ∷ []
take_component token (c ∷ components) =
    if str_eq token dot
    then c ∷ components
    else if str_eq token dot_dot
    then components
    else token ∷ c ∷ components

-- `while (token != NULL && component_count < 256)`
unfoldable pub resolve_go : List Bytes → List Bytes → List Bytes
unfolding take_component
resolve_go components [] = components
resolve_go components (token ∷ rest) =
    let more = resolve_go (take_component token components) rest in
    if leb 256 (length components) then components else more

-- `strncat(result, s, result_size - strlen(result) - 1)`
unfoldable pub strncat : ℕ → Bytes → Bytes → Bytes
strncat size result s = result ++ take (size - length result - 1) s

unfoldable pub build_go : Bytes → List Bytes → Bytes
unfolding strncat
build_go result [] = result
build_go result (c ∷ components) =
    build_go (strncat max_path (strncat max_path result root) c) components

unfoldable pub build_path : List Bytes → Bytes
unfolding build_go
build_path [] = root
build_path (c ∷ components) = build_go [] (c ∷ components)

-- `result + 1`
abbrev pub skip_first : Bytes → Bytes
skip_first [] = []
skip_first (c ∷ s) = s

unfoldable pub check_path : Bytes → Option Bytes
check_path result = if validate_path (skip_first result) then some result else none

-- `normalize_and_validate_path`, with the result size `SESSION_MAX_PATH` that all callers give;
-- `none` stands for -1.
unfoldable pub resolve_virtual : Bytes → Bytes → Option Bytes
unfolding absolute_text resolve_go build_path check_path
resolve_virtual base path = do
  temp ← normalize_path (absolute_text base path) max_path
  check_path (build_path (reverse (resolve_go [] (tokens temp))))
