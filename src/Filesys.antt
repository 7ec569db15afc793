-- ===== src/Filesys.antt =====
-- server/src/filesys.c: `fs_join_path`, `fs_extract_filename` and `fs_get_parent_directory`, in their
-- POSIX branches. The rest of the file asks the operating
-- system, and enters the model as parameters where it is called.
use simple_ftp.Base.{
  ℕ, Bool, false, not, ◌&&◌, ◌||◌, Option, none, some, [], ◌∷◌, ◌++◌, reverse, leb, ◌==◌,
  if◌then◌else◌, length,
}
use simple_ftp.CString.{Bytes}

-- `actual_name`: leading separators are skipped.
unfoldable pub skip_slashes : Bytes → Bytes
skip_slashes [] = []
skip_slashes (c ∷ s) = if c == b'/' then skip_slashes s else c ∷ s

-- `needs_sep`
unfoldable pub needs_sep : Bytes → Bool
needs_sep [] = false
needs_sep (c ∷ []) = not (c == b'/')
needs_sep (c ∷ d ∷ s) = needs_sep (d ∷ s)

unfoldable pub join_text : Bytes → Bytes → Bytes
unfolding skip_slashes needs_sep
join_text dir name = dir ++ ((if needs_sep dir then b'/' ∷ [] else []) ++ skip_slashes name)

-- `fs_join_path`; `none` stands for -1, also where the text does not fit.
unfoldable pub join_path : ℕ → Bytes → Bytes → Option Bytes
unfolding join_text
join_path dest_size dir name =
    if dest_size == 0
    then none
    else if leb dest_size (length (join_text dir name))
    then none
    else some (join_text dir name)

-- `strrchr(path, '/')`: the text before the last slash and after it, or none without a slash.
unfoldable pub split_last : Bytes → Option (Bytes × Bytes)
split_last [] = none
split_last (c ∷ s) = elim (split_last s) [
  | some (before, after) ↦ some (c ∷ before, after)
  | none ↦ if c == b'/' then some ([], s) else none
]

-- `fs_extract_filename`
unfoldable pub extract_filename : Bytes → Bytes
unfolding split_last
extract_filename path = elim (split_last path) [ none ↦ path | some (before, after) ↦ after ]

-- The tests on a last byte of `parent` that is a separator: the Unix root and a drive's root stay.
unfoldable pub keeps_slash : Bytes → Bool
keeps_slash (a ∷ []) = a == b'/'
keeps_slash (a ∷ b ∷ c ∷ []) = b == b':' && (c == b'/' || c == b'\\')
keeps_slash s = false

-- The loop that removes trailing slashes, over the bytes in reverse.
unfoldable pub strip_slashes : Bytes → Bytes
unfolding keeps_slash
strip_slashes [] = []
strip_slashes (c ∷ s) =
    let rest = strip_slashes s in
    if (c == b'/' || c == b'\\') && not (keeps_slash (reverse (c ∷ s))) then rest else c ∷ s

unfoldable pub parent_of : Bytes → Option Bytes
unfolding split_last
parent_of [] = none
parent_of (c ∷ s) = elim (split_last (c ∷ s)) [
  | none ↦ none
  | some ([], after) ↦ some (b'/' ∷ [])
  | some (d ∷ before, after) ↦ some (d ∷ before)
]

-- `fs_get_parent_directory`; `none` stands for -1.
unfoldable pub parent_directory : ℕ → Bytes → Option Bytes
unfolding strip_slashes parent_of
parent_directory parent_size path =
    if parent_size == 0
    then none
    else if leb parent_size (length path)
    then none
    else parent_of (reverse (strip_slashes (reverse path)))
