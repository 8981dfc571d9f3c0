-- ===== src/File/Defs.antt =====
-- libuzi/file.c: a C string is the list of its bytes before the terminator, and a pointer into it an
-- index. What the calls of the system return is a parameter.
use libuzi.Common.{
  ℕ, zero, suc, ◌+◌, ◌-◌, Bool, true, false, not, ◌&&◌, Option, none, some, List, [], ◌∷◌, ◌++◌,
  ltb, ◌==◌, if◌then◌else◌, bit_and, bit_or, length, take, drop, replicate,
}

abbrev pub backslash : ℕ
backslash = 92

abbrev pub slash : ℕ
slash = 47

-- The standard functions strchr and strrchr: the first and the last place of a byte.
abbrev pub strchr : List ℕ → ℕ → Option ℕ
strchr [] c = none
strchr (x ∷ xs) c =
    let rest = strchr xs c in
    if x == c then some 0 else elim rest [ none ↦ none | some i ↦ some (suc i) ]

abbrev pub strrchr : List ℕ → ℕ → Option ℕ
strrchr [] c = none
strrchr (x ∷ xs) c = elim (strrchr xs c) [
  | none ↦ if x == c then some 0 else none
  | some i ↦ some (suc i)
]

-- The separator that UziFile_Base finds
unfoldable pub last_separator : List ℕ → Option ℕ
last_separator filename = elim (strrchr filename backslash) [
  | none ↦ strrchr filename slash
  | some i ↦ some i
]

-- UziFile_Base of a string that is not NULL
unfoldable pub base_index : List ℕ → ℕ
base_index filename = elim (last_separator filename) [
  | none ↦ 0
  | some separator ↦ if ltb 1 (length filename - separator) then separator + 1 else 0
]

abbrev pub uzi_file_base : Option (List ℕ) → Option ℕ
uzi_file_base none = none
uzi_file_base (some filename) = some (base_index filename)

-- UziFile_Dir; `malloc_ok` is whether malloc returns memory
unfoldable pub uzi_file_dir : (malloc_ok : Bool) → Option (List ℕ) → Option (List ℕ)
uzi_file_dir malloc_ok none = none
uzi_file_dir malloc_ok (some filename) =
    let base = base_index filename in
    if base == 0 then none else if malloc_ok then some (take (base - 1) filename) else none

-- UziFile_Extension
unfoldable pub extension_index : List ℕ → (dot : Bool) → Option ℕ
extension_index filename dot = elim (strrchr filename 46) [
  | none ↦ none
  | some p ↦ if dot then some p else if ltb 1 (length filename - p) then some (p + 1) else none
]

abbrev pub uzi_file_extension : Option (List ℕ) → (dot : Bool) → Option ℕ
uzi_file_extension none dot = none
uzi_file_extension (some filename) dot = extension_index filename dot

-- A file that is opened: its size by seek and tell, and the bytes that fread gets.
pub record Opened : Type 0 where
  pub size : ℕ
  pub read : List ℕ

-- UziFile_Load with names that are not NULL, of a file or none that can be opened: the data and the
-- value of `*size`.
unfoldable pub uzi_file_load :
    (malloc_ok : Bool) → Option Opened → (padding : ℕ) → Option (List ℕ) × ℕ
uzi_file_load malloc_ok none padding = (none, 0)
uzi_file_load false (some file) padding = (none, file.size)
uzi_file_load true (some file) padding =
    if length file.read == file.size
    then (some (file.read ++ replicate padding 0), file.size + padding)
    else (none, 0 + padding)

-- UziFile_Save: whether it succeeds, of the number of bytes that fwrite writes
unfoldable pub uzi_file_save : (filename buffer opened : Bool) (size written : ℕ) → Bool
uzi_file_save filename buffer opened size written =
    if not (filename && buffer) then false else if opened then written == size else false

-- UziFile_Move: of the status of the target, `some` whether it can be written, and of the rename
unfoldable pub uzi_file_move : (target : Option Bool) (renames replace : Bool) → Bool
uzi_file_move none renames replace = renames
uzi_file_move (some writable) renames false = false
uzi_file_move (some writable) renames true = if writable then renames else false

module _ {K : Type 0} (mkdir : List ℕ → (mode : ℕ) → K → Bool × K) where
  -- UziMkDir, whose mode 0 is S_IRUSR | S_IWUSR | S_IXUSR
  abbrev pub uzi_mk_dir : List ℕ → (mode : ℕ) → K → Bool × K
  uzi_mk_dir path mode k = mkdir path (if mode == 0 then 448 else mode) k

  -- The loop of UziMkPath at the index `p`: the status of the last directory.
  unfoldable pub mk_path_loop : (fuel : ℕ) (path : List ℕ) (mode p : ℕ) → K → Option (Bool × K)
  mk_path_loop zero path mode p k = none
  mk_path_loop (suc fuel) path mode p k = elim (strchr (drop p path) slash) [
    | none ↦ some (uzi_mk_dir path mode k)
    | some i ↦ mk_path_loop fuel path mode (p + i + 1) (uzi_mk_dir (take (p + i) path) mode k).1
  ]

  unfoldable pub uzi_mk_path : (fuel : ℕ) (path : List ℕ) (mode : ℕ) → K → Option (Bool × K)
  uzi_mk_path fuel path mode k = mk_path_loop fuel path mode 0 k

-- The bits of UziChMod
abbrev pub permission : (mode bit value : ℕ) → ℕ
permission mode bit value = if bit_and mode bit == 0 then 0 else value

unfoldable pub chmod_bits : ℕ → ℕ
chmod_bits mode =
    let special =
      bit_or (bit_or (permission mode 16384 2048) (permission mode 8192 1024))
        (permission mode 4096 512) in
    let user =
      bit_or (bit_or (permission mode 1024 256) (permission mode 512 128))
        (permission mode 256 64) in
    let group =
      bit_or (bit_or (permission mode 64 32) (permission mode 32 16)) (permission mode 16 8) in
    let others =
      bit_or (bit_or (permission mode 4 4) (permission mode 2 2)) (permission mode 1 1) in
    bit_or (bit_or (bit_or special user) group) others
