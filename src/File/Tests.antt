-- ===== src/File/Tests.antt =====
-- Paths and files at concrete strings.
use libuzi.Common.{ℕ, ◌≡◌, refl, Bool, true, false, none, some, List, [], ◌∷◌, ◌++◌, drop, arith}
use libuzi.File.Defs.{
  slash, base_index, extension_index, last_separator, uzi_file_dir, uzi_file_load, uzi_mk_path,
  chmod_bits,
}
use libuzi.File.Paths.{prefixes, make_all, base_dir_lem, mk_path_lem}

-- The directory "ab" and the base "c.d".
abbrev dir : List ℕ
dir = 97 ∷ 98 ∷ []

abbrev base : List ℕ
base = 99 ∷ 46 ∷ 100 ∷ []

base_dir_lem_example :
    (drop (base_index (dir ++ slash ∷ base)) (dir ++ slash ∷ base) ≡ base)
    × (uzi_file_dir true (some (dir ++ slash ∷ base)) ≡ some dir)
base_dir_lem_example =
    base_dir_lem dir (46 ∷ 100 ∷ []) 99 (ground arith) (ground arith) (ground arith)

-- A system that lists the directories it is asked for, and makes them all.
abbrev Made : Type 0
Made = List (List ℕ)

abbrev log : List ℕ → ℕ → Made → Bool × Made
log path mode made = (true, path ∷ made)

mk_path_lem_example :
    uzi_mk_path log 7 (dir ++ slash ∷ base) 0 []
    ≡ some (make_all log 0 (prefixes [] (dir ++ slash ∷ base)) true [])
mk_path_lem_example = mk_path_lem log 0 7 (dir ++ slash ∷ base) [] (omega arith)

-- A separator behind the base: the whole string counts as the base, and there is no directory.
trailing : uzi_file_dir true (some (dir ++ slash ∷ [])) ≡ none
unfolding uzi_file_dir base_index last_separator
trailing = refl

-- A directory with a dot in its name and a file without: the extension has a separator in it.
odd_extension : extension_index (46 ∷ 97 ∷ slash ∷ 98 ∷ []) false ≡ some 1
unfolding extension_index
odd_extension = refl

-- A read that fails leaves no data and the padding as the size.
failed_load : uzi_file_load true (some (record { size = 4; read = 1 ∷ [] })) 2 ≡ (none, 2)
unfolding uzi_file_load
failed_load = refl

-- rwxr-xr-x
usual_mode : chmod_bits 1877 ≡ 493
unfolding chmod_bits
usual_mode = refl
