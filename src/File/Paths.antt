-- ===== src/File/Paths.antt =====
-- libuzi/file.c: a path falls into its directory and its base, and UziMkPath makes each directory on it.
use libuzi.Common.{
  ℕ, zero, suc, ◌+◌, ◌-◌, ◌<◌, ◌≡◌, ◌≢◌, inl, inr, refl, sym, ap, ◌∙◌, Bool, true, false, none,
  some, List, [], ◌∷◌, ◌++◌, ltb, ◌==◌, if◌then◌else◌, Bool-cases, Option-cases, length, take, drop,
  length-append, append-nil, append_assoc, All, arith,
}
use libuzi.File.Defs.{
  backslash, slash, strchr, strrchr, last_separator, base_index, uzi_file_dir, uzi_mk_dir,
  mk_path_loop, uzi_mk_path,
}

-- The byte is not in the string.
abbrev pub Free : ℕ → List ℕ → Type 0
Free c xs = All (λ x. x ≢ c) xs

pub strrchr-Free : (xs : List ℕ) (c : ℕ) → Free c xs → strrchr xs c ≡ none
strrchr-Free [] c free = refl
strrchr-Free (x ∷ xs) c free =
    let apart : (x == c) ≡ false = ground (arith, free.0) in
    rw (strrchr-Free xs c free.1, strrchr, apart) refl

strrchr_middle : (xs ys : List ℕ) (c : ℕ) → Free c ys → strrchr (xs ++ c ∷ ys) c ≡ some (length xs)
strrchr_middle [] ys c free =
    let same : (c == c) ≡ true = ground arith in rw (strrchr-Free ys c free, strrchr, same) refl
strrchr_middle (x ∷ xs) ys c free = rw (strrchr_middle xs ys c free) refl

Free-append : (c : ℕ) (xs ys : List ℕ) → Free c xs → Free c ys → Free c (xs ++ ys)
Free-append c [] ys h k = k
Free-append c (x ∷ xs) ys h k = (h.0, Free-append c xs ys h.1 k)

take_front : (xs ys : List ℕ) → take (length xs) (xs ++ ys) ≡ xs
take_front [] ys = refl
take_front (x ∷ xs) ys = ap (λ t. x ∷ t) (take_front xs ys)

drop_front : (xs : List ℕ) (c : ℕ) (ys : List ℕ) → drop (suc (length xs)) (xs ++ c ∷ ys) ≡ ys
drop_front [] c ys = refl
drop_front (x ∷ xs) c ys = drop_front xs c ys

-- For a path of a directory, a slash and a base that is not empty and has no slash, with no
-- backslash anywhere, and when malloc returns memory: UziFile_Base points to the base, and
-- UziFile_Dir returns the directory.
pub base_dir_lem :
    (dir base : List ℕ) (b : ℕ)
    → Free backslash dir
    → Free backslash (b ∷ base)
    → Free slash (b ∷ base)
    → (drop (base_index (dir ++ slash ∷ b ∷ base)) (dir ++ slash ∷ b ∷ base) ≡ b ∷ base)
      × (uzi_file_dir true (some (dir ++ slash ∷ b ∷ base)) ≡ some dir)
unfolding base_index last_separator uzi_file_dir
base_dir_lem dir base b clean_dir clean_base no_slash =
    let path : List ℕ = dir ++ slash ∷ b ∷ base in
    let clean : Free backslash path =
      Free-append backslash dir (slash ∷ b ∷ base) clean_dir
        ((λ h. absurd (omega (arith, h))), clean_base) in
    let no_backslash = strrchr-Free path backslash clean in
    let here = strrchr_middle dir (b ∷ base) slash no_slash in
    let size = length-append dir (slash ∷ b ∷ base) in
    let long : ltb 1 (length path - length dir) ≡ true = ground (arith, size) in
    let index : base_index path ≡ length dir + 1 =
      rw (no_backslash, base_index, last_separator, here, long) refl in
    let next : length dir + 1 ≡ suc (length dir) = omega arith in
    let positive : (length dir + 1 == 0) ≡ false = ground arith in
    let before : length dir + 1 - 1 ≡ length dir = omega arith in
    (
      rw (index, next) (drop_front dir slash (b ∷ base)),
      rw (index, positive, before) (ap some (take_front dir (slash ∷ b ∷ base))),
    )

drop_all : (xs ys : List ℕ) → drop (length xs) (xs ++ ys) ≡ ys
drop_all [] ys = refl
drop_all (x ∷ xs) ys = drop_all xs ys

-- The first place of a byte splits the string.
strchr_split :
    (xs : List ℕ) (c i : ℕ)
    → strchr xs c ≡ some i
    → (front : List ℕ) × (back : List ℕ) × (xs ≡ front ++ c ∷ back)
      × (length front ≡ i)
      × Free c front
strchr_split [] c i h = absurd (cc h)
strchr_split (x ∷ xs) c i h = elim (Bool-cases (x == c)) [
  | inl e ↦
      let first : some 0 ≡ some i = rw e at h in
      let same : x ≡ c = ground arith in ([], xs, ap (λ y. y ∷ xs) same, cc first, tt)
  | inr e ↦ elim (Option-cases (strchr xs c)) [
    | inl f ↦ absurd (cc (rw (e, f) at h))
    | inr (j, f) ↦
        let (front, back, parts, size, free) = strchr_split xs c j f in
        let later : some (suc j) ≡ some i = rw (e, f) at h in
        let is_i : suc j ≡ i = cc later in
        (x ∷ front, back, ap (λ t. x ∷ t) parts, ap suc size ∙ is_i, ((ground arith), free))
  ]
]

-- The directories on a path, of which `before` is the front: up to each separator, then the whole.
abbrev pub prefixes : (before rest : List ℕ) → List (List ℕ)
prefixes before [] = before ∷ []
prefixes before (c ∷ rest) =
    let later = prefixes (before ++ c ∷ []) rest in if c == slash then before ∷ later else later

module _ {K : Type 0} (mkdir : List ℕ → (mode : ℕ) → K → Bool × K) (mode : ℕ) where
  -- The directories are made in order; the last status counts.
  abbrev pub make_all : List (List ℕ) → Bool → K → Bool × K
  make_all [] status k = (status, k)
  make_all (d ∷ ds) status k =
      make_all ds (uzi_mk_dir mkdir d mode k).0 (uzi_mk_dir mkdir d mode k).1

  prefixes_end :
      (before rest : List ℕ)
      → strchr rest slash ≡ none
      → prefixes before rest ≡ (before ++ rest) ∷ []
  prefixes_end before [] h = ap (λ b. b ∷ []) (sym (append-nil before))
  prefixes_end before (c ∷ rest) h = elim (Bool-cases (c == slash)) [
    | inl e ↦ absurd (cc (rw e at h))
    | inr e ↦ elim (Option-cases (strchr rest slash)) [
      | inl f ↦ rw e (
          prefixes_end (before ++ c ∷ []) rest f
          ∙ ap (λ b. b ∷ []) (append_assoc before (c ∷ []) rest))
      | inr (i, f) ↦ absurd (cc (rw (e, f) at h))
    ]
  ]

  prefixes_front :
      (before front back : List ℕ)
      → Free slash front
      → prefixes before (front ++ slash ∷ back)
        ≡ (before ++ front) ∷ prefixes (before ++ front ++ slash ∷ []) back
  prefixes_front before [] back free = rw (append-nil before) refl
  prefixes_front before (x ∷ front) back free =
      let apart : (x == slash) ≡ false = ground (arith, free.0) in
      let later = prefixes_front (before ++ x ∷ []) front back free.1 in
      rw apart (rw (append_assoc before (x ∷ []) front) at later)

  loop_lem :
      (fuel : ℕ) (path before rest : List ℕ) (status : Bool) (k : K)
      → path ≡ before ++ rest
      → length rest < fuel
      → mk_path_loop mkdir fuel path mode (length before) k
        ≡ some (make_all (prefixes before rest) status k)
  unfolding mk_path_loop
  loop_lem zero path before rest status k split enough = absurd (omega arith)
  loop_lem (suc fuel) path before rest status k split enough =
      let ahead : drop (length before) path ≡ rest = rw split (drop_all before rest) in
      elim (Option-cases (strchr rest slash)) [
        | inl e ↦
            let end : prefixes before rest ≡ path ∷ [] =
              prefixes_end before rest e ∙ ap (λ b. b ∷ []) (sym split) in
            rw (ahead, mk_path_loop, e, end) refl
        | inr (i, e) ↦
            let (front, back, parts, size, free) = strchr_split rest slash i e in
            let mid : List ℕ = (before ++ front) ++ slash ∷ [] in
            let whole : path ≡ (before ++ front) ++ slash ∷ back =
              split
              ∙ ap (λ t. before ++ t) parts
              ∙ sym (append_assoc before front (slash ∷ back)) in
            let size_front = length-append before front in
            let size_mid = length-append (before ++ front) (slash ∷ []) in
            let size_rest = ap length parts ∙ length-append front (slash ∷ back) in
            let ends : length before + i ≡ length (before ++ front) =
              omega (arith, size_front, size) in
            let taken : take (length before + i) path ≡ before ++ front =
              rw (ends, whole) (take_front (before ++ front) (slash ∷ back)) in
            let next : length mid ≡ length before + i + 1 =
              omega (arith, size_mid, size_front, size) in
            let made = uzi_mk_dir mkdir (before ++ front) mode k in
            let later =
              loop_lem fuel path mid back made.0 made.1
                (whole ∙ sym (append_assoc (before ++ front) (slash ∷ []) back))
                (omega (arith, size_rest, enough)) in
            let listing : prefixes before rest ≡ (before ++ front) ∷ prefixes mid back =
              ap (prefixes before) parts ∙ prefixes_front before front back free in
            rw (ahead, mk_path_loop, e, listing, taken) (rw next at later)
      ]

  -- With more fuel than the path has bytes UziMkPath returns: it has made, in order and with any
  -- results, the directories that end before each separator and then the whole path, and its status
  -- is that of the last.
  pub mk_path_lem :
      (fuel : ℕ) (path : List ℕ) (k : K)
      → length path < fuel
      → uzi_mk_path mkdir fuel path mode k ≡ some (make_all (prefixes [] path) true k)
  unfolding uzi_mk_path
  mk_path_lem fuel path k enough = loop_lem fuel path [] path true k refl enough
