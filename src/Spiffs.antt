-- ===== src/Spiffs.antt =====
-- storage/storage_spiffs.c: the store of the device, files of LittleFS and the blobs of the NVS name space
-- cal. The drivers answer as an argument says, and erasing a key works; a directory is read in the order
-- of the list of files.
pub mod Slots
pub mod Collision
pub mod Listing
mod Tests
use test_controller.Base.{
  ℕ, zero, suc, ◌-◌, ◌==◌, Bool, true, false, not, ◌&&◌, Option, none, some, List, [], ◌∷◌, ◌++◌,
  CString, codes, str_eq, truncated, behind, length, take, ltb, if◌then◌else◌,
}
use test_controller.Base.Int.{ℤ, pos, negsuc}
use test_controller.Storage.Entries.{Domain, calibration, domain_eq}
use test_controller.Storage.Interface.{KeyValue}

pub record File : Type 0 where
  pub path : CString
  pub bytes : List ℕ

-- s_mounted, the files, and the blobs of the name space by their keys.
pub record Spiffs : Type 0 where
  pub s_mounted : Bool
  pub files : List File
  pub cal : List File

-- Whether the file system mounts, a file opens for writing, how many bytes of so many fwrite takes, whether
-- the directory opens, whether malloc gives so many bytes, whether the name space opens, and whether it
-- takes a blob.
pub record Drivers : Type 0 where
  pub mounts : Bool
  pub opens : Bool
  pub takes : ℕ → ℕ
  pub opens_dir : Bool
  pub allocates : ℕ → Bool
  pub nvs_opens : Bool
  pub nvs_sets : Bool

unfoldable pub file_at : CString → List File → Option (List ℕ)
file_at path [] = none
file_at path (f ∷ fs) =
    let rest = file_at path fs in if str_eq f.path path then some f.bytes else rest

unfoldable pub put_file : CString → List ℕ → List File → List File
put_file path bytes [] = record { path = path; bytes = bytes } ∷ []
put_file path bytes (f ∷ fs) =
    let rest = put_file path bytes fs in
    if str_eq f.path path then record { path = path; bytes = bytes } ∷ fs else f ∷ rest

unfoldable pub drop_file : CString → List File → List File
drop_file path [] = []
drop_file path (f ∷ fs) =
    let rest = drop_file path fs in if str_eq f.path path then rest else f ∷ rest

abbrev pub is_cal : Domain → Bool
is_cal d = domain_eq d calibration

unfoldable pub make_path : CString → CString
make_path key = truncated 296 (codes "/recipes/" ++ (key ++ codes ".json"))

unfoldable pub mount : Drivers → Spiffs → Spiffs × ℤ
mount dr s =
    if s.s_mounted
    then (s, pos 0)
    else if dr.mounts
    then (record s { s_mounted = true }, pos 0)
    else (s, negsuc 0)

unfoldable pub unmount : Spiffs → Spiffs × ℤ
unmount s = (record s { s_mounted = false }, pos 0)

-- nvs_get_blob refuses a buffer that is too small.
unfoldable pub nvs_cal_read : Drivers → Spiffs → CString → ℕ → ℤ × List ℕ
nvs_cal_read dr s key n = if not dr.nvs_opens then (pos 0, []) else elim (file_at key s.cal) [
  | none ↦ (pos 0, [])
  | some bytes ↦ if ltb n (length bytes) then (negsuc 0, []) else (pos (length bytes), bytes)
]

unfoldable pub nvs_cal_size : Drivers → Spiffs → CString → ℤ
nvs_cal_size dr s key =
    if not dr.nvs_opens
    then pos 0
    else elim (file_at key s.cal) [ none ↦ pos 0 | some bytes ↦ pos (length bytes) ]

unfoldable pub nvs_cal_write : Drivers → Spiffs → CString → List ℕ → Spiffs × ℤ
nvs_cal_write dr s key bytes =
    if dr.nvs_opens && dr.nvs_sets
    then (record s { cal = put_file key bytes s.cal }, pos 0)
    else (s, negsuc 0)

unfoldable pub nvs_cal_delete : Drivers → Spiffs → CString → Spiffs × ℤ
nvs_cal_delete dr s key =
    if dr.nvs_opens then (record s { cal = drop_file key s.cal }, pos 0) else (s, negsuc 0)

unfoldable pub read : Drivers → Spiffs → Domain → CString → ℕ → ℤ × List ℕ
unfolding nvs_cal_read
read dr s d key n =
    if is_cal d
    then nvs_cal_read dr s key n
    else if not s.s_mounted
    then (negsuc 0, [])
    else elim (file_at (make_path key) s.files) [
      | none ↦ (pos 0, [])
      | some bytes ↦ (pos (if ltb n (length bytes) then n else length bytes), take n bytes)
    ]

-- Behind fopen, which empties the file: what fwrite takes is in it.
unfoldable pub written : Drivers → Spiffs → CString → List ℕ → Spiffs × ℤ
written dr s path bytes =
    let n = dr.takes (length bytes) in
    (
      record s { files = put_file path (take n bytes) s.files },
      if n == length bytes then pos 0 else negsuc 0,
    )

unfoldable pub write : Drivers → Spiffs → Domain → CString → List ℕ → Spiffs × ℤ
unfolding nvs_cal_write written
write dr s d key bytes =
    if is_cal d
    then nvs_cal_write dr s key bytes
    else if not s.s_mounted
    then (s, negsuc 0)
    else if dr.opens
    then written dr s (make_path key) bytes
    else (s, negsuc 0)

unfoldable pub delete : Drivers → Spiffs → Domain → CString → Spiffs × ℤ
unfolding nvs_cal_delete
delete dr s d key =
    if is_cal d
    then nvs_cal_delete dr s key
    else if not s.s_mounted
    then (s, negsuc 0)
    else elim (file_at (make_path key) s.files) [
      | none ↦ (s, negsuc 0)
      | some bytes ↦ (record s { files = drop_file (make_path key) s.files }, pos 0)
    ]

unfoldable pub get_size : Drivers → Spiffs → Domain → CString → ℤ
unfolding nvs_cal_size
get_size dr s d key =
    if is_cal d
    then nvs_cal_size dr s key
    else if not s.s_mounted
    then negsuc 0
    else elim (file_at (make_path key) s.files) [ none ↦ pos 0 | some bytes ↦ pos (length bytes) ]

abbrev pub positive_size : ℤ → ℤ
positive_size (pos zero) = pos 0
positive_size (pos (suc n)) = pos 1
positive_size (negsuc n) = pos 0

unfoldable pub exists : Drivers → Spiffs → Domain → CString → ℤ
unfolding nvs_cal_size
exists dr s d key =
    if is_cal d
    then positive_size (nvs_cal_size dr s key)
    else if not s.s_mounted
    then negsuc 0
    else elim (file_at (make_path key) s.files) [ none ↦ pos 0 | some bytes ↦ pos 1 ]

-- The name of an entry of the directory.
unfoldable pub has_slash : CString → Bool
has_slash [] = false
has_slash (c ∷ cs) = let rest = has_slash cs in if c == 47 then true else rest

unfoldable pub entry_name : CString → Option CString
unfolding has_slash
entry_name path = elim (behind (codes "/recipes/") path) [
  | none ↦ none
  | some name ↦ if has_slash name then none else some name
]

-- The text in front of a last ".json", which has one dot only.
unfoldable pub strip_json : CString → Option CString
strip_json [] = none
strip_json (c ∷ cs) =
    let rest = strip_json cs in
    if str_eq (c ∷ cs) (codes ".json")
    then some []
    else elim rest [ none ↦ none | some stem ↦ some (c ∷ stem) ]

abbrev pub file_key : File → Option CString
file_key f = elim (entry_name f.path) [ none ↦ none | some name ↦ strip_json name ]

-- The loop of Storage_ListKeys, for as many keys as are wanted; a key without memory is passed over.
unfoldable pub keys_in : Drivers → ℕ → List File → List CString
keys_in dr zero fs = []
keys_in dr (suc n) [] = []
keys_in dr (suc n) (f ∷ fs) =
    let skipped = keys_in dr (suc n) fs in
    let rest = keys_in dr n fs in
    elim (file_key f) [
      | none ↦ skipped
      | some key ↦ if dr.allocates (suc (length key)) then key ∷ rest else skipped
    ]

unfoldable pub list_keys : Drivers → Spiffs → Domain → ℕ → Option (List CString)
unfolding keys_in
list_keys dr s d n =
    if not s.s_mounted then none else if dr.opens_dir then some (keys_in dr n s.files) else some []

-- The loop of Storage_ClearDomain.
unfoldable pub cleared : List File → List File
unfolding entry_name
cleared [] = []
cleared (f ∷ fs) =
    let rest = cleared fs in elim (entry_name f.path) [ none ↦ f ∷ rest | some name ↦ rest ]

unfoldable pub clear_domain : Drivers → Spiffs → Domain → Spiffs × ℤ
unfolding cleared
clear_domain dr s d =
    if not s.s_mounted
    then (s, negsuc 0)
    else if dr.opens_dir
    then (record s { files = cleared s.files }, pos 0)
    else (s, negsuc 0)

-- The store of the device as its clients see it.
abbrev pub spiffs : Drivers → KeyValue
spiffs dr = record {
  State = Spiffs;
  get = read dr;
  put = write dr;
  remove = delete dr;
  size_of = get_size dr;
  has = exists dr;
  keys = list_keys dr;
}
