-- ===== src/Spiffs/Listing.antt =====
-- storage/storage_spiffs.c: Storage_ListKeys behind Storage_Write.
use mathlib.Core.List.{Memᴰ}
use test_controller.Base.{
  ℕ, zero, suc, ◌≤◌, ◌<◌, ◌≡◌, refl, sym, ap, ◌∙◌, ◌==◌, true, false, none, some, List, [], ◌∷◌,
  ◌++◌, CString, codes, str_eq, behind, length, length-append, arith, Bool-cases, Option-cases, inl,
  inr, if_true, if_false, if_either, not,
}
use test_controller.Base.Int.{pos}
use test_controller.Storage.Entries.{Domain}
use test_controller.Spiffs.{
  File, Spiffs, Drivers, put_file, is_cal, make_path, has_slash, entry_name, strip_json, file_key,
  keys_in, list_keys, write,
}
use test_controller.Spiffs.Slots.{IsShort, make_path-short, str_eq-length, str_eq_sym, write_file}

strip_json-json : (k : CString) → strip_json (k ++ codes ".json") ≡ some k
unfolding strip_json str_eq
strip_json-json [] = refl
strip_json-json (c ∷ k) =
    let longer : str_eq (c ∷ (k ++ codes ".json")) (codes ".json") ≡ false =
      str_eq_sym (c ∷ (k ++ codes ".json")) (codes ".json")
      ∙ str_eq-length (codes ".json") (c ∷ (k ++ codes ".json"))
          (ground (arith, length-append k (codes ".json"))) in
    if_false _ (str_eq (c ∷ (k ++ codes ".json")) (codes ".json")) longer
    ∙ rw (strip_json-json k) refl

behind-append : (p s : CString) → behind p (p ++ s) ≡ some s
unfolding behind
behind-append [] s = refl
behind-append (c ∷ p) s =
    let same : (c == c) ≡ true = ground arith in rw (same, behind-append p s) refl

has_slash-json : (k : CString) → has_slash k ≡ false → has_slash (k ++ codes ".json") ≡ false
unfolding has_slash
has_slash-json [] h = refl
has_slash-json (c ∷ k) h = elim (Bool-cases (c == 47)) [
  | inl slash ↦ let e = sym (if_true _ (c == 47) slash) ∙ h in absurd (ground (arith, e))
  | inr other ↦ rw other (has_slash-json k (sym (if_false _ (c == 47) other) ∙ h))
]

-- A file of the store has its key.
entry_name-make_path :
    (k : CString)
    → IsShort k
    → has_slash k ≡ false
    → entry_name (make_path k) ≡ some (k ++ codes ".json")
unfolding entry_name behind
entry_name-make_path k short plain =
    rw (make_path-short k short) (
      rw (behind-append (codes "/recipes/") (k ++ codes ".json"))
        (rw (has_slash-json k plain) refl))

put_file-Mem :
    (p : CString) (bytes : List ℕ) (fs : List File)
    → Memᴰ (record { path = p; bytes = bytes }) (put_file p bytes fs)
unfolding put_file
put_file-Mem p bytes [] = Memᴰ.head refl
put_file-Mem p bytes (f ∷ fs) = elim (Bool-cases (str_eq f.path p)) [
  | inl same ↦ rw same (Memᴰ.head refl)
  | inr other ↦ rw other (Memᴰ.tail (put_file-Mem p bytes fs))
]

keys_in-Mem :
    (dr : Drivers) (n : ℕ) (fs : List File) (f : File) (k : CString)
    → Memᴰ f fs
    → file_key f ≡ some k
    → dr.allocates (suc (length k)) ≡ true
    → length fs ≤ n
    → Memᴰ k (keys_in dr n fs)
unfolding keys_in
keys_in-Mem dr zero [] f k m h room fits = elim m [ ]
keys_in-Mem dr (suc n) [] f k m h room fits = elim m [ ]
keys_in-Mem dr zero (g ∷ fs) f k m h room fits = absurd (omega arith)
keys_in-Mem dr (suc n) (g ∷ fs) f k (Memᴰ.head e) h room fits =
    let key : file_key g ≡ some k = sym (ap file_key e) ∙ h in
    rw (key, keys_in) (rw room (Memᴰ.head refl))
keys_in-Mem dr (suc n) (g ∷ fs) f k (Memᴰ.tail m) h room fits = elim (Option-cases (file_key g)) [
  | inl none' ↦ rw (none', keys_in) (keys_in-Mem dr (suc n) fs f k m h room (omega arith))
  | inr (key, some') ↦
      rw (some', keys_in)
        (if_either (Memᴰ k) (dr.allocates (suc (length key)))
          (Memᴰ.tail (keys_in-Mem dr n fs f k m h room (omega arith)))
          (keys_in-Mem dr (suc n) fs f k m h room (omega arith)))
]

length-put_file :
    (p : CString) (bytes : List ℕ) (fs : List File) → length (put_file p bytes fs) ≤ suc (length fs)
unfolding put_file
length-put_file p bytes [] = omega arith
length-put_file p bytes (f ∷ fs) = elim (Bool-cases (str_eq f.path p)) [
  | inl same ↦ rw same (omega arith)
  | inr other ↦ rw other (omega (arith, length-put_file p bytes fs))
]

-- A key that a write of the file system stored is among the keys that Storage_ListKeys gives next, for
-- whichever domain it is asked: the write returned 0, the file system is mounted and its directory opens,
-- there is memory for the key, its path fits, it has no slash, and there is room for one key more than
-- the files before.
pub list_keys-write :
    (dr : Drivers) (s : Spiffs) (d : Domain) (k : CString) (bytes : List ℕ) (d' : Domain) (n : ℕ)
    → is_cal d ≡ false
    → s.s_mounted ≡ true
    → dr.opens_dir ≡ true
    → dr.allocates (suc (length k)) ≡ true
    → IsShort k
    → has_slash k ≡ false
    → length s.files < n
    → (write dr s d k bytes).1 ≡ pos 0
    → (ks : List CString) × (list_keys dr (write dr s d k bytes).0 d' n ≡ some ks) × Memᴰ k ks
unfolding list_keys
list_keys-write dr s d k bytes d' n c on dir room short plain fits done =
    let files = put_file (make_path k) bytes s.files in
    let key : file_key (record { path = make_path k; bytes = bytes }) ≡ some k =
      rw (entry_name-make_path k short plain, file_key) (strip_json-json k) in
    let there =
      keys_in-Mem dr n files (record { path = make_path k; bytes = bytes }) k
        (put_file-Mem (make_path k) bytes s.files) key room
        (omega (arith, length-put_file (make_path k) bytes s.files)) in
    (
      keys_in dr n files,
      ap (λ (x : Spiffs). list_keys dr x d' n) (write_file dr s d k bytes c done)
          ∙ if_false none (not s.s_mounted) (ap not on)
          ∙ if_true (some []) dr.opens_dir dir,
      there,
    )
