-- ===== src/Storage/Interface.antt =====
-- storage/storage.h as its clients see it: the calls, and the map from a domain and a key to bytes
-- that they keep. storage/storage_mock.c is filled in below.
use test_controller.Base.{
  ℕ, zero, suc, ◌≡◌, ◌<◌, ◌∙◌, ap, refl, Bool, true, false, take_all, ltb, Option, none, some, List,
  arith, CString, length, if◌then◌else◌,
}
use test_controller.Base.Int.{ℤ, pos, negsuc}
use test_controller.Storage.Entries.{Domain}
use test_controller.Storage.Search.{same_slot}
use test_controller.Storage.{
  Store, ok, store_value, read, write, delete, get_size, exists, list_keys,
}
use test_controller.Storage.Invariant.{Inv, write-Inv, delete-Inv}
use test_controller.Storage.Map.{
  lookup, read_result, size_result, exists_result, queries-lookup, lookup-write,
}
use test_controller.Storage.Unique.{IsUnique, write-IsUnique, delete-IsUnique, lookup-delete}

-- `n <= 0`
abbrev pub not_positive : ℤ → Bool
not_positive (pos zero) = true
not_positive (pos (suc n)) = false
not_positive (negsuc n) = true

-- `rc == 0`
abbrev pub is_ok : ℤ → Bool
is_ok (pos zero) = true
is_ok (pos (suc n)) = false
is_ok (negsuc n) = false

pub is_ok→eq : (n : ℤ) → is_ok n ≡ true → n ≡ pos 0
is_ok→eq (pos zero) h = refl
is_ok→eq (pos (suc n)) h = cc
is_ok→eq (negsuc n) h = cc

whole :
    (bytes : List ℕ)
    → ◌≡◌ {A = ℤ × List ℕ} (read_result (some bytes) (length bytes)) (pos (length bytes), bytes)
whole bytes = rw (not_less (length bytes), take_all (length bytes) bytes (omega arith)) refl
  where
    not_less : (n : ℕ) → ltb n n ≡ false
    not_less n = ground arith

pub positive : (n : ℕ) → 0 < n → not_positive (pos n) ≡ false
positive zero h = absurd (omega arith)
positive (suc n) h = refl

-- Storage_Read, _Write, _Delete, _GetSize, _Exists and _ListKeys, for keys and buffers that are no NULL.
pub record KeyValue : Type 1 where
  pub State : Type 0
  pub get : State → Domain → CString → ℕ → ℤ × List ℕ
  pub put : State → Domain → CString → List ℕ → State × ℤ
  pub remove : State → Domain → CString → State × ℤ
  pub size_of : State → Domain → CString → ℤ
  pub has : State → Domain → CString → ℤ
  pub keys : State → Domain → ℕ → Option (List CString)

-- What a client relies on, in the states that `IsReady` holds of.
pub record IsMap (kv : KeyValue) : Type 1 where
  pub IsReady : kv.State → Type 0
  pub entry : kv.State → Domain → CString → Option (List ℕ)
  pub get-entry :
      (s : kv.State) (d : Domain) (k : CString) (n : ℕ)
      → IsReady s
      → kv.get s d k n ≡ read_result (entry s d k) n
  pub size_of-entry :
      (s : kv.State) (d : Domain) (k : CString)
      → IsReady s
      → kv.size_of s d k ≡ size_result (entry s d k)
  pub has-entry :
      (s : kv.State) (d : Domain) (k : CString)
      → IsReady s
      → kv.has s d k ≡ exists_result (entry s d k)
  pub put-IsReady :
      (s : kv.State) (d : Domain) (k : CString) (bytes : List ℕ)
      → length k < 64
      → IsReady s
      → IsReady (kv.put s d k bytes).0
  pub entry-put :
      (s : kv.State) (d : Domain) (k : CString) (bytes : List ℕ) (d' : Domain) (k' : CString)
      → length k < 64
      → IsReady s
      → (kv.put s d k bytes).1 ≡ ok
      → entry (kv.put s d k bytes).0 d' k'
        ≡ (if same_slot d k d' k' then some bytes else entry s d' k')
  pub remove-IsReady :
      (s : kv.State) (d : Domain) (k : CString) → IsReady s → IsReady (kv.remove s d k).0
  pub entry-remove :
      (s : kv.State) (d : Domain) (k : CString) (d' : Domain) (k' : CString)
      → IsReady s
      → (kv.remove s d k).1 ≡ ok
      → entry (kv.remove s d k).0 d' k' ≡ (if same_slot d k d' k' then none else entry s d' k')

module _ (kv : KeyValue) (m : IsMap kv) (s : kv.State) (d : Domain) (k : CString)
    (bytes : List ℕ) where
  pub size_of-some :
      m.IsReady s → m.entry s d k ≡ some bytes → kv.size_of s d k ≡ pos (length bytes)
  size_of-some ready e = m.size_of-entry s d k ready ∙ ap size_result e

  pub get-some :
      m.IsReady s
      → m.entry s d k ≡ some bytes
      → kv.get s d k (length bytes) ≡ (pos (length bytes), bytes)
  get-some ready e =
      m.get-entry s d k (length bytes) ready
      ∙ ap (λ (o : Option (List ℕ)). read_result o (length bytes)) e
      ∙ whole bytes

abbrev pub mock_storage : KeyValue
mock_storage = record {
  State = Store;
  get = λ s d k n. read s d (some k) (some n);
  put = λ s d k bytes. write s d (some k) (some bytes);
  remove = λ s d k. delete s d (some k);
  size_of = λ s d k. get_size s d (some k);
  has = λ s d k. exists s d (some k);
  keys = λ s d n. list_keys s d n;
}

pub record IsOpen (s : Store) : Type 0 where
  pub kept : Inv s
  pub apart : IsUnique s.entries
  pub on : s.initialized ≡ true

pub write_on :
    (s : Store) (d : Domain) (k : CString) (bytes : List ℕ)
    → s.initialized ≡ true
    → (write s d (some k) (some bytes)).0.initialized ≡ true
unfolding write store_value
write_on s d k bytes h = ground arith

pub delete_on :
    (s : Store) (d : Domain) (k : CString)
    → s.initialized ≡ true
    → (delete s d (some k)).0.initialized ≡ true
unfolding delete
delete_on s d k h = ground arith

-- The mock is such a map, from its initialization on.
unfoldable pub mock_storage-IsMap : IsMap mock_storage
mock_storage-IsMap = record {
  IsReady = IsOpen;
  entry = lookup;
  get-entry = λ s d k n r. (queries-lookup s d k n r.kept r.on).0;
  size_of-entry = λ s d k r. (queries-lookup s d k 0 r.kept r.on).1;
  has-entry = λ s d k r. (queries-lookup s d k 0 r.kept r.on).2;
  put-IsReady = λ s d k bytes short r. record {
    kept = write-Inv s d (some k) (some bytes) r.kept;
    apart = write-IsUnique s d k (some bytes) short r.apart;
    on = write_on s d k bytes r.on;
  };
  entry-put = λ s d k bytes d' k' short r done. lookup-write s d k bytes d' k' short done;
  remove-IsReady = λ s d k r. record {
    kept = delete-Inv s d (some k) r.kept;
    apart = delete-IsUnique s d (some k) r.apart;
    on = delete_on s d k r.on;
  };
  entry-remove = λ s d k d' k' r done. lookup-delete s d k d' k' r.apart done;
}
