-- ===== src/Config/Tests.antt =====
-- Runs of src/tc_config.c, with trees of whole numbers and the mock of the store.
use test_controller.Base.{
  ◌≡◌, inr, refl, none, some, [], ◌∷◌, arith, CString, codes, str_eq, truncated,
}
use test_controller.Base.Int.{pos, negsuc}
use test_controller.Json.Tree.{
  Tree, no_fields, field, int, str, item, delete_item, is_number, as_int,
}
use test_controller.Json.Tree.Text.{code}
use test_controller.Json.Tree.Instance.{tree, tree-IsJson}
use test_controller.Storage.{Store, mock_reset, init, write}
use test_controller.Storage.Entries.{find}
use test_controller.Storage.Interface.{mock_storage}
use test_controller.Config.{
  cut, segments, get_below, path_get, path_set, get_int, get_float, get_str, set_int, set_float,
  set_str, save,
}
use test_controller.Config.Paths.{reads-writes}

abbrev settings : Tree
settings = field no_fields (codes "settle_ms") (int (pos 300))

-- {"fixture_id": "UNSET", "vdut": {"settle_ms": 300}}
abbrev board : Tree
board = field (field no_fields (codes "fixture_id") (str (codes "UNSET"))) (codes "vdut") settings

abbrev slope : CString
slope = codes "vdut.slope_mv_per_pct"

segments-slope : segments slope ≡ (codes "vdut", codes "slope_mv_per_pct" ∷ [])
unfolding segments cut truncated
segments-slope = refl

settle : get_int tree (some board) (codes "vdut.settle_ms") (pos 0) ≡ pos 300
unfolding get_int path_get segments cut truncated get_below item str_eq is_number as_int
settle = refl

abbrev slope_key : CString
slope_key = codes "slope_mv_per_pct"

only_one :
    (child : Tree)
    → some settings ≡ some child
    → item (delete_item child slope_key) slope_key ≡ none
unfolding item delete_item str_eq
only_one child h = let absent : item (delete_item settings slope_key) slope_key ≡ none = refl in cc

reads-writes_example :
    (get_int tree (set_int tree slope (negsuc 86) (some board)) slope (pos 0) ≡ negsuc 86)
    × (get_float tree (set_float tree slope (pos 2) (some board)) slope (pos 0) ≡ pos 2)
    × (get_str tree (set_str tree slope (codes "x") (some board)) slope [] ≡ codes "x")
    × (path_get tree (path_set tree board slope (int (pos 1))) (codes "vdut.settle_ms")
        ≡ path_get tree board (codes "vdut.settle_ms"))
unfolding segments cut truncated item delete_item str_eq
reads-writes_example =
    reads-writes tree tree-IsJson board (int (pos 1)) slope (codes "vdut.settle_ms") (negsuc 86)
      (pos 0) (pos 2) (pos 0) (codes "x") [] (omega arith, omega arith) only_one (inr refl)

abbrev flash : Store
flash = (init mock_reset).0

saved_ok : (save tree mock_storage flash (some board)).1 ≡ pos 0
unfolding save write init code find
saved_ok = refl
