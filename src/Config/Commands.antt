-- ===== src/Config/Commands.antt =====
-- src/tc_config.c: tc_config_vdut_duty_for_mv and the console command config.
use test_controller.Base.{
  arg, Bool, Option, none, some, List, CString, codes, str_eq, length, ltb, if◌then◌else◌,
}
use test_controller.Base.Int.{ℤ, pos}
use test_controller.Json.{JsonApi}
use test_controller.Storage.Interface.{KeyValue}
use test_controller.Cal.{Calibration, duty_for_mv}
use test_controller.Config.{
  Config, path_get, reset_defaults, set_int, set_float, set_str, load, save,
}

-- It asks the calibration of VDUT1.
unfoldable pub config_duty_for_mv : {F : Type 0} → Calibration F → ℤ → ℤ
unfolding duty_for_mv
config_duty_for_mv c target_mv = duty_for_mv c (pos 0) target_mv

-- strtol and strtod of a whole text, `none` if they leave some of it or fail.
pub record Numbers (F : Type 0) : Type 0 where
  pub whole_long : CString → Option ℤ
  pub whole_double : CString → Option F

module _ {F : Type 0} (js : JsonApi F) (kv : KeyValue) (numbers : Numbers F) where
  abbrev State : Type 0
  State = Config js × kv.State

  -- The type of a value is that of its text.
  unfoldable pub set_typed : CString → CString → Config js → Config js
  set_typed path val c = elim (numbers.whole_long val) [
    | some n ↦ set_int js path n c
    | none ↦ elim (numbers.whole_double val) [
      | some x ↦ set_float js path x c
      | none ↦ set_str js path val c
    ]
  ]

  abbrev found : Option js.Json → ℤ
  found none = pos 1
  found (some item) = pos 0

  unfoldable pub config_get : CString → Config js → ℤ
  config_get path none = pos 1
  config_get path (some cfg) = found (path_get js cfg path)

  unfoldable pub config_show : Config js → ℤ
  config_show none = pos 1
  config_show (some cfg) = pos 0

  -- `has_buffer` is the answer of malloc in a load.
  unfoldable pub do_config : Bool → List CString → State → State × ℤ
  unfolding set_typed config_get config_show
  do_config has_buffer argv (c, s) =
      let word = arg argv 1 in
      if ltb (length argv) 2
      then ((c, s), pos 1)
      else if str_eq word (codes "show")
      then ((c, s), config_show c)
      else if str_eq word (codes "load")
      then (let r = load js kv has_buffer s in ((r.0, s), r.1))
      else if str_eq word (codes "save")
      then (let r = save js kv s c in ((c, r.0), r.1))
      else if str_eq word (codes "reset")
      then ((reset_defaults js, s), pos 0)
      else if str_eq word (codes "get")
      then (if ltb (length argv) 3 then ((c, s), pos 1) else ((c, s), config_get (arg argv 2) c))
      else if str_eq word (codes "set")
      then (if ltb (length argv) 4
          then ((c, s), pos 1)
          else ((set_typed (arg argv 2) (arg argv 3) c, s), pos 0))
      else if str_eq word (codes "vdut-duty")
      then (if ltb (length argv) 3 then ((c, s), pos 1) else ((c, s), pos 0))
      else ((c, s), pos 1)
