-- ===== src/Cal/Commands.antt =====
-- src/tc_cal.c: the console command cal. A command returns its exit status.
use test_controller.Base.{
  arg, ℕ, Bool, true, false, not, none, some, List, CString, codes, str_eq, length, ltb,
  if◌then◌else◌,
}
use test_controller.Base.Int.{ℤ, pos}
use test_controller.Base.Atoi.{atoi}
use test_controller.Json.{JsonApi}
use test_controller.Storage.Interface.{KeyValue}
use test_controller.Cal.{
  Floats, Calibration, channel, vdut_nch, ina_nch, adc_nch, set_vdut, set_ina_v, set_ina_i, set_adc,
}
use test_controller.Cal.Clock.{Clock}
use test_controller.Cal.Profile.{Files}
use test_controller.Cal.Stored.{Cal, reset, load, save}

-- What a run of the command meets: the clock, the files, and whether there is memory.
pub record Setting : Type 0 where
  pub clock : Clock
  pub files : Files
  pub memory : Bool

abbrev pub in_range : ℕ → ℤ → Bool
in_range n ch = elim (channel n ch) [ none ↦ false | some i ↦ true ]

module _ (fl : Floats) (js : JsonApi fl.Float) (kv : KeyValue) (strtof : CString → fl.Float) where
  open fl use {Float}

  abbrev pub State : Type 0
  State = Cal Float × kv.State

  abbrev pub with_cal : State → Calibration Float → State
  with_cal c s = (record (c.0) { s_cal = s }, c.1)

  unfoldable pub cal_vdut : List CString → State → State × ℤ
  cal_vdut argv c =
      let ch = atoi (arg argv 2) in
      if ltb (length argv) 5
      then (c, pos 1)
      else if not (in_range vdut_nch ch)
      then (c, pos 1)
      else (with_cal c (set_vdut ch (atoi (arg argv 3)) (atoi (arg argv 4)) c.0.s_cal), pos 0)

  unfoldable pub cal_vdut_duty : List CString → State → State × ℤ
  cal_vdut_duty argv c =
      if ltb (length argv) 4
      then (c, pos 1)
      else if not (in_range vdut_nch (atoi (arg argv 2)))
      then (c, pos 1)
      else (c, pos 0)

  unfoldable pub cal_ina : List CString → State → State × ℤ
  cal_ina argv c =
      let ch = atoi (arg argv 2) in
      let gain = strtof (arg argv 4) in
      let offset = atoi (arg argv 5) in
      if ltb (length argv) 6
      then (c, pos 1)
      else if not (in_range ina_nch ch)
      then (c, pos 1)
      else if str_eq (arg argv 3) (codes "v")
      then (with_cal c (set_ina_v fl ch gain offset c.0.s_cal), pos 0)
      else if str_eq (arg argv 3) (codes "i")
      then (with_cal c (set_ina_i fl ch gain offset c.0.s_cal), pos 0)
      else (c, pos 1)

  unfoldable pub cal_adc : List CString → State → State × ℤ
  cal_adc argv c =
      let ch = atoi (arg argv 2) in
      if ltb (length argv) 5
      then (c, pos 1)
      else if not (in_range adc_nch ch)
      then (c, pos 1)
      else (with_cal c (set_adc fl ch (strtof (arg argv 3)) (atoi (arg argv 4)) c.0.s_cal), pos 0)

  unfoldable pub cal_show : Setting → State → State × ℤ
  cal_show env c =
      if not c.0.s_loaded then (c, pos 1) else if not env.memory then (c, pos 1) else (c, pos 0)

  unfoldable pub cal_load : Setting → State → State × ℤ
  unfolding load
  cal_load env c = let r = load fl js kv env.clock env.files env.memory c.1 c.0 in ((r.0, c.1), r.1)

  unfoldable pub cal_save : Setting → State → State × ℤ
  unfolding save
  cal_save env c = let r = save fl js kv env.clock env.files env.memory c.1 c.0 in ((r.0, r.1), r.2)

  unfoldable pub do_cal : Setting → List CString → State → State × ℤ
  unfolding cal_show cal_load cal_save cal_vdut cal_vdut_duty cal_ina cal_adc reset
  do_cal env argv c =
      let word = arg argv 1 in
      if ltb (length argv) 2
      then (c, pos 1)
      else if str_eq word (codes "show")
      then cal_show env c
      else if str_eq word (codes "load")
      then cal_load env c
      else if str_eq word (codes "save")
      then cal_save env c
      else if str_eq word (codes "reset")
      then ((reset fl js kv c.0, c.1), pos 0)
      else if str_eq word (codes "vdut")
      then cal_vdut argv c
      else if str_eq word (codes "vdut-duty")
      then cal_vdut_duty argv c
      else if str_eq word (codes "ina")
      then cal_ina argv c
      else if str_eq word (codes "adc")
      then cal_adc argv c
      else (c, pos 1)
