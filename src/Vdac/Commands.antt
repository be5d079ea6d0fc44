-- ===== src/Vdac/Commands.antt =====
-- src/cmd_vdac.c: the console commands vdac_duty, vdac_voltage and vdac off. An argument vector is the
-- list of its strings, the command's name first; a command returns its exit status.
use test_controller.Base.{
  ℕ, Bool, true, false, not, ◌&&◌, ◌||◌, List, [], ◌∷◌, CString, codes, str_eq, ltb, if◌then◌else◌,
}
use test_controller.Base.Int.{ℤ, pos, negsuc}
use test_controller.Base.Atoi.{atoi}
use test_controller.Cal.{Calibration}
use test_controller.Vdac.{
  Vdac, Conditions, Channel, vdut1, vdut2, is_guarded, set_duty, set_enable, set_voltage,
}

-- Whether the word names the channel: its number, or "both".
unfoldable pub selects : Channel → CString → Bool
selects vdut1 who = str_eq who (codes "1") || str_eq who (codes "both")
selects vdut2 who = str_eq who (codes "2") || str_eq who (codes "both")

-- One channel of a command: the level is set first, the regulator is switched on if it is off.
unfoldable pub switch_on : Conditions → Channel → Vdac × Bool → Vdac × Bool
unfolding set_enable
switch_on k ch (s, driven) =
    if not driven
    then (s, false)
    else if s.enabled ch
    then (s, true)
    else ((set_enable k ch true s).0, true)

-- One channel, if the word names it.
unfoldable pub drive_channel :
    Conditions → (Channel → Vdac → Vdac × Bool) → CString → Channel → Vdac → Vdac × Bool
unfolding switch_on selects
drive_channel k drive who ch s = if selects ch who then switch_on k ch (drive ch s) else (s, true)

-- The channels that the word names in turn; the first that is refused ends the command.
unfoldable pub drive_channels :
    Conditions → (Channel → Vdac → Vdac × Bool) → CString → Vdac → Vdac × ℕ
unfolding drive_channel selects
drive_channels k drive who s =
    let (s1, ok1) = drive_channel k drive who vdut1 s in
    let (s2, ok2) = drive_channel k drive who vdut2 s1 in
    if not (selects vdut1 who) && not (selects vdut2 who)
    then (s, 1)
    else if not ok1
    then (s1, 1)
    else if not ok2
    then (s2, 1)
    else (s2, 0)

unfoldable pub duty_command : Conditions → CString → ℤ → Vdac → Vdac × ℕ
unfolding drive_channels set_duty
duty_command k who (negsuc n) s = (s, 1)
duty_command k who (pos duty) s =
    if ltb 100 duty
    then (s, 1)
    else if ltb duty 75 && is_guarded k
    then (s, 1)
    else drive_channels k (λ ch. set_duty k ch duty) who s

unfoldable pub do_vdac_duty : Conditions → List CString → Vdac → Vdac × ℕ
unfolding duty_command
do_vdac_duty k [] s = (s, 1)
do_vdac_duty k (name ∷ []) s = (s, 1)
do_vdac_duty k (name ∷ (who ∷ [])) s = (s, 1)
do_vdac_duty k (name ∷ (who ∷ (percent ∷ rest))) s = duty_command k who (atoi percent) s

unfoldable pub do_vdac_voltage :
    {F : Type 0} → Calibration F → Conditions → List CString → Vdac → Vdac × ℕ
unfolding drive_channels set_voltage
do_vdac_voltage c k [] s = (s, 1)
do_vdac_voltage c k (name ∷ []) s = (s, 1)
do_vdac_voltage c k (name ∷ (who ∷ [])) s = (s, 1)
do_vdac_voltage c k (name ∷ (who ∷ (millivolts ∷ rest))) s =
    drive_channels k (λ ch. set_voltage c k ch (atoi millivolts)) who s

unfoldable pub do_vdac_off : Conditions → Vdac → Vdac × ℕ
unfolding set_duty set_enable
do_vdac_off k s =
    let idle = (set_duty k vdut2 0 (set_duty k vdut1 0 s).0).0 in
    ((set_enable k vdut2 false (set_enable k vdut1 false idle).0).0, 0)
