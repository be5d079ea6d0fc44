-- ===== src/Vdac/Sessions.antt =====
-- Sequences of the console commands of src/cmd_vdac.c while a device may be seated.
use test_controller.Base.{
  All, ℕ, ◌≡◌, refl, true, false, ◌&&◌, Option, List, [], ◌∷◌, CString, ltb, if_either,
}
use test_controller.Base.Int.{ℤ, pos, negsuc}
use test_controller.Base.Atoi.{atoi}
use test_controller.Cal.{Calibration}
use test_controller.Vdac.{
  Vdac, Conditions, Channel, vdut1, vdut2, is_guarded, set_duty, set_voltage, disable, initial_vdac,
}
use test_controller.Vdac.Commands.{duty_command, do_vdac_duty, do_vdac_voltage, do_vdac_off}
use test_controller.Vdac.Characterize.{Sweep, CharResult, do_vdac_char, start_channels, is_present}
use test_controller.Vdac.Interlock.{
  Safe, drive_channels-Safe, set_duty-Drives, set_voltage-Drives, switch_off,
}

do_vdac_duty-Safe :
    (k : Conditions) (argv : List CString) (s : Vdac)
    → is_guarded k ≡ true
    → Safe s
    → Safe (do_vdac_duty k argv s).0
unfolding do_vdac_duty duty_command
do_vdac_duty-Safe k [] s guard v = v
do_vdac_duty-Safe k (name ∷ []) s guard v = v
do_vdac_duty-Safe k (name ∷ (who ∷ [])) s guard v = v
do_vdac_duty-Safe k (name ∷ (who ∷ (percent ∷ rest))) s guard v = by_percent (atoi percent)
  where
    by_percent : (d : ℤ) → Safe (duty_command k who d s).0
    by_percent (negsuc n) = v
    by_percent (pos duty) =
        let P : Vdac × ℕ → Type 0 = λ r. Safe r.0 in
        if_either P (ltb 100 duty) v (
          if_either P (ltb duty 75 && is_guarded k) v (
            drive_channels-Safe k (λ ch. set_duty k ch duty) who s
              (λ ch. set_duty-Drives k ch duty guard) v))

do_vdac_voltage-Safe :
    {F : Type 0} (c : Calibration F) (k : Conditions) (argv : List CString) (s : Vdac)
    → is_guarded k ≡ true
    → Safe s
    → Safe (do_vdac_voltage c k argv s).0
unfolding do_vdac_voltage
do_vdac_voltage-Safe c k [] s guard v = v
do_vdac_voltage-Safe c k (name ∷ []) s guard v = v
do_vdac_voltage-Safe c k (name ∷ (who ∷ [])) s guard v = v
do_vdac_voltage-Safe c k (name ∷ (who ∷ (millivolts ∷ rest))) s guard v =
    drive_channels-Safe k (λ ch. set_voltage c k ch (atoi millivolts)) who s
      (λ ch. set_voltage-Drives c k ch (atoi millivolts) guard) v

do_vdac_off-Safe :
    (k : Conditions) (s : Vdac) → is_guarded k ≡ true → Safe s → Safe (do_vdac_off k s).0
unfolding do_vdac_off
do_vdac_off-Safe k s guard v = switch_off k vdut2 _ (
    switch_off k vdut1 _
      ((set_duty-Drives k vdut2 0 guard _ (set_duty-Drives k vdut1 0 guard s v).0).0))

disable-Safe :
    (k : Conditions) (ch : Channel) (s : Vdac)
    → is_guarded k ≡ true
    → Safe s
    → Safe (disable k ch s).0
unfolding disable
disable-Safe k ch s guard v = switch_off k ch _ (set_duty-Drives k ch 0 guard s v).0

set_duty-low :
    (k : Conditions) (ch : Channel) (s : Vdac)
    → is_guarded k ≡ true
    → set_duty k ch 0 s ≡ (s, false)
unfolding set_duty
set_duty-low k ch s guard = rw (guard, set_duty) refl

-- While a device may be seated, `vdac char` changes neither the regulators nor the calibration, and
-- reports an error, whatever its own sample says.
pub do_vdac_char-refused :
    {F : Type 0} (sample : Option ℕ) (k : Conditions) (w : Sweep) (last : Conditions)
    (c : Calibration F) (s : Vdac)
    → is_guarded k ≡ true
    → do_vdac_char sample k w last c s
      ≡ record { vdac = s; calibration = c; saved = false; status = 1 }
unfolding do_vdac_char start_channels
do_vdac_char-refused {F = F} sample k w last c s guard =
    rw (set_duty-low k vdut1 s guard, do_vdac_char, start_channels)
      (if_either
        (λ (r : CharResult F). r ≡ record { vdac = s; calibration = c; saved = false; status = 1 })
        (is_present sample) refl refl)

-- A command with what it meets.
pub data Command (F : Type 0) : Type 0 where
  duty : Conditions → List CString → Command F
  voltage : Conditions → List CString → Command F
  off : Conditions → Command F
  char : Option ℕ → Conditions → Sweep → Conditions → Command F
  shut : Conditions → Channel → Command F  -- vdac_disable, which the abort of a recipe calls

-- A device may be seated when the command runs.
unfoldable pub IsGuarded : {F : Type 0} → Command F → Type 0
IsGuarded (duty k argv) = is_guarded k ≡ true
IsGuarded (voltage k argv) = is_guarded k ≡ true
IsGuarded (off k) = is_guarded k ≡ true
IsGuarded (char sample k w last) = is_guarded k ≡ true
IsGuarded (shut k ch) = is_guarded k ≡ true

unfoldable pub perform : {F : Type 0} → Command F → Calibration F × Vdac → Calibration F × Vdac
unfolding do_vdac_duty do_vdac_voltage do_vdac_off do_vdac_char disable
perform (duty k argv) (c, s) = (c, (do_vdac_duty k argv s).0)
perform (voltage k argv) (c, s) = (c, (do_vdac_voltage c k argv s).0)
perform (off k) (c, s) = (c, (do_vdac_off k s).0)
perform (char sample k w last) (c, s) =
    let r = do_vdac_char sample k w last c s in (r.calibration, r.vdac)
perform (shut k ch) (c, s) = (c, (disable k ch s).0)

unfoldable pub perform_all :
    {F : Type 0} → List (Command F) → Calibration F × Vdac → Calibration F × Vdac
unfolding perform
perform_all [] r = r
perform_all (x ∷ xs) r = perform_all xs (perform x r)

perform-Safe :
    {F : Type 0} (x : Command F) (c : Calibration F) (s : Vdac)
    → IsGuarded x
    → Safe s
    → Safe (perform x (c, s)).1
unfolding perform IsGuarded
perform-Safe (duty k argv) c s guard v = do_vdac_duty-Safe k argv s guard v
perform-Safe (voltage k argv) c s guard v = do_vdac_voltage-Safe c k argv s guard v
perform-Safe (off k) c s guard v = do_vdac_off-Safe k s guard v
perform-Safe (char sample k w last) c s guard v =
    rw (do_vdac_char-refused sample k w last c s guard, perform) v
perform-Safe (shut k ch) c s guard v = disable-Safe k ch s guard v

perform_all-Safe :
    {F : Type 0} (xs : List (Command F)) (c : Calibration F) (s : Vdac)
    → All IsGuarded xs
    → Safe s
    → Safe (perform_all xs (c, s)).1
unfolding perform_all
perform_all-Safe [] c s guards v = v
perform_all-Safe (x ∷ xs) c s guards v =
    perform_all-Safe xs (perform x (c, s)).0 (perform x (c, s)).1 guards.1
      (perform-Safe x c s guards.0 v)

-- From the start, while a device may be seated, no sequence of commands switches a regulator on over
-- a channel whose duty is below 75 %, whatever the drivers answer and however it is calibrated.
pub interlock :
    {F : Type 0} (xs : List (Command F)) (c : Calibration F)
    → All IsGuarded xs
    → Safe (perform_all xs (c, initial_vdac)).1
unfolding initial_vdac Safe
interlock xs c guards = perform_all-Safe xs c initial_vdac guards (λ ch e. absurd (cc))
