-- ===== src/Primitives.antt =====
-- src/recipe_primitives.c: the table from the names of the primitives to their functions.
pub mod Lookup
mod Tests
use test_controller.Base.{
  ℕ, Bool, true, false, Option, none, some, List, [], ◌∷◌, CString, codes, str_eq, if◌then◌else◌,
}

-- The functions of the table, by their names in the source.
pub data Primitive : Type 0 where
  run_i2c run_adc run_wifi run_ota run_vdut run_mux_scan run_dut_heartbeat run_dut_enter_test
        run_dut_version run_dut_hw_rev run_dut_vref run_dut_3v_rail run_dut_flash_test
        run_dut_rtc_read run_dut_exit_test run_power_check run_dut_program run_dut_read_id
        run_swd_probe run_mux_read run_dut_gpio_set run_dut_gpio_clear run_dut_pin_read
        run_dut_uc_adc_read run_dut_peripheral_adc_read run_dut_pwr_enable run_dut_pwr_disable
        run_dut_i2c_scan run_branch_test run_short_detect run_sig_inject run_sig_release
        run_button_test run_mux_snapshot run_mux_compare_snapshot run_ltc2498_snapshot
        run_ltc2498_compare_snapshot run_ina_read run_delay_ms :
      Primitive

-- primitive_entry_t
pub record PrimitiveEntry : Type 0 where
  pub id : CString
  pub fn : Primitive

abbrev pub entry : CString → Primitive → PrimitiveEntry
entry id fn = record { id = id; fn = fn }

unfoldable pub primitives : List PrimitiveEntry
primitives =
    entry (codes "i2c") run_i2c
    ∷ entry (codes "adc") run_adc
    ∷ entry (codes "wifi") run_wifi
    ∷ entry (codes "ota") run_ota
    ∷ entry (codes "vdut") run_vdut
    ∷ entry (codes "mux_scan") run_mux_scan
    ∷ entry (codes "dut_heartbeat") run_dut_heartbeat
    ∷ entry (codes "dut_enter_test") run_dut_enter_test
    ∷ entry (codes "dut_version") run_dut_version
    ∷ entry (codes "dut_hw_rev") run_dut_hw_rev
    ∷ entry (codes "dut_uc_adc_vref") run_dut_vref
    ∷ entry (codes "dut_uc_adc_3v_rail") run_dut_3v_rail
    ∷ entry (codes "dut_flash_test") run_dut_flash_test
    ∷ entry (codes "dut_rtc_read") run_dut_rtc_read
    ∷ entry (codes "dut_exit_test") run_dut_exit_test
    ∷ entry (codes "power_check") run_power_check
    ∷ entry (codes "dut_program") run_dut_program
    ∷ entry (codes "dut_read_id") run_dut_read_id
    ∷ entry (codes "swd_probe") run_swd_probe
    ∷ entry (codes "mux_read") run_mux_read
    ∷ entry (codes "dut_gpio_set") run_dut_gpio_set
    ∷ entry (codes "dut_gpio_clear") run_dut_gpio_clear
    ∷ entry (codes "dut_pin_read") run_dut_pin_read
    ∷ entry (codes "dut_uc_adc_read") run_dut_uc_adc_read
    ∷ entry (codes "dut_peripheral_adc_read") run_dut_peripheral_adc_read
    ∷ entry (codes "dut_pwr_enable") run_dut_pwr_enable
    ∷ entry (codes "dut_pwr_disable") run_dut_pwr_disable
    ∷ entry (codes "dut_i2c_scan") run_dut_i2c_scan
    ∷ entry (codes "branch_test") run_branch_test
    ∷ entry (codes "short_detect") run_short_detect
    ∷ entry (codes "sig_inject") run_sig_inject
    ∷ entry (codes "sig_release") run_sig_release
    ∷ entry (codes "button_test") run_button_test
    ∷ entry (codes "mux_snapshot") run_mux_snapshot
    ∷ entry (codes "mux_compare_snapshot") run_mux_compare_snapshot
    ∷ entry (codes "ltc2498_snapshot") run_ltc2498_snapshot
    ∷ entry (codes "ltc2498_compare_snapshot") run_ltc2498_compare_snapshot
    ∷ entry (codes "ina_read") run_ina_read
    ∷ entry (codes "delay_ms") run_delay_ms
    ∷ []

-- The loop of recipe_primitives_lookup.
unfoldable pub find_primitive : CString → List PrimitiveEntry → Option Primitive
find_primitive id [] = none
find_primitive id (e ∷ es) = if str_eq e.id id then some e.fn else find_primitive id es

-- recipe_primitives_lookup; `none` for a NULL argument and for NULL.
unfoldable pub lookup_primitive : Option CString → Option Primitive
unfolding find_primitive primitives
lookup_primitive none = none
lookup_primitive (some id) = find_primitive id primitives
