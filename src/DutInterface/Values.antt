-- ===== src/DutInterface/Values.antt =====
-- dut/dut_interface_mock.c: the numbers that the device sends.
use test_controller.Base.{
  behind, ℕ, suc, ◌%◌, ◌≤◌, ◌<◌, ◌≡◌, refl, ap, ◌∙◌, true, false, some, [], ◌∷◌, ◌++◌, CString,
  codes, truncated, length, All, ◌==◌, arith,
}
use test_controller.Base.Int.{pos, negsuc}
use test_controller.Base.Decimal.{
  decimal, strtoul, strtoul-decimal, length-decimal, decimal-IsDigit, decimal-Digital, Digital,
  IsDigit,
}
use test_controller.Uart.{Port, Uart}
use test_controller.Uart.Reading.{Holds}
use test_controller.DutInterface.{
  Response, DutState, Reply, no_response, skip_spaces, ok_response, error_response, parse_response,
  conclude, command, short_command, gpio_get, adc_read, value_of, inject_response,
}
use test_controller.DutInterface.Lines.{IsPlain}
use test_controller.DutInterface.Replies.{command-inject_response}

IsDigit-IsPlain : (cs : CString) → All IsDigit cs → All IsPlain cs
IsDigit-IsPlain [] h = tt
IsDigit-IsPlain (c ∷ cs) h =
    ((omega (arith, h.0.0), (ground (arith, h.0.0), ground (arith, h.0.0))), IsDigit-IsPlain cs h.1)

skip_spaces-Digital : (cs : CString) → Digital cs → skip_spaces (32 ∷ cs) ≡ cs
unfolding skip_spaces
skip_spaces-Digital [] d = absurd d
skip_spaces-Digital (c ∷ cs) d = let solid : (c == 32) ≡ false = ground (arith, d) in rw solid refl

value_of-response :
    (port ulong_max range : ℕ) (r : Reply) (x : Response)
    → r.status ≡ pos 0
    → r.response ≡ some x
    → value_of port ulong_max range r ≡ some (x.value % suc range)
value_of-response port ulong_max range r x ok given = rw (ok, given) refl

module _ (ulong_max : ℕ) (wide : 4294967295 ≤ ulong_max) where
  ok_response-Digital :
      (cs : CString)
      → Digital cs
      → ok_response ulong_max cs ≡ record {
        success = true;
        error_code = 0;
        value = strtoul ulong_max cs % 4294967296;
        text = truncated 256 cs;
      }
  unfolding ok_response
  ok_response-Digital [] d = absurd d
  ok_response-Digital (c ∷ cs) d = refl

  error_response-Digital :
      (cs : CString)
      → Digital cs
      → error_response ulong_max cs
        ≡ record no_response { error_code = strtoul ulong_max cs % 4294967296 }
  unfolding error_response
  error_response-Digital [] d = absurd d
  error_response-Digital (c ∷ cs) d = refl

  value-decimal : (n : ℕ) → n < 4294967296 → strtoul ulong_max (decimal n) % 4294967296 ≡ n
  value-decimal n h = rw (strtoul-decimal ulong_max n (omega arith)) (omega arith)

  parse_response-ok :
      (n : ℕ)
      → n < 4294967296
      → parse_response ulong_max (codes "OK " ++ decimal n)
        ≡ some
            (record { success = true; error_code = 0; value = n; text = truncated 256 (decimal n) })
  unfolding parse_response behind
  parse_response-ok n h = ap some (
      rw
        (
          skip_spaces-Digital (decimal n) (decimal-Digital n),
          ok_response-Digital (decimal n) (decimal-Digital n),
          value-decimal n h,
        )
        refl)

  parse_response-error :
      (n : ℕ)
      → n < 4294967296
      → parse_response ulong_max (codes "ERROR " ++ decimal n)
        ≡ some (record no_response { error_code = n })
  unfolding parse_response behind
  parse_response-error n h = ap some (
      rw
        (
          skip_spaces-Digital (decimal n) (decimal-Digital n),
          error_response-Digital (decimal n) (decimal-Digital n),
          value-decimal n h,
        )
        refl)

  -- A reply with a number is a line.
  ok_line :
      (n : ℕ)
      → n < 4294967296
      → All IsPlain (codes "OK " ++ decimal n) × (length (codes "OK " ++ decimal n) ≤ 255)
  ok_line n h = (
    (
      (omega arith, (refl, refl)),
      (
        (omega arith, (refl, refl)),
        ((omega arith, (refl, refl)), IsDigit-IsPlain (decimal n) (decimal-IsDigit n)),
      ),
    ),
    omega (arith, length-decimal 9 n (omega arith)),
  )

  error_line :
      (n : ℕ)
      → n < 4294967296
      → All IsPlain (codes "ERROR " ++ decimal n) × (length (codes "ERROR " ++ decimal n) ≤ 255)
  error_line n h = (
    (
      (omega arith, (refl, refl)),
      (
        (omega arith, (refl, refl)),
        (
          (omega arith, (refl, refl)),
          (
            (omega arith, (refl, refl)),
            (
              (omega arith, (refl, refl)),
              ((omega arith, (refl, refl)), IsDigit-IsPlain (decimal n) (decimal-IsDigit n)),
            ),
          ),
        ),
      ),
    ),
    omega (arith, length-decimal 9 n (omega arith)),
  )

  module _ (port : ℕ) (d : DutState) (u : Uart) (p : Port) (on : d.initialized ≡ true)
      (h : Holds port u p) where
    command-ok :
        (text : CString) (n : ℕ)
        → n < 4294967296
        → let r =
            command port ulong_max text
              (d, inject_response port ulong_max (codes "OK " ++ decimal n) u) in
          (r.status ≡ pos 0)
          × (r.response
              ≡ some (record {
                success = true;
                error_code = 0;
                value = n;
                text = truncated 256 (decimal n);
              }))
    unfolding conclude
    command-ok text n small =
        let (plain, short) = ok_line n small in
        let (v, ends, rest) =
          command-inject_response port ulong_max text (codes "OK " ++ decimal n) d u p on h plain
            short in
        let parsed = parse_response-ok n small in
        (
          ap (λ (r : Reply). r.status) ends ∙ rw (parsed, conclude) refl,
          ap (λ (r : Reply). r.response) ends ∙ rw (parsed, conclude) refl,
        )

    -- A reading of the device that fits the type of the result is the one that it sent in decimal digits,
    -- and so is the level of a pin; the interface and its port are initialised, and unsigned long has at
    -- least 32 bits.
    pub reads-decimal :
        (channel bank pin reading level : ℕ)
        → reading < 65536
        → level < 256
        → ((adc_read port ulong_max channel
              (d, inject_response port ulong_max (codes "OK " ++ decimal reading) u)).1
            ≡ some reading)
          × ((gpio_get port ulong_max bank pin
                (d, inject_response port ulong_max (codes "OK " ++ decimal level) u)).1
              ≡ some level)
    unfolding adc_read gpio_get short_command
    reads-decimal channel bank pin reading level small tiny =
        let (ok1, r1) =
          command-ok (truncated 64 (codes "ADC_READ " ++ decimal channel)) reading (omega arith) in
        let (ok2, r2) =
          command-ok (truncated 64 (codes "GPIO_GET " ++ decimal bank ++ codes " " ++ decimal pin))
            level (omega arith) in
        let analog : Reply =
          (adc_read port ulong_max channel
            (d, inject_response port ulong_max (codes "OK " ++ decimal reading) u)).0 in
        let digital : Reply =
          (gpio_get port ulong_max bank pin
            (d, inject_response port ulong_max (codes "OK " ++ decimal level) u)).0 in
        let fits1 : reading % 65536 ≡ reading = omega arith in
        let fits2 : level % 256 ≡ level = omega arith in
        (
          value_of-response port ulong_max 65535 analog _ ok1 r1 ∙ ap some fits1,
          value_of-response port ulong_max 255 digital _ ok2 r2 ∙ ap some fits2,
        )

    -- An error that the device sends makes the command fail, and its code is the last error, 0 included,
    -- which is the code of success; the conditions are those of a reading.
    pub errors-decimal :
        (text : CString) (n : ℕ)
        → n < 4294967296
        → let r =
            command port ulong_max text
              (d, inject_response port ulong_max (codes "ERROR " ++ decimal n) u) in
          (r.status ≡ negsuc 0) × (r.dut.last_error ≡ n)
    unfolding conclude
    errors-decimal text n small =
        let (plain, short) = error_line n small in
        let (v, ends, rest) =
          command-inject_response port ulong_max text (codes "ERROR " ++ decimal n) d u p on h plain
            short in
        let parsed = parse_response-error n small in
        (
          ap (λ (r : Reply). r.status) ends ∙ rw (parsed, conclude) refl,
          ap (λ (r : Reply). r.dut.last_error) ends ∙ rw (parsed, conclude) refl,
        )
