-- ===== src/Dut/Sample.antt =====
-- src/dut_detect.c: dut_detect_sample, as the calls that it makes on the bus and the multiplexers.
use test_controller.Base.{
  ℕ, ◌+◌, ◌*◌, ◌/◌, ◌≡◌, refl, Bool, true, false, not, Option, none, some, List, [], ◌∷◌, ◌++◌,
  if◌then◌else◌, ◌⊎◌, inl, inr, Bool-cases, if_either,
}

pub data Call : Type 0 where
  i2c_lock : Call
  i2c_unlock : Call
  u8_mux_select : ℕ → ℕ → Call
  u8_mux_release : Call
  tie_mux_select : ℕ → ℕ → Call
  i2c_write_reg : ℕ → ℕ → ℕ → Call
  i2c_read_reg : ℕ → ℕ → Call

-- What the calls answer.
pub record Answers : Type 0 where
  pub lock : Bool
  pub initialized : Bool
  pub write_ok : ℕ → Bool  -- by register
  pub bytes : Option (ℕ × ℕ)  -- the two bytes that are read

abbrev pub adc128 : ℕ
adc128 = 29

abbrev pub adc128_vref_mv : ℕ
adc128_vref_mv = 3000

abbrev pub adc128_full : ℕ
adc128_full = 4096

-- ((b0 << 8) | b1) >> 4, scaled to the reference; the bytes are below 256.
unfoldable pub raw_mv : ℕ × ℕ → ℕ
raw_mv (b0, b1) = (b0 * 256 + b1) / 16 * adc128_vref_mv / adc128_full

-- The writes that start the converter, up to the first that fails.
unfoldable pub write_regs : Answers → List (ℕ × ℕ) → List Call × Bool
write_regs a [] = ([], true)
write_regs a ((reg, value) ∷ rest) =
    let (calls, ok) = write_regs a rest in
    if a.write_ok reg
    then (i2c_write_reg adc128 reg value ∷ calls, ok)
    else (i2c_write_reg adc128 reg value ∷ [], false)

abbrev start_regs : List (ℕ × ℕ)
start_regs = (11, 3) ∷ ((7, 1) ∷ ((0, 1) ∷ []))

-- u8_mux_release and i2c_unlock, which end each path behind the lock.
abbrev pub let_go : List Call
let_go = u8_mux_release ∷ (i2c_unlock ∷ [])

-- The calls between the lock and the release, and the reading.
unfoldable pub measure : Answers → List Call × Option ℕ
unfolding write_regs raw_mv
measure a =
    if not a.initialized
    then (u8_mux_select 3 1 ∷ [], none)
    else let (writes, ok) = write_regs a start_regs in
      if not ok then (u8_mux_select 3 1 ∷ writes, none) else (
        u8_mux_select 3 1 ∷ (writes ++ tie_mux_select 1 12 ∷ (i2c_read_reg adc128 33 ∷ [])),
        elim a.bytes [ none ↦ none | some bytes ↦ some (raw_mv bytes) ],
      )

-- dut_detect_sample: the calls, and the reading, `none` when it fails.
unfoldable pub sample : Answers → List Call × Option ℕ
unfolding measure
sample a =
    if not a.lock
    then (i2c_lock ∷ [], none)
    else (i2c_lock ∷ ((measure a).0 ++ let_go), (measure a).1)

-- No call of the list takes or gives back the bus or the multiplexer's signal.
unfoldable pub NoRelease : List Call → Type 0
NoRelease [] = Unit
NoRelease (i2c_lock ∷ cs) = ⊥
NoRelease (i2c_unlock ∷ cs) = ⊥
NoRelease (u8_mux_release ∷ cs) = ⊥
NoRelease (u8_mux_select ch sig ∷ cs) = NoRelease cs
NoRelease (tie_mux_select mux ch ∷ cs) = NoRelease cs
NoRelease (i2c_write_reg dev reg v ∷ cs) = NoRelease cs
NoRelease (i2c_read_reg dev reg ∷ cs) = NoRelease cs

NoRelease-append : (cs ds : List Call) → NoRelease cs → NoRelease ds → NoRelease (cs ++ ds)
unfolding NoRelease
NoRelease-append [] ds h k = k
NoRelease-append (u8_mux_select ch sig ∷ cs) ds h k = NoRelease-append cs ds h k
NoRelease-append (tie_mux_select mux ch ∷ cs) ds h k = NoRelease-append cs ds h k
NoRelease-append (i2c_write_reg dev reg v ∷ cs) ds h k = NoRelease-append cs ds h k
NoRelease-append (i2c_read_reg dev reg ∷ cs) ds h k = NoRelease-append cs ds h k
NoRelease-append (i2c_lock ∷ cs) ds h k = absurd h
NoRelease-append (i2c_unlock ∷ cs) ds h k = absurd h
NoRelease-append (u8_mux_release ∷ cs) ds h k = absurd h

write_regs-NoRelease : (a : Answers) (regs : List (ℕ × ℕ)) → NoRelease (write_regs a regs).0
unfolding write_regs NoRelease
write_regs-NoRelease a [] = tt
write_regs-NoRelease a ((reg, value) ∷ rest) =
    if_either (λ (r : List Call × Bool). NoRelease r.0) (a.write_ok reg)
      (write_regs-NoRelease a rest) tt

measure-NoRelease : (a : Answers) → NoRelease (measure a).0
unfolding measure NoRelease
measure-NoRelease a =
    let P : List Call × Option ℕ → Type 0 = λ r. NoRelease r.0 in
    if_either P (not a.initialized) tt (
      if_either P (not (write_regs a start_regs).1) (write_regs-NoRelease a start_regs)
        (NoRelease-append (write_regs a start_regs).0 _ (write_regs-NoRelease a start_regs) tt))

-- Whatever the bus answers, a sample that gets the lock releases the multiplexer and then the lock as
-- its last two calls and never before; one that does not get it fails, with no other call.
pub sample-releases :
    (a : Answers)
    → ((a.lock ≡ false) × (sample a ≡ (i2c_lock ∷ [], none)))
      ⊎ ((a.lock ≡ true)
          × ((cs : List Call) × ((sample a).0 ≡ i2c_lock ∷ (cs ++ let_go)) × NoRelease cs))
unfolding sample
sample-releases a = elim (Bool-cases a.lock) [
  | inl got ↦ inr (got, ((measure a).0, rw (got, sample) refl, measure-NoRelease a))
  | inr missed ↦ inl (missed, rw (missed, sample) refl)
]
