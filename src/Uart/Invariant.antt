-- ===== src/Uart/Invariant.antt =====
-- hal/mock/hal_uart_mock.c: no call overruns a buffer.
use test_controller.Base.{
  ℕ, zero, suc, ◌≤◌, ◌≡◌, refl, ◌∙◌, false, Option, none, some, List, [], ◌∷◌, ◌++◌, length,
  length-append, length-take, length-set, All, All-set, All-get_elem?, get_elem?, get_elem?_bound,
  set, take, ltb, ◌==◌, if◌then◌else◌, arith, Bool-cases, Option-cases, inl, inr, if_either,
}
use test_controller.Base.Int.{pos, negsuc}
use test_controller.Uart.{
  Port, Uart, mock_buffer_size, mock_reset, open_port, to_write, init, transmit, available, read,
  read_loop, read_bytes, until_loop, read_until, deinit, flush_rx, set_rx_buffer,
}

pub record IsPort (p : Port) : Type 0 where
  pub tx_fits : length p.tx ≤ mock_buffer_size
  pub rx_fits : length p.rx ≤ mock_buffer_size
  pub read_behind : p.rx_read_pos ≤ length p.rx

abbrev pub IsUart : Uart → Type 0
IsUart u = (length u ≡ 3) × All IsPort u

-- The calls that change the state.
pub data Call : Type 0 where
  init_call : ℕ → ℕ → Call
  transmit_call : ℕ → List ℕ → Call
  read_call : ℕ → Call
  read_bytes_call : ℕ → ℕ → Call
  read_until_call : ℕ → ℕ → ℕ → Call
  deinit_call : ℕ → Call
  flush_call : ℕ → Call
  set_rx_call : ℕ → List ℕ → Call

unfoldable pub run_call : Call → Uart → Uart
unfolding init transmit read read_bytes read_until deinit flush_rx set_rx_buffer
run_call (init_call port baudrate) u = (init port baudrate u).0
run_call (transmit_call port bytes) u = (transmit port bytes u).0
run_call (read_call port) u = (read port u).0
run_call (read_bytes_call port max) u = (read_bytes port max u).0
run_call (read_until_call port max d) u = (read_until port max d u).0
run_call (deinit_call port) u = (deinit port u).0
run_call (flush_call port) u = (flush_rx port u).0
run_call (set_rx_call port bytes) u = set_rx_buffer port bytes u

unfoldable pub run_calls : List Call → Uart → Uart
unfolding run_call
run_calls [] u = u
run_calls (c ∷ cs) u = run_calls cs (run_call c u)

set-IsUart : (port : ℕ) (u : Uart) (p : Port) → IsUart u → IsPort p → IsUart (set u port p)
set-IsUart port u p w h = (length-set u port p ∙ w.0, All-set IsPort u port p w.1 h)

some_open : (port : ℕ) (u : Uart) (p : Port) → IsUart u → open_port port u ≡ some p → IsPort p
some_open port u p w e = elim (Option-cases (get_elem? u port)) [
  | inl gone ↦ absurd (ground (arith, gone, e))
  | inr (q, there) ↦ All-get_elem? IsPort u port p w.1 (there ∙ ground (arith, there, e))
]

-- Behind the test of the port.
open_port-IsUart :
    {R : Type 0} (port : ℕ) (u : Uart) (f : Port → Port) (bad : R) (good : Port → R)
    (o : Option Port)
    → open_port port u ≡ o
    → IsUart u
    → ((p : Port) → IsPort p → IsPort (f p))
    → IsUart (elim o as (λ x. Uart × R) [ none ↦ (u, bad) | some p ↦ (set u port (f p), good p) ]).0
open_port-IsUart port u f bad good none e w h = w
open_port-IsUart port u f bad good (some p) e w h =
    set-IsUart port u (f p) w (h p (some_open port u p w e))

get_elem?-IsUart :
    {R : Type 0} (port : ℕ) (u : Uart) (f : Port → Port) (bad : R) (good : Port → R)
    (o : Option Port)
    → get_elem? u port ≡ o
    → IsUart u
    → ((p : Port) → IsPort p → IsPort (f p))
    → IsUart (elim o as (λ x. Uart × R) [ none ↦ (u, bad) | some p ↦ (set u port (f p), good p) ]).0
get_elem?-IsUart port u f bad good none e w h = w
get_elem?-IsUart port u f bad good (some p) e w h =
    set-IsUart port u (f p) w (h p (All-get_elem? IsPort u port p w.1 e))

init-IsUart : (port baudrate : ℕ) (u : Uart) → IsUart u → IsUart (init port baudrate u).0
unfolding init
init-IsUart port baudrate u w =
    get_elem?-IsUart port u _ (negsuc 0) (λ p. pos 0) (get_elem? u port) refl w
      (λ p h. record { tx_fits = omega arith; rx_fits = omega arith; read_behind = omega arith })

transmit-IsUart :
    (port : ℕ) (bytes : List ℕ) (u : Uart) → IsUart u → IsUart (transmit port bytes u).0
unfolding transmit
transmit-IsUart port bytes u w =
    open_port-IsUart port u _ none (λ p. some (to_write p bytes)) (open_port port u) refl w fits
  where
    fits : (p : Port) → IsPort p → IsPort (record p { tx = p.tx ++ take (to_write p bytes) bytes })
    fits p h = record {
      tx_fits = ground (
        arith,
        length-append p.tx (take (to_write p bytes) bytes),
        length-take (to_write p bytes) bytes,
        h.tx_fits,
      );
      rx_fits = h.rx_fits;
      read_behind = h.read_behind;
    }

read-IsUart : (port : ℕ) (u : Uart) → IsUart u → IsUart (read port u).0
unfolding read
read-IsUart port u w = elim (Option-cases (open_port port u)) [
  | inl shut ↦ rw (shut, read) w
  | inr (p, there) ↦
      rw (there, read) (next p (some_open port u p w there) (get_elem? p.rx p.rx_read_pos) refl)
]
  where
    next :
        (p : Port)
        → IsPort p
        → (o : Option ℕ) → get_elem? p.rx p.rx_read_pos ≡ o
        → IsUart
            (elim o as (λ x. Uart × Option ℕ) [
              | none ↦ (u, none)
              | some byte ↦ (set u port (record p { rx_read_pos = suc p.rx_read_pos }), some byte)
            ]).0
    next p h none e = w
    next p h (some byte) e =
        set-IsUart port u (record p { rx_read_pos = suc p.rx_read_pos }) w
          (record {
            tx_fits = h.tx_fits;
            rx_fits = h.rx_fits;
            read_behind = omega (arith, get_elem?_bound p.rx p.rx_read_pos byte e);
          })

read_loop-IsUart : (n port : ℕ) (u : Uart) → IsUart u → IsUart (read_loop n port u).0
unfolding read_loop
read_loop-IsUart zero port u w = w
read_loop-IsUart (suc n) port u w = elim (Option-cases (read port u).1) [
  | inl end ↦ rw (end, read_loop) (read-IsUart port u w)
  | inr (byte, got) ↦
      rw (got, read_loop) (read_loop-IsUart n port (read port u).0 (read-IsUart port u w))
]

until_loop-IsUart : (n d port : ℕ) (u : Uart) → IsUart u → IsUart (until_loop n d port u).0
unfolding until_loop
until_loop-IsUart zero d port u w = w
until_loop-IsUart (suc n) d port u w = elim (Option-cases (read port u).1) [
  | inl end ↦ rw (end, until_loop) (read-IsUart port u w)
  | inr (byte, got) ↦
      rw (got, until_loop)
        (if_either (λ (r : Uart × List ℕ). IsUart r.0) (byte == d) (read-IsUart port u w)
          (until_loop-IsUart n d port (read port u).0 (read-IsUart port u w)))
]

read_bytes-IsUart : (port max : ℕ) (u : Uart) → IsUart u → IsUart (read_bytes port max u).0
unfolding read_bytes
read_bytes-IsUart port max u w = elim (Option-cases (available port u)) [
  | inl shut ↦ rw (shut, read_bytes) w
  | inr (n, ready) ↦
      rw (ready, read_bytes) (read_loop-IsUart (if ltb n max then n else max) port u w)
]

read_until-IsUart : (port max d : ℕ) (u : Uart) → IsUart u → IsUart (read_until port max d u).0
unfolding read_until
read_until-IsUart port max d u w = elim (Option-cases (open_port port u)) [
  | inl shut ↦ rw (shut, read_until) w
  | inr (p, there) ↦ rw (there, read_until) (until_loop-IsUart max d port u w)
]

deinit-IsUart : (port : ℕ) (u : Uart) → IsUart u → IsUart (deinit port u).0
unfolding deinit
deinit-IsUart port u w =
    get_elem?-IsUart port u _ (negsuc 0) (λ p. pos 0) (get_elem? u port) refl w
      (λ p h. record { tx_fits = h.tx_fits; rx_fits = h.rx_fits; read_behind = h.read_behind })

flush_rx-IsUart : (port : ℕ) (u : Uart) → IsUart u → IsUart (flush_rx port u).0
unfolding flush_rx
flush_rx-IsUart port u w =
    open_port-IsUart port u _ (negsuc 0) (λ p. pos 0) (open_port port u) refl w
      (λ p h. record { tx_fits = h.tx_fits; rx_fits = h.rx_fits; read_behind = omega arith })

set_rx_buffer-IsUart :
    (port : ℕ) (bytes : List ℕ) (u : Uart) → IsUart u → IsUart (set_rx_buffer port bytes u)
unfolding set_rx_buffer
set_rx_buffer-IsUart port bytes u w = elim (Option-cases (get_elem? u port)) [
  | inl gone ↦ rw (gone, set_rx_buffer) w
  | inr (p, there) ↦
      rw (there, set_rx_buffer)
        (elim (Bool-cases (ltb mock_buffer_size (length bytes))) [
          | inl long ↦ rw long w
          | inr fits ↦ rw fits (
              set-IsUart port u (record p { rx = bytes; rx_read_pos = 0 }) w
                (record {
                  tx_fits = (All-get_elem? IsPort u port p w.1 there).tx_fits;
                  rx_fits = ground (arith, fits);
                  read_behind = omega arith;
                }))
        ])
]

run_call-IsUart : (c : Call) (u : Uart) → IsUart u → IsUart (run_call c u)
unfolding run_call
run_call-IsUart (init_call port baudrate) u w = init-IsUart port baudrate u w
run_call-IsUart (transmit_call port bytes) u w = transmit-IsUart port bytes u w
run_call-IsUart (read_call port) u w = read-IsUart port u w
run_call-IsUart (read_bytes_call port max) u w = read_bytes-IsUart port max u w
run_call-IsUart (read_until_call port max d) u w = read_until-IsUart port max d u w
run_call-IsUart (deinit_call port) u w = deinit-IsUart port u w
run_call-IsUart (flush_call port) u w = flush_rx-IsUart port u w
run_call-IsUart (set_rx_call port bytes) u w = set_rx_buffer-IsUart port bytes u w

run_calls-IsUart : (cs : List Call) (u : Uart) → IsUart u → IsUart (run_calls cs u)
unfolding run_calls
run_calls-IsUart [] u w = w
run_calls-IsUart (c ∷ cs) u w = run_calls-IsUart cs (run_call c u) (run_call-IsUart c u w)

-- Whatever calls follow a reset, the ports stay three, no buffer holds more than its 256 bytes, and no
-- port reads past the bytes that have arrived.
pub mock_reset-IsUart : (cs : List Call) → IsUart (run_calls cs mock_reset)
unfolding mock_reset
mock_reset-IsUart cs = run_calls-IsUart cs mock_reset (refl, (idle, (idle, (idle, tt))))
  where
    idle : IsPort (record { tx = []; rx = []; rx_read_pos = 0; baudrate = 0; initialized = false })
    idle = record { tx_fits = omega arith; rx_fits = omega arith; read_behind = omega arith }
