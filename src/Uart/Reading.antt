-- ===== src/Uart/Reading.antt =====
-- hal/mock/hal_uart_mock.c: what HAL_UART_ReadUntil takes from a port.
use test_controller.Base.{
  ℕ, zero, suc, ◌+◌, ◌≡◌, refl, sym, ap, ◌∙◌, true, none, some, List, [], ◌∷◌, ◌++◌, length,
  get_elem?, get_elem?-set_self, get_elem?_bound, set_same, set_again, drop-none, drop-some,
  drop-drop, set, drop, arith, Bool-cases, Option-cases, inl, inr, ◌==◌, if◌then◌else◌,
}
use test_controller.Uart.{Port, Uart, open_port, read, until_loop, read_until}

-- The bytes up to the first delimiter, at most `n`.
unfoldable pub upto : ℕ → ℕ → List ℕ → List ℕ
upto zero d bs = []
upto (suc n) d [] = []
upto (suc n) d (b ∷ bs) = if b == d then b ∷ [] else b ∷ upto n d bs

-- What has arrived and was not read.
abbrev pub unread : Port → List ℕ
unread p = drop p.rx_read_pos p.rx

abbrev pub skip_read : ℕ → Port → Port
skip_read n p = record p { rx_read_pos = p.rx_read_pos + n }

abbrev pub Holds : ℕ → Uart → Port → Type 0
Holds port u p = (get_elem? u port ≡ some p) × (p.initialized ≡ true)

pub open_port-Holds : (port : ℕ) (u : Uart) (p : Port) → Holds port u p → open_port port u ≡ some p
open_port-Holds port u p (h, on) = rw (h, open_port) (rw on refl)

pub Holds-set :
    (port : ℕ) (u : Uart) (p q : Port)
    → Holds port u p
    → q.initialized ≡ true
    → Holds port (set u port q) q
Holds-set port u p q (h, on) on' = (get_elem?-set_self u port q (get_elem?_bound u port p h), on')

read_end :
    (port : ℕ) (u : Uart) (p : Port)
    → Holds port u p
    → get_elem? p.rx p.rx_read_pos ≡ none
    → read port u ≡ (u, none)
unfolding read
read_end port u p h gone = rw (open_port-Holds port u p h, read) (rw gone refl)

read_next :
    (port : ℕ) (u : Uart) (p : Port) (b : ℕ)
    → Holds port u p
    → get_elem? p.rx p.rx_read_pos ≡ some b
    → read port u ≡ (set u port (record p { rx_read_pos = suc p.rx_read_pos }), some b)
unfolding read
read_next port u p b h there = rw (open_port-Holds port u p h, read) (rw there refl)

-- A read of one byte and what follows it move the position together.
skip_one :
    (port : ℕ) (u : Uart) (p : Port) (k : ℕ)
    → set
        (set u port (record p { rx_read_pos = suc p.rx_read_pos }))
        port
        (skip_read k (record p { rx_read_pos = suc p.rx_read_pos }))
      ≡ set u port (skip_read (suc k) p)
skip_one port u p k =
    set_again u port _ _ ∙ ap (λ (i : ℕ). set u port (record p { rx_read_pos = i })) (omega arith)

unmoved : (port : ℕ) (u : Uart) (p : Port) → Holds port u p → u ≡ set u port (skip_read 0 p)
unmoved port u p h =
    sym (set_same u port p h.0)
    ∙ ap (λ (i : ℕ). set u port (record p { rx_read_pos = i })) (omega arith)

until_loop-upto :
    (n d port : ℕ) (u : Uart) (p : Port)
    → Holds port u p
    → until_loop n d port u
      ≡ (set u port (skip_read (length (upto n d (unread p))) p), upto n d (unread p))
unfolding until_loop upto
until_loop-upto zero d port u p h = ap (λ (v : Uart). (v, [])) (unmoved port u p h)
until_loop-upto (suc n) d port u p h = elim (Option-cases (get_elem? p.rx p.rx_read_pos)) [
  | inl gone ↦
      rw (read_end port u p h gone, drop-none p.rx p.rx_read_pos gone, until_loop)
        (rw (read_end port u p h gone) (ap (λ (v : Uart). (v, [])) (unmoved port u p h)))
  | inr (b, there) ↦
      let p' : Port = record p { rx_read_pos = suc p.rx_read_pos } in
      let ih = until_loop-upto n d port (set u port p') p' (Holds-set port u p p' h h.1) in
      rw (read_next port u p b h there, drop-some p.rx p.rx_read_pos b there, until_loop)
        (rw (read_next port u p b h there) (elim (Bool-cases (b == d)) [
          | inl last ↦
              rw last
                (ap (λ (i : ℕ). (set u port (record p { rx_read_pos = i }), b ∷ [])) (omega arith))
          | inr more ↦ rw more (
              rw ih (
                ap (λ (v : Uart). (v, b ∷ upto n d (drop (suc p.rx_read_pos) p.rx)))
                  (skip_one port u p (length (upto n d (drop (suc p.rx_read_pos) p.rx))))))
        ]))
]

upto-IsPrefix : (n d : ℕ) (bs : List ℕ) → upto n d bs ++ drop (length (upto n d bs)) bs ≡ bs
unfolding upto
upto-IsPrefix zero d bs = refl
upto-IsPrefix (suc n) d [] = refl
upto-IsPrefix (suc n) d (b ∷ bs) = elim (Bool-cases (b == d)) [
  | inl last ↦ rw last refl
  | inr more ↦ rw more (ap (◌∷◌ b) (upto-IsPrefix n d bs))
]

-- HAL_UART_ReadUntil takes from an open port the unread bytes up to the first delimiter, it included,
-- and at most max_length of them; it moves only the position of that port, behind what it took, and
-- leaves the rest to be read.
pub read_until-upto :
    (port max_length d : ℕ) (u : Uart) (p : Port)
    → Holds port u p
    → let taken = upto max_length d (unread p) in
      let p' = skip_read (length taken) p in
      (read_until port max_length d u ≡ (set u port p', some taken))
      × (taken ++ unread p' ≡ unread p)
unfolding read_until
read_until-upto port max_length d u p h =
    let taken = upto max_length d (unread p) in
    (
      rw (open_port-Holds port u p h, read_until)
          (rw (until_loop-upto max_length d port u p h) refl),
      ap (λ (bs : List ℕ). taken ++ bs) (sym (drop-drop p.rx_read_pos (length taken) p.rx))
          ∙ upto-IsPrefix max_length d (unread p),
    )
