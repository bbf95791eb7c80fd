-- ===== src/Shumway/UartDriver/Settings.antt =====
-- Settings and strings of the serial ports.
use native.Mathlib.Nat.{div-mul-le_self, lt-div-mul-add}
use avr_ha_lib.Prelude.{
  ℕ, ◌+◌, ◌-◌, ◌*◌, ◌/◌, ◌^◌, ◌≤◌, ◌<◌, ◌≡◌, ◌≢◌, refl, ap, ◌∙◌, false, some, List, [], ◌∷◌, ◌++◌,
  ◌==◌, All, arith, ℕ_discrete, append-nil, append_assoc,
}
use avr_ha_lib.Shumway.UartDriver.{
  Port, uart0, uart1, Ports, at, with_port, get_baud_rate, transmit, transmit_string, set_baudrate,
  enable, init,
}

transmit_more :
    (p : Port) (c : ℕ) (cs : List ℕ) (s : Ports)
    → with_port p (λ u. record u { sent = u.sent ++ cs }) (transmit p c s)
      ≡ with_port p (λ u. record u { sent = u.sent ++ c ∷ cs }) s
transmit_more uart0 c cs s =
    ap (λ l. record s { first = record s.first { sent = l } })
      (append_assoc s.first.sent (c ∷ []) cs)
transmit_more uart1 c cs s =
    ap (λ l. record s { second = record s.second { sent = l } })
      (append_assoc s.second.sent (c ∷ []) cs)

-- A string goes out up to its zero, whatever lies behind it, and no other port changes.
pub transmit_string-sent :
    (p : Port) (cs rest : List ℕ) (s : Ports)
    → All (λ c. c ≢ 0) cs
    → transmit_string p (cs ++ 0 ∷ rest) s
      ≡ some (with_port p (λ u. record u { sent = u.sent ++ cs }) s)
unfolding transmit_string
transmit_string-sent uart0 [] rest s h = rw (append-nil s.first.sent) refl
transmit_string-sent uart1 [] rest s h = rw (append-nil s.second.sent) refl
transmit_string-sent p (c ∷ cs) rest s h =
    let more : (c == 0) ≡ false = ground arith in
    rw more (transmit_string-sent p cs rest (transmit p c s) h.1 ∙ ap some (transmit_more p c cs s))

-- With a quotient `q`, and its product with the divisor in hand.
nearest :
    (b x q m : ℕ)
    → m ≤ x
    → x < m + b * 8
    → q * (b * 8) ≡ m
    → 0 < (q + 1) / 2
    → let n = (q + 1) / 2 - 1 + 1 in (16 * b * n ≤ x + 8 * b) × (x < 16 * b * n + 8 * b)
nearest b x q m below above e pos =
    let n = (q + 1) / 2 in
    elim (ℕ_discrete q (2 * n)) [
      | yes even ↦ grind (arith, ap (λ t. t * (b * 8)) even)
      | no odd ↦ let odd' : q + 1 ≡ 2 * n = omega arith in grind (arith, ap (λ t. t * (b * 8)) odd')
    ]

-- The divisor that the setting stands for is the nearest to the exact one: eight times the rate and
-- the divisor lie within four times the rate of the clock, if the rate is not so high that the divisor
-- is 0.
pub get_baud_rate-nearest :
    (clock baud_rate : ℕ)
    → 0 < baud_rate
    → 0 < (clock * 1000 * 2 / (baud_rate * 8) + 1) / 2
    → let n = get_baud_rate clock baud_rate + 1 in
      (16 * baud_rate * n ≤ clock * 1000 * 2 + 8 * baud_rate)
      × (clock * 1000 * 2 < 16 * baud_rate * n + 8 * baud_rate)
unfolding get_baud_rate
get_baud_rate-nearest clock baud_rate some_rate low =
    let d = baud_rate * 8 in
    let x = clock * 1000 * 2 in
    nearest baud_rate (clock * 1000 * 2) (x / d) (x / d * d) (div-mul-le_self x d)
      (lt-div-mul-add (omega (arith, some_rate))) refl low

-- After `init` the port runs at 19200 baud with both directions enabled, whatever its registers held.
init-registers :
    (p : Port) (s : Ports)
    → let u = at p (init p s) in
      (u.ubrrh * 2 ^ 8 + u.ubrrl ≡ 103) × (u.ucsra ≡ 0x42) × (u.ucsrb ≡ 0x18) × (u.ucsrc ≡ 0x06)
unfolding get_baud_rate set_baudrate enable
init-registers uart0 s = (refl, refl, refl, refl)
init-registers uart1 s = (refl, refl, refl, refl)
