-- ===== src/Client/Uart/Values.antt =====
-- The values that cross the wire: baud rates as three bytes, parities, and one port's attributes.
use itertk.Base.{
  ℕ, ◌+◌, ◌%◌, ◌≤◌, ◌<◌, ◌≡◌, ◌∙◌, ap, inl, inr, true, List, [], ◌∷◌, Buf, bytes, arith, u8,
  low_seven, write_list, write_list_below, bytes-write_list, Bool-cases,
}
use itertk.Conf.{ConfigCom}
use itertk.Client.Uart.{
  calc_high_byte, calc_mid_byte, calc_low_byte, calc_baud_rate, return_local_odd_even,
  return_remote_odd_even, reset_msb, is_good_bps, is_good_uart, put_uart, read_uart,
}

-- Three bytes make up a baud rate that gives these bytes back, and a baud rate below 2 ^ 24 is made up
-- again from its three bytes.
pub baud_roundtrip :
    (a b c bps : ℕ)
    → a < 256
    → b < 256
    → c < 256
    → bps < 16777216
    → (calc_high_byte (calc_baud_rate a b c) ≡ a)
      × (calc_mid_byte (calc_baud_rate a b c) ≡ b)
      × (calc_low_byte (calc_baud_rate a b c) ≡ c)
      × (calc_baud_rate (u8 (calc_high_byte bps)) (u8 (calc_mid_byte bps)) (u8 (calc_low_byte bps))
          ≡ bps)
unfolding calc_high_byte calc_mid_byte calc_low_byte calc_baud_rate
baud_roundtrip a b c bps ha hb hc h = (omega arith, omega arith, omega arith, omega arith)

-- A parity that the port accepts is sent back under the number that it was received with.
pub odd_even_roundtrip :
    (x : ℕ) → return_local_odd_even x ≤ 3 → return_remote_odd_even (return_local_odd_even x) ≡ x
unfolding return_local_odd_even return_remote_odd_even
odd_even_roundtrip x h = ground arith

good_chk : (p : ConfigCom) → is_good_uart p ≡ true → p.chk ≤ 3
unfolding is_good_uart
good_chk p h = elim (Bool-cases (is_good_bps p.bps)) [ inl e ↦ ground arith | inr e ↦ ground arith ]

-- A byte of the frame whose low seven bits are the port's number.
abbrev pub IsBytes : Buf → Type 0
IsBytes b = (k : ℕ) → b k < 256

-- The bytes of a port's attributes in a frame, its number without bit 7.
abbrev pub port_text : Buf → ℕ → List ℕ
port_text cmd i = cmd (5 + i) % 128 ∷ bytes cmd (6 + i) 7

abbrev uart_values : ℕ → ℕ → ConfigCom → List ℕ
uart_values seq attr p =
    reset_msb seq
    ∷ attr
    ∷ u8 (calc_high_byte p.bps)
    ∷ u8 (calc_mid_byte p.bps)
    ∷ u8 (calc_low_byte p.bps)
    ∷ p.dbit
    ∷ u8 p.sbit
    ∷ return_remote_odd_even p.chk
    ∷ []

put_uart-write_list :
    (i seq attr : ℕ) (p : ConfigCom) (b : Buf)
    → put_uart i seq attr p b ≡ write_list b (5 + i) (uart_values seq attr p)
unfolding put_uart
put_uart-write_list i seq attr p b =
    let e1 : 6 + i ≡ 5 + i + 1 = omega arith in
    let e2 : 7 + i ≡ 5 + i + 1 + 1 = omega arith in
    let e3 : 8 + i ≡ 5 + i + 1 + 1 + 1 = omega arith in
    let e4 : 9 + i ≡ 5 + i + 1 + 1 + 1 + 1 = omega arith in
    let e5 : 10 + i ≡ 5 + i + 1 + 1 + 1 + 1 + 1 = omega arith in
    let e6 : 11 + i ≡ 5 + i + 1 + 1 + 1 + 1 + 1 + 1 = omega arith in
    let e7 : 12 + i ≡ 5 + i + 1 + 1 + 1 + 1 + 1 + 1 + 1 = omega arith in
    simp (e1, e2, e3, e4, e5, e6, e7)

-- What stands before the eight bytes stays.
pub put_uart_below :
    (i seq attr : ℕ) (p : ConfigCom) (b : Buf) (k : ℕ) → k < 5 + i → put_uart i seq attr p b k ≡ b k
put_uart_below i seq attr p b k h =
    ap (λ (r : Buf). r k) (put_uart-write_list i seq attr p b)
    ∙ write_list_below b (5 + i) (uart_values seq attr p) k h

-- The attributes that a frame's bytes give back, one value after the other.
uart_values-read_uart :
    (i : ℕ) (cmd : Buf) (old : ConfigCom)
    → IsBytes cmd
    → is_good_uart (read_uart i cmd old) ≡ true
    → uart_values (cmd (5 + i)) (cmd (6 + i)) (read_uart i cmd old) ≡ port_text cmd i
unfolding read_uart reset_msb
uart_values-read_uart i cmd old h good =
    let baud =
      baud_roundtrip (cmd (7 + i)) (cmd (8 + i)) (cmd (9 + i)) 0 (h (7 + i)) (h (8 + i)) (h (9 + i))
        (omega arith) in
    let parity = odd_even_roundtrip (cmd (12 + i)) (good_chk (read_uart i cmd old) good) in
    ground (
      arith,
      baud,
      parity,
      h (7 + i),
      h (8 + i),
      h (9 + i),
      h (11 + i),
      low_seven (cmd (5 + i)) (h (5 + i)),
    )

-- Writing the attributes that were read from a frame gives the frame's bytes, if they are acceptable.
pub put_uart-read_uart :
    (i : ℕ) (cmd : Buf) (old : ConfigCom) (b : Buf)
    → IsBytes cmd
    → is_good_uart (read_uart i cmd old) ≡ true
    → bytes (put_uart i (cmd (5 + i)) (cmd (6 + i)) (read_uart i cmd old) b) (5 + i) 8
      ≡ port_text cmd i
put_uart-read_uart i cmd old b h good =
    let values = uart_values (cmd (5 + i)) (cmd (6 + i)) (read_uart i cmd old) in
    ap (λ r. bytes r (5 + i) 8)
      (put_uart-write_list i (cmd (5 + i)) (cmd (6 + i)) (read_uart i cmd old) b)
    ∙ bytes-write_list b (5 + i) values
    ∙ uart_values-read_uart i cmd old h good
