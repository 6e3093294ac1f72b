-- ===== src/Client/Uart/Refusals.antt =====
-- SET_UART_ATTR commands that are refused, and the one that is not but should be.
use itertk.Base.{
  ℕ, ◌-◌, ◌%◌, ◌≤◌, ◌<◌, ◌≡◌, refl, sym, subst, ◌⊎◌, inl, inr, suc, ◌∙◌, true, false, ◌&&◌, none,
  some, List, [], ◌∷◌, Buf, store, bytes, arith, ltb, leb, dec32, Bool-cases, length,
  get_elem?-some, set?-some,
}
use itertk.Conf.{ConfigCom, ConfigSensor}
use itertk.Client.{Client}
use itertk.Client.Frame.{make_ack_head}
use itertk.Client.Uart.{is_good_uart, read_uart, store_uart, set_uarts, make_ack_set_uart_attr}
use itertk.Client.Uart.Ports.{PortsFit, read_uart-id, uart_one, start_one}

-- The frame of a refusal: the count of the command, port 0 and FAIL.
abbrev pub refusal : ℕ → List ℕ
refusal n = 0x55 ∷ 0xaa ∷ 0x10 ∷ 0x01 ∷ n ∷ 0 ∷ 0 ∷ 0 ∷ []

-- A refused command changes the send buffer only.
abbrev pub Refused : Buf → Client → Type 0
Refused cmd c =
    (b : Buf) × (make_ack_set_uart_attr cmd c ≡ some (8, record c { buf_send = b }))
    × (bytes b 0 8 ≡ refusal (cmd 4))

-- A count of ports other than 1 and 2 is refused, and nothing is stored, saved or set up.
pub set_uart_count-Refused : (cmd : Buf) (c : Client) → (cmd 4 ≡ 0) ⊎ (2 < cmd 4) → Refused cmd c
unfolding make_ack_set_uart_attr make_ack_head
set_uart_count-Refused cmd c h =
    let e : leb 1 (cmd 4) && leb (cmd 4) 2 ≡ false = ground arith in
    (
      store (store (store (store (make_ack_head c.buf_send 0x10) 4 (cmd 4)) 5 0) 6 0) 7 0,
      rw e,
      refl,
    )

first_bad :
    (k : ℕ) (cmd : Buf) (coms : List ConfigCom) (uart : ConfigSensor) (c : Client)
    → length coms ≡ 2
    → length uart.seq_num ≡ 8
    → length uart.attr ≡ 8
    → cmd 5 < 256
    → (2 < cmd 5 % 128) ⊎ ((p : ConfigCom) → is_good_uart (read_uart 0 cmd p) ≡ false)
    → set_uarts (suc k) 0 0 cmd coms uart c ≡ some (false, c)
unfolding set_uarts
first_bad k cmd coms uart c len sl al byte bad =
    let (old, eo) = get_elem?-some coms 0 (omega arith) in
    let p = read_uart 0 cmd old in
    let idp : p.id ≡ cmd 5 % 128 = read_uart-id 0 cmd old byte in
    rw eo (
      rw (set?-some uart.seq_num 0 (cmd 5) (omega arith)) (
        rw (set?-some uart.attr 0 (cmd 6) (omega arith)) (elim bad [
          | inl big ↦ let over : ltb 2 p.id ≡ true = ground (arith, idp) in rw over
          | inr wrong ↦ elim (Bool-cases (ltb 2 p.id)) [
            | inl over ↦ rw over
            | inr under ↦ rw (under, wrong old)
          ]
        ])))

-- In a command for one or two ports, a first port whose number is above 2, or whose attributes a port
-- does not take, is refused, and nothing is stored, saved or set up.
pub set_uart_port-Refused :
    (cmd : Buf) (c : Client)
    → PortsFit c
    → 1 ≤ cmd 4
    → cmd 4 ≤ 2
    → cmd 5 < 256
    → (2 < cmd 5 % 128) ⊎ ((p : ConfigCom) → is_good_uart (read_uart 0 cmd p) ≡ false)
    → Refused cmd c
unfolding make_ack_set_uart_attr make_ack_head
set_uart_port-Refused cmd c f lo hi byte h =
    let head = make_ack_head c.buf_send 0x10 in
    let start = record c { buf_send = store head 4 (cmd 4) } in
    let uart = c.conf.sensor_uart in
    let inside : leb 1 (cmd 4) && leb (cmd 4) 2 ≡ true = ground arith in
    let more : cmd 4 ≡ suc (cmd 4 - 1) = omega arith in
    let bad : set_uarts (cmd 4) 0 0 cmd c.conf.con_com (record uart { num = cmd 4 }) start
        ≡ some (false, start) =
      subst
        (λ n.
          set_uarts n 0 0 cmd c.conf.con_com (record uart { num = cmd 4 }) start
          ≡ some (false, start))
        (sym more)
        (first_bad (cmd 4 - 1) cmd c.conf.con_com (record uart { num = cmd 4 }) start f.com_len
          f.seq_len f.attr_len byte h) in
    (
      store (store (store (store (store head 4 (cmd 4)) 4 (cmd 4)) 5 0) 6 0) 7 0,
      rw inside (rw bad),
      refl,
    )

store_uart-fault :
    (j : ℕ) (p : ConfigCom) (uart : ConfigSensor) (c : Client)
    → length c.conf.con_com ≡ 2
    → p.id ≡ 0
    → store_uart j p uart c ≡ none
unfolding store_uart
store_uart-fault j p uart c len e =
    let over : ltb (dec32 p.id) (length c.conf.con_com) ≡ false = ground (arith, len, e) in rw over

-- In a command for one port, number 0 passes every check of the handler: with acceptable attributes the port's settings are
-- stored at index -1 of `con_com`, outside the array.
pub set_uart_port_zero :
    (cmd : Buf) (c : Client)
    → PortsFit c
    → cmd 4 ≡ 1
    → cmd 5 < 256
    → cmd 5 % 128 ≡ 0
    → ((p : ConfigCom) → is_good_uart (read_uart 0 cmd p) ≡ true)
    → make_ack_set_uart_attr cmd c ≡ none
unfolding make_ack_set_uart_attr
set_uart_port_zero cmd c f one byte zero good =
    let uart = c.conf.sensor_uart in
    let (old, eo) = get_elem?-some c.conf.con_com 0 (omega (arith, f.com_len)) in
    let p = read_uart 0 cmd old in
    let idp : p.id ≡ 0 = read_uart-id 0 cmd old byte ∙ zero in
    let small : ltb 2 p.id ≡ false = ground (arith, idp) in
    rw one (
      rw eo (
        rw (set?-some uart.seq_num 0 (cmd 5) (omega (arith, f.seq_len))) (
          rw (set?-some uart.attr 0 (cmd 6) (omega (arith, f.attr_len))) (
            rw (small, good old)
              (rw (store_uart-fault 0 p (uart_one cmd uart) (start_one c) f.com_len idp))))))
