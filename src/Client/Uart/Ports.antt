-- ===== src/Client/Uart/Ports.antt =====
-- Setting the attributes of a port and asking for them.
use itertk.Base.{
  ℕ, ◌+◌, ◌*◌, ◌%◌, ◌≤◌, ◌<◌, ◌≡◌, refl, ◌∙◌, ap, inl, inr, true, false, some, [], ◌∷◌, ◌++◌, Buf,
  store, bytes, arith, ltb, dec32, low_seven, Bool-cases, length, get_elem?, set, get_elem?-some,
  get_elem?-set_self, set?-some, Piece, Piece-frame,
}
use itertk.Conf.{ConfigCom, ConfigSensor, ConfiData}
use itertk.Client.{Client, Event, com_set, config_save}
use itertk.Client.Frame.{make_ack_head}
use itertk.Client.Uart.{
  reset_msb, is_good_uart, put_uart, read_uart, store_uart, com_index, make_ack_get_uart_attr,
  make_ack_set_uart_attr,
}
use itertk.Client.Uart.Values.{IsBytes, port_text, put_uart_below, put_uart-read_uart}

-- The tables over the ports have two entries, and the arrays of the class eight bytes.
pub record PortsFit (c : Client) : Type 0 where
  pub com_len : length c.conf.con_com ≡ 2
  pub fd_len : length c.gcomfd ≡ 2
  pub seq_len : length c.conf.sensor_uart.seq_num ≡ 8
  pub attr_len : length c.conf.sensor_uart.attr ≡ 8

-- `com_set` for port 1 or 2 returns, and changes neither the configuration nor a buffer.
pub com_set-ok :
    (c : Client) (p : ConfigCom)
    → length c.gcomfd ≡ 2
    → 1 ≤ p.id
    → p.id ≤ 2
    → (c' : Client) × (com_set c p ≡ some c')
      × (c'.conf ≡ c.conf)
      × (c'.buf_send ≡ c.buf_send)
      × (c'.gcomfd ≡ c.gcomfd)
unfolding com_set
com_set-ok c p len lo hi =
    let (fd, e) = get_elem?-some c.gcomfd (dec32 p.id) (omega arith) in
    elim (Bool-cases (ltb 0 fd)) [
      | inl on ↦ (
        record c { rs_type = p.type; log = Event.port_set p ∷ c.log },
        rw (e, on),
        refl,
        refl,
        refl,
      )
      | inr off ↦ (c, rw (e, off), refl, refl, refl)
    ]

abbrev stored : ConfiData → ConfigCom → ConfigSensor → ConfiData
stored conf p uart = record conf { con_com = set conf.con_com (dec32 p.id) p; sensor_uart = uart }

store_uart-ok :
    (j seq : ℕ) (p : ConfigCom) (uart : ConfigSensor) (c : Client)
    → length c.conf.con_com ≡ 2
    → length c.gcomfd ≡ 2
    → 1 ≤ p.id
    → p.id ≤ 2
    → get_elem? uart.seq_num j ≡ some seq
    → (c' : Client) × (store_uart j p uart c ≡ some c')
      × (c'.conf ≡ stored c.conf p uart)
      × (c'.buf_send ≡ store (store c.buf_send (5 + 2 * j) seq) (6 + 2 * j) 1)
      × (c'.gcomfd ≡ c.gcomfd)
unfolding store_uart
store_uart-ok j seq p uart c len fds lo hi e =
    let start = config_save (record c { conf = stored c.conf p uart }) in
    let (c1, e1, k1, k2, k3) = com_set-ok start p fds lo hi in
    (
      record c1 { buf_send = store (store c1.buf_send (5 + 2 * j) seq) (6 + 2 * j) 1 },
      rw (set?-some c.conf.con_com (dec32 p.id) p (omega arith)) (rw e1 (rw e)),
      k1,
      ap (λ b. store (store b (5 + 2 * j) seq) (6 + 2 * j) 1) k2,
      k3,
    )

-- The answer to GET_UART_ATTR while one port is configured.
get_one-answer :
    (conf : ConfiData) (query b : Buf) (seq attr : ℕ) (p : ConfigCom)
    → conf.sensor_uart.num ≡ 1
    → get_elem? conf.sensor_uart.seq_num 0 ≡ some seq
    → get_elem? conf.sensor_uart.attr 0 ≡ some attr
    → get_elem? conf.con_com (com_index seq) ≡ some p
    → (r : ℕ × Buf) × (make_ack_get_uart_attr conf query b ≡ some r)
      × (bytes r.1 0 r.0
          ≡ 0x55
            ∷ 0xaa
            ∷ 0x0e
            ∷ 0x01
            ∷ query 4
            ∷ (bytes (put_uart 0 seq attr p (store (make_ack_head b 0x0e) 4 (query 4))) 5 8
                ++ (0 ∷ [])))
unfolding make_ack_get_uart_attr make_ack_head
get_one-answer conf query b seq attr p n s a c =
    let b' = store (make_ack_head b 0x0e) 4 (query 4) in
    let r = put_uart 0 seq attr p b' in
    let piece : Piece 5 b' (bytes r 5 8) (8, r) = record {
      count = refl;
      below = λ m h. put_uart_below 0 seq attr p b' m (omega arith);
      text = refl;
    } in
    ((14, store r 13 0), rw n (rw s (rw a (rw c))), Piece-frame piece)

-- the class with its first entry read from a frame that names one port
abbrev pub uart_one : Buf → ConfigSensor → ConfigSensor
uart_one cmd uart = record uart {
  num = 1;
  seq_num = set uart.seq_num 0 (cmd 5);
  attr = set uart.attr 0 (cmd 6);
}

abbrev pub start_one : Client → Client
start_one c = record c { buf_send = store (make_ack_head c.buf_send 0x10) 4 1 }

-- One round, run to its end.
set_one-run :
    (cmd : Buf) (c c1 : Client) (old : ConfigCom)
    → cmd 4 ≡ 1
    → length c.conf.sensor_uart.seq_num ≡ 8
    → length c.conf.sensor_uart.attr ≡ 8
    → get_elem? c.conf.con_com 0 ≡ some old
    → ltb 2 (read_uart 0 cmd old).id ≡ false
    → is_good_uart (read_uart 0 cmd old) ≡ true
    → store_uart 0 (read_uart 0 cmd old) (uart_one cmd c.conf.sensor_uart) (start_one c) ≡ some c1
    → make_ack_set_uart_attr cmd c ≡ some (8, record c1 { buf_send = store c1.buf_send 7 0 })
unfolding make_ack_set_uart_attr
set_one-run cmd c c1 old one sl al eo small good e =
    let uart = c.conf.sensor_uart in
    rw one (
      rw eo (
        rw (set?-some uart.seq_num 0 (cmd 5) (omega arith))
          (rw (set?-some uart.attr 0 (cmd 6) (omega arith)) (rw (small, good) (rw e)))))

-- What an accepted SET_UART_ATTR for one port leaves, and the frame that it answers.
pub record SetOne (cmd : Buf) (c' : Client) : Type 0 where
  pub old : ConfigCom
  pub answer : bytes c'.buf_send 0 8 ≡ 0x55 ∷ 0xaa ∷ 0x10 ∷ 0x01 ∷ 1 ∷ cmd 5 ∷ 1 ∷ 0 ∷ []
  pub port : get_elem? c'.conf.con_com (dec32 (cmd 5 % 128)) ≡ some (read_uart 0 cmd old)
  pub num : c'.conf.sensor_uart.num ≡ 1
  pub seq : get_elem? c'.conf.sensor_uart.seq_num 0 ≡ some (cmd 5)
  pub attr : get_elem? c'.conf.sensor_uart.attr 0 ≡ some (cmd 6)

pub read_uart-id :
    (i : ℕ) (cmd : Buf) (old : ConfigCom)
    → cmd (5 + i) < 256
    → (read_uart i cmd old).id ≡ cmd (5 + i) % 128
unfolding read_uart reset_msb
read_uart-id i cmd old h = low_seven (cmd (5 + i)) h

single-SetOne :
    (cmd : Buf) (c : Client)
    → PortsFit c
    → cmd 4 ≡ 1
    → cmd 5 < 256
    → 1 ≤ cmd 5 % 128
    → cmd 5 % 128 ≤ 2
    → ((p : ConfigCom) → is_good_uart (read_uart 0 cmd p) ≡ true)
    → (c' : Client) × (make_ack_set_uart_attr cmd c ≡ some (8, c')) × SetOne cmd c'
unfolding make_ack_head
single-SetOne cmd c f one byte lo hi good =
    let uart = c.conf.sensor_uart in
    let uart' = uart_one cmd uart in
    let (old, eo) = get_elem?-some c.conf.con_com 0 (omega (arith, f.com_len)) in
    let p = read_uart 0 cmd old in
    let idp : p.id ≡ cmd 5 % 128 = read_uart-id 0 cmd old byte in
    let es : get_elem? uart'.seq_num 0 ≡ some (cmd 5) =
      get_elem?-set_self uart.seq_num 0 (cmd 5) (omega (arith, f.seq_len)) in
    let ea : get_elem? uart'.attr 0 ≡ some (cmd 6) =
      get_elem?-set_self uart.attr 0 (cmd 6) (omega (arith, f.attr_len)) in
    let (c1, e1, k1, k2, k3) =
      store_uart-ok 0 (cmd 5) p uart' (start_one c) f.com_len f.fd_len (omega arith) (omega arith)
        es in
    (
      record c1 { buf_send = store c1.buf_send 7 0 },
      set_one-run cmd c c1 old one f.seq_len f.attr_len eo (ground (arith, idp)) (good old) e1,
      record {
        old = old;
        answer = ap (λ b. bytes (store b 7 0) 0 8) k2;
        port =
            ap (λ (d : ConfiData). get_elem? d.con_com (dec32 (cmd 5 % 128))) k1
            ∙ ap (λ k. get_elem? (set c.conf.con_com (dec32 k) p) (dec32 (cmd 5 % 128))) idp
            ∙ get_elem?-set_self c.conf.con_com (dec32 (cmd 5 % 128)) p (omega (arith, f.com_len));
        num = ap (λ (d : ConfiData). d.sensor_uart.num) k1;
        seq = ap (λ (d : ConfiData). get_elem? d.sensor_uart.seq_num 0) k1 ∙ es;
        attr = ap (λ (d : ConfiData). get_elem? d.sensor_uart.attr 0) k1 ∙ ea;
      },
    )

com_index-lem : (seq : ℕ) → seq < 256 → 1 ≤ seq % 128 → com_index seq ≡ dec32 (seq % 128)
unfolding reset_msb
com_index-lem seq h lo = omega (arith, low_seven seq h)

-- With two ports, SET_UART_ATTR for one of them with attributes that the port accepts, all of them
-- bytes, is answered by the port's sequence number and PASS; a GET_UART_ATTR after it, under any
-- byte 4, is answered by the attributes of the frame, byte for byte, with bit 7 of the sequence
-- number cleared.
pub uart_attr_roundtrip :
    (cmd query b : Buf) (c : Client)
    → PortsFit c
    → IsBytes cmd
    → cmd 4 ≡ 1
    → 1 ≤ cmd 5 % 128
    → cmd 5 % 128 ≤ 2
    → ((p : ConfigCom) → is_good_uart (read_uart 0 cmd p) ≡ true)
    → (c' : Client) × (make_ack_set_uart_attr cmd c ≡ some (8, c'))
      × (bytes c'.buf_send 0 8 ≡ 0x55 ∷ 0xaa ∷ 0x10 ∷ 0x01 ∷ 1 ∷ cmd 5 ∷ 1 ∷ 0 ∷ [])
      × ((r : ℕ × Buf) × (make_ack_get_uart_attr c'.conf query b ≡ some r)
          × (bytes r.1 0 r.0 ≡ 0x55 ∷ 0xaa ∷ 0x0e ∷ 0x01 ∷ query 4 ∷ (port_text cmd 0 ++ (0 ∷ []))))
uart_attr_roundtrip cmd query b c f h one lo hi good =
    let (c', e, w) = single-SetOne cmd c f one (h 5) lo hi good in
    let p = read_uart 0 cmd w.old in
    let port : get_elem? c'.conf.con_com (com_index (cmd 5)) ≡ some p =
      rw (com_index-lem (cmd 5) (h 5) lo) w.port in
    let (r, er, answer) =
      get_one-answer c'.conf query b (cmd 5) (cmd 6) p w.num w.seq w.attr port in
    (
      c',
      e,
      w.answer,
      (
        r,
        er,
        answer
            ∙ ap (λ l. 0x55 ∷ 0xaa ∷ 0x0e ∷ 0x01 ∷ query 4 ∷ (l ++ (0 ∷ [])))
                (put_uart-read_uart 0 cmd w.old (store (make_ack_head b 0x0e) 4 (query 4)) h
                  (good w.old)),
      ),
    )
