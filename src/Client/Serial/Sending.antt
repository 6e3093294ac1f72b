-- ===== src/Client/Serial/Sending.antt =====
-- Data for the serial ports: what UART_SEND_DATA passes on and how it is answered.
use itertk.Base.{
  ℕ, ◌+◌, ◌/◌, ◌%◌, ◌≤◌, ◌<◌, ◌≡◌, refl, ◌⊎◌, true, false, ◌||◌, some, List, [], ◌∷◌, Buf, bytes,
  arith, ltb, leb, ◌==◌, u8, u16, length, length-bytes,
}
use itertk.System.Writen.{Progress, writen_total}
use itertk.Conf.{max_com_port}
use itertk.Client.{Client, Env, Event}
use itertk.Client.Frame.{make_ack_head}
use itertk.Client.Serial.{send_ack, uart_send_data, send_net_data_to_com, make_ack_uart_send_data}

-- The answer for port `id + 1` with a count of bytes.
abbrev pub send_answer : ℕ → ℕ → List ℕ
send_answer id n = 0x55 ∷ 0xaa ∷ 0x14 ∷ 0x01 ∷ u8 (id + 1) ∷ (n / 256) ∷ (n % 256) ∷ 0 ∷ []

-- A number of bytes of 0 or above 2048, or a port other than 1 and 2, is answered by the count 0, and
-- nothing reaches a port.
pub uart_send_refused :
    (env : Env) (buf : Buf) (c : Client)
    → ((c.send_cnt ≡ 0) ⊎ (2048 < c.send_cnt)) ⊎ (2 ≤ c.com_id)
    → (b : Buf) × (make_ack_uart_send_data env buf c ≡ some (8, record c { buf_send = b }))
      × (bytes b 0 8 ≡ send_answer c.com_id 0)
unfolding make_ack_uart_send_data make_ack_head
uart_send_refused env buf c h =
    let stop : leb max_com_port c.com_id || (c.send_cnt == 0 || ltb 0x800 c.send_cnt) ≡ true =
      ground arith in
    (send_ack c.com_id 0 c.buf_send, rw stop refl, refl)

-- For 1 to 2048 announced bytes and port 1 or 2 under RS232 or RS485, a port that takes at least one
-- byte at each call gets exactly the announced number of bytes behind the head of the command, in
-- their order, and the answer carries that number.
pub uart_send_passes :
    (env : Env) (buf : Buf) (c : Client)
    → 0 < c.send_cnt
    → c.send_cnt ≤ 2048
    → c.com_id < 2
    → c.rs_type < 2
    → Progress (env.com_write c.com_id)
    → c.send_cnt ≤ length (env.com_write c.com_id)
    → (b : Buf) × (make_ack_uart_send_data env buf c
        ≡ some (
          8,
          record c { buf_send = b; log = Event.to_com c.com_id (bytes buf 7 c.send_cnt) ∷ c.log },
        ))
      × (bytes b 0 8 ≡ send_answer c.com_id c.send_cnt)
unfolding make_ack_uart_send_data make_ack_head uart_send_data send_net_data_to_com
uart_send_passes env buf c pos le port line p enough =
    let go : leb max_com_port c.com_id || (c.send_cnt == 0 || ltb 0x800 c.send_cnt) ≡ false =
      ground arith in
    let known : (c.rs_type == 0 || c.rs_type == 1) ≡ true = ground arith in
    let size = length-bytes buf 7 c.send_cnt in
    let all =
      writen_total (env.com_write c.com_id) (bytes buf 7 c.send_cnt) p
        (omega (arith, size, enough)) in
    let cnt : u16 c.send_cnt ≡ c.send_cnt = omega arith in
    (send_ack c.com_id c.send_cnt c.buf_send, rw (go, known, all, size, cnt) refl, refl)
