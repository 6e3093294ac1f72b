-- ===== src/Client/Serial/Received.antt =====
-- The bytes received from the serial ports, and their answer to QUERY_UART_RECV_DATA.
use itertk.Base.{
  ℕ, ◌+◌, ◌-◌, ◌*◌, ◌/◌, ◌%◌, ◌≤◌, ◌<◌, ◌≡◌, refl, ◌∙◌, sym, true, false, none, some, List, [], ◌∷◌,
  ◌++◌, Buf, store, copy, bytes, bytes_ext, bytes-copy, bytes-append, copy_below, copy_above,
  store_ne, arith, ltb, leb, ◌==◌, u16, dec32, Piece, Piece-frame, length-bytes, ap₂,
}
use native.Mathlib.Nat.{zero-add}
use itertk.Client.{Client, send_cap, uart_recv_buf_size}
use itertk.Client.Frame.{make_ack_head}
use itertk.Client.Serial.{make_ack_query_uart_recv_data, send_com_data_to_net_poll_mode}

-- The bytes that port 1 has buffered.
abbrev pub received_1 : Client → List ℕ
received_1 c = bytes c.uart1_recv_buf 0 c.uart1_cnt

-- Bytes that arrive at port 1 are appended to those buffered so far, as long as all of them stay below
-- the buffer's 2048 bytes; nothing else is touched.
pub receive_appends :
    (block : Buf) (len : ℕ) (c : Client)
    → c.uart1_cnt + len < 2048
    → (b : Buf) × (send_com_data_to_net_poll_mode 0 block len c
        ≡ some (record c { uart1_cnt = c.uart1_cnt + len; uart1_recv_buf = b }))
      × (bytes b 0 (c.uart1_cnt + len) ≡ received_1 c ++ bytes block 0 len)
unfolding send_com_data_to_net_poll_mode
receive_appends block len c h =
    let n = c.uart1_cnt in
    let small : u16 (n + len) ≡ n + len = omega arith in
    let under : ltb (n + len) uart_recv_buf_size ≡ true = ground arith in
    let inside : leb (n + len) uart_recv_buf_size ≡ true = ground arith in
    let b = copy len c.uart1_recv_buf n block 0 in
    let kept : bytes b 0 n ≡ bytes c.uart1_recv_buf 0 n =
      bytes_ext b c.uart1_recv_buf 0 n
        (λ k p q. copy_below len c.uart1_recv_buf n block 0 k (omega arith)) in
    (
      b,
      rw (small, under, inside) refl,
      bytes-append b 0 n len
          ∙ ap₂ ◌++◌ kept (rw zero-add (bytes-copy len c.uart1_recv_buf n block 0)),
    )

-- When the bytes that arrive at port 1 would reach the 2048th of its buffer they are dropped, but they
-- are counted all the same: as long as the count is below 65536, the answer to a query for port 1 in
-- the state behind them does not fit its buffer.
pub receive_overruns :
    (block cmd : Buf) (len : ℕ) (c : Client)
    → 2048 ≤ c.uart1_cnt + len
    → c.uart1_cnt + len < 65536
    → cmd 4 ≡ 1
    → (send_com_data_to_net_poll_mode 0 block len c
        ≡ some (record c { uart1_cnt = c.uart1_cnt + len }))
      × (make_ack_query_uart_recv_data cmd (record c { uart1_cnt = c.uart1_cnt + len }) ≡ none)
unfolding send_com_data_to_net_poll_mode make_ack_query_uart_recv_data
receive_overruns block cmd len c h g p =
    let small : u16 (c.uart1_cnt + len) ≡ c.uart1_cnt + len = omega arith in
    let over : ltb (c.uart1_cnt + len) uart_recv_buf_size ≡ false = ground arith in
    let first : (dec32 (cmd 4) == 0) ≡ true = ground arith in
    let full : leb (c.uart1_cnt + len + 8) send_cap ≡ false = ground arith in
    (rw (small, over) refl, rw first (rw full refl))

-- When the 16-bit count wraps to less than 2048, the bytes are copied to behind the array.
pub receive_wraps :
    (block : Buf) (len : ℕ) (c : Client)
    → 65536 ≤ c.uart1_cnt + len
    → c.uart1_cnt + len < 65536 + 2048
    → send_com_data_to_net_poll_mode 0 block len c ≡ none
unfolding send_com_data_to_net_poll_mode
receive_wraps block len c h g =
    let under : ltb (u16 (c.uart1_cnt + len)) uart_recv_buf_size ≡ true = ground arith in
    let outside : leb (c.uart1_cnt + len) uart_recv_buf_size ≡ false = ground arith in
    rw (under, outside) refl

-- The first seven bytes of an answer.
abbrev recv_head : ℕ → ℕ → List ℕ
recv_head id n = 0x55 ∷ 0xaa ∷ 0x17 ∷ 0x01 ∷ id ∷ n / 256 ∷ n % 256 ∷ []

abbrev recv_start : Buf → ℕ → ℕ → Buf
recv_start b id n = store (store (store (make_ack_head b 0x17) 4 id) 5 (n / 256)) 6 (n % 256)

copied_frame :
    (n : ℕ) (head src : Buf)
    → bytes (store (copy n head 7 src 0) (n + 7) 0) 0 (n + 8)
      ≡ bytes head 0 7 ++ (bytes src 0 n ++ (0 ∷ []))
copied_frame n head src =
    let piece : Piece 7 head (bytes src 0 n) (n, copy n head 7 src 0) = record {
      count = sym (length-bytes src 0 n);
      below = λ m h. copy_below n head 7 src 0 m h;
      text = rw (length-bytes src 0 n) (bytes-copy n head 7 src 0);
    } in
    let e : n + 7 ≡ 7 + n = omega arith in
    let e' : n + 8 ≡ 7 + n + 1 = omega arith in rw (e, e') (Piece-frame piece)

-- A QUERY_UART_RECV_DATA for port 1 with at most 1016 buffered bytes is answered by their number and
-- the bytes, in a frame of 8 bytes more, and leaves them buffered.
pub query_port_1 :
    (cmd : Buf) (c : Client)
    → cmd 4 ≡ 1
    → c.uart1_cnt ≤ 1016
    → (b : Buf) × (make_ack_query_uart_recv_data cmd c
        ≡ some (c.uart1_cnt + 8, record c { buf_send = b }))
      × (bytes b 0 (c.uart1_cnt + 8)
          ≡ 0x55
            ∷ 0xaa
            ∷ 0x17
            ∷ 0x01
            ∷ 1
            ∷ c.uart1_cnt / 256
            ∷ c.uart1_cnt % 256
            ∷ (received_1 c ++ (0 ∷ [])))
unfolding make_ack_query_uart_recv_data make_ack_head
query_port_1 cmd c p h =
    let n = c.uart1_cnt in
    let id : dec32 (cmd 4) ≡ 0 = omega arith in
    let fits : leb (n + 8) send_cap ≡ true = ground arith in
    let fits' : leb (n + 7) send_cap ≡ true = ground arith in
    let head = recv_start c.buf_send 1 n in
    let e : n + 7 + 1 ≡ n + 8 = omega arith in
    (
      store (copy n head 7 c.uart1_recv_buf 0) (n + 7) 0,
      rw id (rw (fits, fits', e) refl),
      copied_frame n head c.uart1_recv_buf,
    )

copied_below :
    (m n : ℕ) (head src : Buf) (k : ℕ)
    → k < 7
    → k < n + 7
    → store (copy m head 7 src 0) (n + 7) 0 k ≡ head k
copied_below m n head src k h g =
    store_ne (copy m head 7 src 0) (n + 7) 0 k (λ q. omega (arith, q))
    ∙ copy_below m head 7 src 0 k h

copied_above :
    (m n : ℕ) (b src : Buf) (k : ℕ)
    → 7 + m ≤ k
    → k < n + 7
    → store (copy m (recv_start b 2 n) 7 src 0) (n + 7) 0 k ≡ b k
unfolding make_ack_head
copied_above m n b src k h g =
    store_ne (copy m (recv_start b 2 n) 7 src 0) (n + 7) 0 k (λ q. omega (arith, q))
    ∙ copy_above m (recv_start b 2 n) 7 src 0 k h
    ∙ ground arith

-- A QUERY_UART_RECV_DATA for port 2 announces the number of bytes of port 2 but copies as many as
-- port 1 has. When port 1 has fewer, the bytes behind those are what an earlier answer left in the
-- send buffer.
pub query_port_2 :
    (cmd : Buf) (c : Client)
    → cmd 4 ≡ 2
    → c.uart1_cnt < c.uart2_cnt
    → c.uart2_cnt ≤ 1016
    → (b : Buf) × (make_ack_query_uart_recv_data cmd c
        ≡ some (c.uart2_cnt + 8, record c { buf_send = b }))
      × (b 5 * 256 + b 6 ≡ c.uart2_cnt)
      × (bytes b 7 c.uart1_cnt ≡ bytes c.uart2_recv_buf 0 c.uart1_cnt)
      × (bytes b (7 + c.uart1_cnt) (c.uart2_cnt - c.uart1_cnt)
          ≡ bytes c.buf_send (7 + c.uart1_cnt) (c.uart2_cnt - c.uart1_cnt))
unfolding make_ack_query_uart_recv_data make_ack_head
query_port_2 cmd c p h g =
    let n = c.uart2_cnt in
    let m = c.uart1_cnt in
    let id : dec32 (cmd 4) ≡ 1 = omega arith in
    let fits : leb (n + 8) send_cap ≡ true = ground arith in
    let fits' : leb (m + 7) send_cap ≡ true = ground arith in
    let head = recv_start c.buf_send 2 n in
    let e : n + 7 + 1 ≡ n + 8 = omega arith in
    let body = copy m head 7 c.uart2_recv_buf 0 in
    let b = store body (n + 7) 0 in
    let b5 : b 5 ≡ n / 256 = copied_below m n head c.uart2_recv_buf 5 (omega arith) (omega arith) in
    let b6 : b 6 ≡ n % 256 = copied_below m n head c.uart2_recv_buf 6 (omega arith) (omega arith) in
    (
      b,
      rw id (rw (fits, fits', e) refl),
      omega (arith, b5, b6),
      bytes_ext b body 7 m (λ k l u. store_ne body (n + 7) 0 k (λ q. omega (arith, q)))
          ∙ bytes-copy m head 7 c.uart2_recv_buf 0,
      bytes_ext b c.buf_send (7 + m) (n - m)
          (λ k l u. copied_above m n c.buf_send c.uart2_recv_buf k l (omega arith)),
    )
