-- ===== src/Tests/Ports.antt =====
-- The serial ports: their attributes and their data.
use itertk.Base.{ℕ, zero, suc, ◌≡◌, ◌<◌, refl, List, [], ◌∷◌, none, some, arith, bytes, Buf}
use itertk.Conf.Defaults.{config_makedefault}
use itertk.Client.{Client}
use itertk.Client.Uart.{
  calc_baud_rate, return_local_odd_even, make_ack_set_uart_attr, make_ack_get_uart_attr, read_uart,
  is_good_uart, is_good_bps,
}
use itertk.Client.Uart.Values.{IsBytes}
use itertk.Client.Uart.Ports.{PortsFit, uart_attr_roundtrip}
use itertk.Client.Uart.Refusals.{set_uart_port_zero}
use itertk.Client.Serial.{make_ack_query_uart_recv_data, send_com_data_to_net_poll_mode}
use itertk.Client.Serial.Received.{receive_overruns}
use itertk.Tests.{frame, demo}

demo-PortsFit : PortsFit demo
unfolding config_makedefault
demo-PortsFit = record { com_len = refl; fd_len = refl; seq_len = refl; attr_len = refl }

-- 115200 bps, 8 data bits, 1 stop bit, even parity
abbrev uart_cmd : ℕ → Buf
uart_cmd port = frame (0x55 ∷ 0xaa ∷ 0x0f ∷ 0x01 ∷ 1 ∷ port ∷ 0 ∷ 1 ∷ 194 ∷ 0 ∷ 8 ∷ 1 ∷ 2 ∷ 0 ∷ [])

-- every byte of the list below 256
abbrev Small : List ℕ → Type 0
Small [] = Unit
Small (v ∷ l) = (v < 256) × Small l

listed-IsBytes : (l : List ℕ) → Small l → IsBytes (frame l)
listed-IsBytes [] h k = omega arith
listed-IsBytes (v ∷ l) h zero = h.0
listed-IsBytes (v ∷ l) h (suc k) = listed-IsBytes l h.1 k

uart_attr_roundtrip_example :
    (c' : Client) × (make_ack_set_uart_attr (uart_cmd 2) demo ≡ some (8, c'))
    × (bytes c'.buf_send 0 8 ≡ 0x55 ∷ 0xaa ∷ 0x10 ∷ 0x01 ∷ 1 ∷ 2 ∷ 1 ∷ 0 ∷ [])
    × ((r : ℕ × Buf) × (make_ack_get_uart_attr c'.conf (λ k. 0) (λ k. 0) ≡ some r)
        × (bytes r.1 0 r.0
            ≡ 0x55 ∷ 0xaa ∷ 0x0e ∷ 0x01 ∷ 0 ∷ 2 ∷ 0 ∷ 1 ∷ 194 ∷ 0 ∷ 8 ∷ 1 ∷ 2 ∷ 0 ∷ []))
unfolding is_good_uart is_good_bps read_uart calc_baud_rate return_local_odd_even
uart_attr_roundtrip_example =
    uart_attr_roundtrip (uart_cmd 2) (λ k. 0) (λ k. 0) demo demo-PortsFit
      (listed-IsBytes (0x55 ∷ 0xaa ∷ 0x0f ∷ 0x01 ∷ 1 ∷ 2 ∷ 0 ∷ 1 ∷ 194 ∷ 0 ∷ 8 ∷ 1 ∷ 2 ∷ 0 ∷ []) (
        omega arith,
        (
          omega arith,
          (
            omega arith,
            (
              omega arith,
              (
                omega arith,
                (
                  omega arith,
                  (
                    omega arith,
                    (
                      omega arith,
                      (
                        omega arith,
                        (
                          omega arith,
                          (omega arith, (omega arith, (omega arith, (omega arith, tt)))),
                        ),
                      ),
                    ),
                  ),
                ),
              ),
            ),
          ),
        ),
      ))
      refl (omega arith) (omega arith) (λ p. refl)

set_uart_port_zero_example : make_ack_set_uart_attr (uart_cmd 0) demo ≡ none
unfolding is_good_uart is_good_bps read_uart calc_baud_rate return_local_odd_even
set_uart_port_zero_example =
    set_uart_port_zero (uart_cmd 0) demo demo-PortsFit refl (omega arith) refl (λ p. refl)

receive_overruns_example :
    (send_com_data_to_net_poll_mode 0 (λ k. 7) 2046 demo ≡ some (record demo { uart1_cnt = 2048 }))
    × (make_ack_query_uart_recv_data (λ k. 1) (record demo { uart1_cnt = 2048 }) ≡ none)
receive_overruns_example =
    receive_overruns (λ k. 7) (λ k. 1) 2046 demo (omega arith) (omega arith) refl
