-- ===== src/Client/Dispatch/Refused.antt =====
-- Frames that the client refuses.
use itertk.Base.{
  ℕ, ◌%◌, ◌≤◌, ◌<◌, ◌≡◌, ◌≢◌, refl, ◌⊎◌, inl, inr, true, false, none, some, Buf, arith, ltb,
  Bool-cases, subst, if◌then◌else◌, u8,
}
use itertk.Client.{Client, Env}
use itertk.Client.Frame.{Cmd, Check, check_head, check_protocol_head, check_frame, decode}
use itertk.Client.Dispatch.{
  handle, process_frame, on_get_device_attr, on_set_device_attr, on_get_alarm_status, on_set_time,
  on_set_heartbeat, on_get_uart_qty, on_get_uart_attr, on_set_uart_attr, on_query_uart_sendbuf,
  on_uart_send_data, on_set_uart_recv_attr, on_query_uart_recv_data, on_get_io_num, on_set_io,
  on_get_io_status, on_get_temp_num, on_get_temp_status,
}
use itertk.Client.Checks.{
  check_for_get_device_attr, check_for_set_device_attr, check_for_get_alarm_status,
  check_for_set_time, check_for_get_uart_qty, check_for_get_uart_attr, check_for_set_uart_attr,
  check_for_query_uart_recv_data, check_for_get_io_num, check_for_set_io, check_for_get_io_status,
  check_for_get_temp_num, check_for_get_temp_status,
}
use itertk.Client.Link.{check_for_set_heartbeat}
use itertk.Client.Serial.{
  check_for_query_uart_sendbuf, check_for_uart_send_data, check_for_set_uart_recv_attr,
}

-- The shortest frame of each command, with its checksum byte, that is looked at.
abbrev pub shortest : Cmd → ℕ
shortest Cmd.get_device_attr = 5
shortest Cmd.set_device_attr = 7
shortest Cmd.get_alarm_status = 5
shortest Cmd.get_time = 0
shortest Cmd.set_time = 11
shortest Cmd.set_heartbeat = 6
shortest Cmd.get_uart_qty = 5
shortest Cmd.get_uart_attr = 7
shortest Cmd.set_uart_attr = 14
shortest Cmd.query_uart_sendbuf = 6
shortest Cmd.uart_send_data = 8
shortest Cmd.set_uart_recv_attr = 7
shortest Cmd.query_uart_recv_data = 6
shortest Cmd.get_io_num = 5
shortest Cmd.set_io = 9
shortest Cmd.get_io_status = 7
shortest Cmd.get_temp_num = 5
shortest Cmd.set_temp = 0
shortest Cmd.get_temp_status = 7

-- What is wrong with a frame: its start, its command, its length or its device.
pub data Wrong (buf : Buf) (num : ℕ) : Type 0 where
  bad_start : (buf 0 ≢ 0x55) ⊎ (buf 1 ≢ 0xaa) → Wrong buf num
  no_command : decode (buf 2) ≡ none → Wrong buf num
  too_short : (cmd : Cmd) → decode (buf 2) ≡ some cmd → num % 256 < shortest cmd → Wrong buf num
  other_device :
      (cmd : Cmd) → decode (buf 2) ≡ some cmd → cmd ≢ Cmd.set_temp → buf 3 ≢ 0x01 → Wrong buf num

check-short :
    (need : ℕ) (cmd : Cmd) (buf : Buf) (num : ℕ)
    → num % 256 < need
    → check_frame need cmd buf num ≡ Check.num_is_not_enough
unfolding check_frame
check-short need cmd buf num h = let e : ltb (u8 num) need ≡ true = ground arith in rw e

check-device :
    (need : ℕ) (cmd : Cmd) (buf : Buf) (num : ℕ)
    → need ≤ num % 256
    → buf 3 ≢ 0x01
    → check_frame need cmd buf num ≡ Check.head_or_device_id
unfolding check_frame check_protocol_head
check-device need cmd buf num h n = ground arith

set_heartbeat_refusal :
    (r : Check) (buf : Buf) (num : ℕ) (c : Client)
    → r ≢ Check.passed
    → check_frame 6 Cmd.set_heartbeat buf num ≡ r
    → check_for_set_heartbeat buf num c ≡ (r, c)
unfolding check_for_set_heartbeat
set_heartbeat_refusal Check.passed buf num c n e = absurd (n refl)
set_heartbeat_refusal _ buf num c n e = rw (e, check_for_set_heartbeat) refl

query_uart_sendbuf_refusal :
    (r : Check) (buf : Buf) (num : ℕ) (c : Client)
    → r ≢ Check.passed
    → check_frame 6 Cmd.query_uart_sendbuf buf num ≡ r
    → check_for_query_uart_sendbuf buf num c ≡ (r, c)
unfolding check_for_query_uart_sendbuf
query_uart_sendbuf_refusal Check.passed buf num c n e = absurd (n refl)
query_uart_sendbuf_refusal _ buf num c n e = rw (e, check_for_query_uart_sendbuf) refl

uart_send_data_refusal :
    (r : Check) (buf : Buf) (num : ℕ) (c : Client)
    → r ≢ Check.passed
    → check_frame 8 Cmd.uart_send_data buf num ≡ r
    → check_for_uart_send_data buf num c ≡ (r, c)
unfolding check_for_uart_send_data
uart_send_data_refusal Check.passed buf num c n e = absurd (n refl)
uart_send_data_refusal _ buf num c n e = rw (e, check_for_uart_send_data) refl

set_uart_recv_attr_refusal :
    (r : Check) (buf : Buf) (num : ℕ) (c : Client)
    → r ≢ Check.passed
    → check_frame 7 Cmd.set_uart_recv_attr buf num ≡ r
    → check_for_set_uart_recv_attr buf num c ≡ some (r, c)
unfolding check_for_set_uart_recv_attr
set_uart_recv_attr_refusal Check.passed buf num c n e = absurd (n refl)
set_uart_recv_attr_refusal _ buf num c n e = rw (e, check_for_set_uart_recv_attr) refl

-- A check that does not pass ends the handling of its command.
refusal_stops :
    (r : Check)
    → r ≢ Check.passed
    → (cmd : Cmd) (env : Env) (buf : Buf) (num : ℕ) (c : Client) → cmd ≢ Cmd.set_temp
    → check_frame (shortest cmd) cmd buf num ≡ r
    → handle cmd env buf num c ≡ some c
unfolding handle on_get_device_attr check_for_get_device_attr on_set_device_attr
    check_for_set_device_attr on_get_alarm_status check_for_get_alarm_status on_set_time
    check_for_set_time on_set_heartbeat on_get_uart_qty check_for_get_uart_qty on_get_uart_attr
    check_for_get_uart_attr on_set_uart_attr check_for_set_uart_attr on_query_uart_sendbuf
    on_uart_send_data on_set_uart_recv_attr on_query_uart_recv_data check_for_query_uart_recv_data
    on_get_io_num check_for_get_io_num on_set_io check_for_set_io on_get_io_status
    check_for_get_io_status on_get_temp_num check_for_get_temp_num on_get_temp_status
    check_for_get_temp_status
refusal_stops Check.passed n cmd env buf num c t e = absurd (n refl)
refusal_stops Check.num_is_not_enough n Cmd.set_temp env buf num c t e = absurd (t refl)
refusal_stops Check.num_is_not_enough n Cmd.get_time env buf num c t e = refl
refusal_stops Check.num_is_not_enough n Cmd.set_heartbeat env buf num c t e =
    rw (set_heartbeat_refusal Check.num_is_not_enough buf num c n e) refl
refusal_stops Check.num_is_not_enough n Cmd.query_uart_sendbuf env buf num c t e =
    rw (query_uart_sendbuf_refusal Check.num_is_not_enough buf num c n e) refl
refusal_stops Check.num_is_not_enough n Cmd.uart_send_data env buf num c t e =
    rw (uart_send_data_refusal Check.num_is_not_enough buf num c n e) refl
refusal_stops Check.num_is_not_enough n Cmd.set_uart_recv_attr env buf num c t e =
    rw (set_uart_recv_attr_refusal Check.num_is_not_enough buf num c n e) refl
refusal_stops Check.num_is_not_enough n _ env buf num c t e = rw e refl
refusal_stops Check.head_or_device_id n Cmd.set_temp env buf num c t e = absurd (t refl)
refusal_stops Check.head_or_device_id n Cmd.get_time env buf num c t e = refl
refusal_stops Check.head_or_device_id n Cmd.set_heartbeat env buf num c t e =
    rw (set_heartbeat_refusal Check.head_or_device_id buf num c n e) refl
refusal_stops Check.head_or_device_id n Cmd.query_uart_sendbuf env buf num c t e =
    rw (query_uart_sendbuf_refusal Check.head_or_device_id buf num c n e) refl
refusal_stops Check.head_or_device_id n Cmd.uart_send_data env buf num c t e =
    rw (uart_send_data_refusal Check.head_or_device_id buf num c n e) refl
refusal_stops Check.head_or_device_id n Cmd.set_uart_recv_attr env buf num c t e =
    rw (set_uart_recv_attr_refusal Check.head_or_device_id buf num c n e) refl
refusal_stops Check.head_or_device_id n _ env buf num c t e = rw e refl
refusal_stops Check.crc_check n Cmd.set_temp env buf num c t e = absurd (t refl)
refusal_stops Check.crc_check n Cmd.get_time env buf num c t e = refl
refusal_stops Check.crc_check n Cmd.set_heartbeat env buf num c t e =
    rw (set_heartbeat_refusal Check.crc_check buf num c n e) refl
refusal_stops Check.crc_check n Cmd.query_uart_sendbuf env buf num c t e =
    rw (query_uart_sendbuf_refusal Check.crc_check buf num c n e) refl
refusal_stops Check.crc_check n Cmd.uart_send_data env buf num c t e =
    rw (uart_send_data_refusal Check.crc_check buf num c n e) refl
refusal_stops Check.crc_check n Cmd.set_uart_recv_attr env buf num c t e =
    rw (set_uart_recv_attr_refusal Check.crc_check buf num c n e) refl
refusal_stops Check.crc_check n _ env buf num c t e = rw e refl

wrong_stops :
    (cmd : Cmd) (env : Env) (buf : Buf) (num : ℕ) (c : Client)
    → cmd ≢ Cmd.set_temp
    → (num % 256 < shortest cmd) ⊎ (buf 3 ≢ 0x01)
    → handle cmd env buf num c ≡ some c
wrong_stops cmd env buf num c t h =
    let short : num % 256 < shortest cmd → handle cmd env buf num c ≡ some c = λ lt.
      refusal_stops Check.num_is_not_enough (λ e. cc) cmd env buf num c t
        (check-short (shortest cmd) cmd buf num lt) in
    let device : shortest cmd ≤ num % 256 → buf 3 ≢ 0x01 → handle cmd env buf num c ≡ some c =
      λ ge d.
        refusal_stops Check.head_or_device_id (λ e. cc) cmd env buf num c t
          (check-device (shortest cmd) cmd buf num ge d) in
    elim h [
      | inl lt ↦ short lt
      | inr d ↦ elim (Bool-cases (ltb (num % 256) (shortest cmd))) [
        | inl lt ↦ short (ground arith)
        | inr ge ↦ device (ground arith) d
      ]
    ]

not_set_temp : (cmd : Cmd) (k : ℕ) → k < shortest cmd → cmd ≢ Cmd.set_temp
not_set_temp cmd k h e = absurd (omega (arith, subst (λ x. k < shortest x) e h))

-- A frame with a wrong start changes nothing at all. A frame with the right start but no known
-- command only marks the connection as used, and so does a frame of any command except SET_TEMP that
-- has fewer bytes than its command needs (counted modulo 256) or the number of another device: nothing
-- is answered, stored, saved or driven. SET_TEMP, which is handled unchecked, is left out.
pub frame_ignored :
    (env : Env) (buf : Buf) (num : ℕ) (c : Client)
    → Wrong buf num
    → process_frame env buf num c
      ≡ some (if check_head buf then record c { sockfd_status = 1 } else c)
unfolding process_frame
frame_ignored env buf num c (Wrong.bad_start h) =
    let e : check_head buf ≡ false = unfold check_head in ground arith in rw e refl
frame_ignored env buf num c (Wrong.no_command e) = elim (Bool-cases (check_head buf)) [
  | inl y ↦ rw (y, e) refl
  | inr n ↦ rw n refl
]
frame_ignored env buf num c (Wrong.too_short cmd e h) =
    let c1 = record c { sockfd_status = 1 } in
    elim (Bool-cases (check_head buf)) [
      | inl y ↦ rw (y, e) (wrong_stops cmd env buf num c1 (not_set_temp cmd (num % 256) h) (inl h))
      | inr n ↦ rw n refl
    ]
frame_ignored env buf num c (Wrong.other_device cmd e t h) =
    let c1 = record c { sockfd_status = 1 } in
    elim (Bool-cases (check_head buf)) [
      | inl y ↦ rw (y, e) (wrong_stops cmd env buf num c1 t (inr h))
      | inr n ↦ rw n refl
    ]
