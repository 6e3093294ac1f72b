-- ===== src/Com.antt =====
-- The serial ports of nc600-2.0/src/com.c: the settings of a line, and the loop that reads a port.
pub mod Line
use itertk.Base.{
  ℕ, ◌+◌, Bool, true, false, Option, none, some, List, [], ◌∷◌, Buf, ltb, ◌==◌, ◌||◌, if◌then◌else◌,
  get_elem?, get_or, dec32, ◌>>=◌, bytes,
}
use itertk.Conf.{ConfigCom}
use itertk.Client.{Client}
use itertk.Client.Uart.{is_good_bps}
use itertk.Client.Serial.{send_com_data_to_net_poll_mode, send_com_data_to_net_int_mode}

-- What `setTTY` changes of a `struct termios`; the character size is none while its bits are clear.
pub record Termios : Type 0 where
  pub speed : ℕ
  pub csize : Option ℕ
  pub parenb : Bool
  pub parodd : Bool
  pub inpck_istrip : Bool
  pub cstopb : Bool
  pub clocal_cread : Bool
  pub icanon_echo_isig : Bool
  pub opost : Bool
  pub vtime : ℕ
  pub vmin : ℕ

-- The results: -1 for a port that is not open or illegal data bits, -2, -3, -4 when the line refuses the
-- settings, and 1.
pub data TtyResult : Type 0 where
  no_port bad_databits bad_parity bad_stopbits refused set_line : TtyResult

-- The rates of the switch stand for themselves, any other is 115200.
abbrev listed : ℕ → List ℕ → Bool
listed n [] = false
listed n (m ∷ ms) = n == m || listed n ms

unfoldable pub line_speed : ℕ → ℕ
line_speed speed =
    if listed speed (
      300 ∷ 600 ∷ 1200 ∷ 2400 ∷ 4800 ∷ 9600 ∷ 19200 ∷ 38400 ∷ 57600 ∷ 115200 ∷ 230400 ∷ 460800
      ∷ 576000 ∷ 921600 ∷ [])
    then speed
    else 115200

unfoldable pub line_databits : ℕ → Option ℕ
line_databits databits =
    if databits == 5 || (databits == 6 || (databits == 7 || databits == 8))
    then some databits
    else none

-- parity enabled, parity odd, input check with stripping
unfoldable pub line_parity : ℕ → Option (Bool × Bool × Bool)
line_parity parity =
    if parity == 3
    then some (false, false, false)
    else if parity == 2
    then some (true, true, true)
    else if parity == 1
    then some (true, false, true)
    else none

-- two stop bits
unfoldable pub line_stopbits : ℕ → Option Bool
line_stopbits stopbits =
    if stopbits == 1 then some false else if stopbits == 2 then some true else none

-- The settings as they are made from those that `tcgetattr` gave, up to the first illegal value.
unfoldable pub line_settings : Termios → ℕ → ℕ → ℕ → ℕ → TtyResult × Termios
unfolding line_speed line_databits line_parity line_stopbits
line_settings old speed databits parity stopbits =
    let fast = record old { speed = line_speed speed; csize = none } in
    elim (line_databits databits) [
      | none ↦ (TtyResult.bad_databits, fast)
      | some n ↦ elim (line_parity parity) [
        | none ↦ (TtyResult.bad_parity, record fast { csize = some n })
        | some p ↦ elim (line_stopbits stopbits) [
          | none ↦ (
            TtyResult.bad_stopbits,
            record fast { csize = some n; parenb = p.0; parodd = p.1; inpck_istrip = p.2 },
          )
          | some two ↦ (
            TtyResult.set_line,
            record fast {
              csize = some n;
              parenb = p.0;
              parodd = p.1;
              inpck_istrip = p.2;
              cstopb = two;
              clocal_cread = true;
              icanon_echo_isig = false;
              opost = false;
              vtime = 0;
              vmin = 0;
            },
          )
        ]
      ]
    ]

-- The result and the line after `tcsetattr`, which says by `accepts` whether it takes the settings.
unfoldable pub apply_line : Bool → Termios → TtyResult × Termios → TtyResult × Termios
apply_line accepts old r = elim r.0 [
  | TtyResult.set_line ↦ if accepts then (TtyResult.set_line, r.1) else (TtyResult.refused, old)
  | other ↦ (other, old)
]

-- `setTTY`: what the line has afterwards.
unfoldable pub set_tty : Bool → ℕ → Termios → ℕ → ℕ → ℕ → ℕ → TtyResult × Termios
unfolding line_settings apply_line
set_tty accepts fd old speed databits parity stopbits =
    if ltb 0 fd
    then apply_line accepts old (line_settings old speed databits parity stopbits)
    else (TtyResult.no_port, old)

-- The settings of one port: the line's result is not looked at.
unfoldable pub com_para_set : Bool → ℕ → ConfigCom → Client × Termios → Client × Termios
unfolding set_tty
com_para_set accepts fd con_com s =
    if ltb 0 fd
    then (
      record s.0 { rs_type = con_com.type },
      (set_tty accepts fd s.1 con_com.bps con_com.dbit con_com.chk con_com.sbit).1,
    )
    else s

-- What one turn of `com_proc` reads from its port: nothing, or bytes.
-- In RS232 mode they go to the network sessions and, by the port's mode, to the alarm client; in
-- RS485 mode only to the sessions. `sent` collects what goes to the sessions of a port.
pub record Turn : Type 0 where
  pub client : Client
  pub sent : List (ℕ × List ℕ)

abbrev to_client : ℕ → ℕ → Buf → ℕ → Buf → Client → Option Client
to_client mode id block len buf c =
    if mode == 0
    then send_com_data_to_net_poll_mode id block len c
    else if mode == 1
    then send_com_data_to_net_int_mode id block len buf c
    else some c

-- `id` is `con_com->id - 1`, `buf` the buffer of the answer that interrupt mode sends.
unfoldable pub com_turn : ℕ → Option (Buf × ℕ) → Buf → Client → Option Turn
unfolding send_com_data_to_net_poll_mode send_com_data_to_net_int_mode
com_turn id none buf c = some (record { client = c; sent = [] })
com_turn id (some read) buf c =
    let conf = c.conf in
    if c.rs_type == 0
    then (get_elem? conf.con_com id >>= λ port.
        to_client (get_or port.rsvd 0 0) id read.0 read.1 buf c >>= λ c'.
        some (record { client = c'; sent = (id, bytes read.0 0 read.1) ∷ [] }))
    else if c.rs_type == 1
    then some (record { client = c; sent = (id, bytes read.0 0 read.1) ∷ [] })
    else some (record { client = c; sent = [] })
