-- ===== src/Client/Link.antt =====
-- The connection to the alarm server: the heartbeat and the reconnection of nc600-2.0/src/client.c.
pub mod Reconnect
pub mod Connect
use itertk.Base.{
  ℕ, zero, suc, ◌+◌, Bool, true, false, ◌||◌, Option, none, some, List, [], ◌∷◌, Buf, store, ltb,
  ◌==◌, if◌then◌else◌, u16, ◌>>=◌,
}
use itertk.Conf.{with_address}
use itertk.Client.{Client, Event}
use itertk.Client.Frame.{Cmd, Check, check_frame, make_ack_head, make_crc_num}

abbrev pub reconnect_off : ℕ
reconnect_off = 0

abbrev pub reconnect_on : ℕ
reconnect_on = 1

abbrev pub heartbeat_offline : ℕ
heartbeat_offline = 2

abbrev pub heartbeat_online : ℕ
heartbeat_online = 3

-- `HEARTBEAT_TIMEOUT`, in seconds
abbrev pub heartbeat_default : ℕ
heartbeat_default = 10

-- `LED_D3_ALARM_SERVER_STATUS`; a LED is on at the low level
abbrev pub led_server : ℕ
led_server = 34

abbrev pub led_ctrl : ℕ → ℕ → Client → Client
led_ctrl led on_off c = record c { log = Event.gpio led on_off ∷ c.log }

unfoldable pub set_heartbeat : ℕ → ℕ → Client → Client
set_heartbeat status time c =
    if status == heartbeat_online || status == heartbeat_offline
    then record c { reconnect_flag = status; heartbeat_s = time; heartbeat_timeout = 0 }
    else c

-- The period is taken over before the checksum is looked at.
unfoldable pub check_for_set_heartbeat : Buf → ℕ → Client → Check × Client
unfolding check_frame
check_for_set_heartbeat b num c = elim (check_frame 6 Cmd.set_heartbeat b num) [
  | Check.passed ↦ (Check.passed, record c { heartbeat_s = b 4 })
  | other ↦ (other, c)
]

unfoldable pub make_ack_set_heartbeat : ℕ → Buf → ℕ × Buf
unfolding make_ack_head make_crc_num
make_ack_set_heartbeat heartbeat_s b =
    let b' = store (make_ack_head b 0x0a) 4 heartbeat_s in (6, store b' 5 (make_crc_num b' 5))

-- The first lines of the loop of `client_process`: a second has passed.
unfoldable pub tick : Client → Client
unfolding set_heartbeat
tick c =
    let c' = record c { heartbeat_timeout = u16 (c.heartbeat_timeout + 1) } in
    if ltb c'.heartbeat_s c'.heartbeat_timeout
    then set_heartbeat heartbeat_offline heartbeat_default c'
    else c'

-- How one call of `client_connect_server` goes: `socket` fails, the server's name is not resolved, the
-- connection fails or times out, or it stands. The numbers are the descriptor and the server's address
-- as the name was resolved.
pub data Attempt : Type 0 where
  no_socket : Attempt
  dns_failed : ℕ → Attempt
  refused connected : ℕ → ℕ → Attempt

abbrev pub is_open : Option ℕ → Bool
is_open none = false
is_open (some fd) = ltb 0 fd

-- `close` of an open descriptor, as it stands in three places
abbrev pub drop_socket : Client → Client
drop_socket c = if is_open c.sockfd then record c { sockfd_status = 0; sockfd = none } else c

-- the resolved address in the configuration
abbrev pub resolved_to : ℕ → Client → Client
resolved_to ip c = record c { conf = with_address c.conf ip }

-- What a call of `client_connect_server` does, by how it goes. The Boolean is true for SUCCESS.
unfoldable pub attempt_result : Client → Attempt → Bool × Client
attempt_result c Attempt.no_socket = (false, record c { sockfd = none })
attempt_result c (Attempt.dns_failed fd) = (false, record c { sockfd = some fd })
attempt_result c (Attempt.refused fd ip) = (
  false,
  drop_socket (resolved_to ip (record c { sockfd = some fd; reconnect_flag = reconnect_on })),
)
attempt_result c (Attempt.connected fd ip) = (true, resolved_to ip (record c { sockfd = some fd }))

-- The loop over the attempts; `none` while none of them has succeeded.
pub reconnect_loop : List Attempt → Client → Option Client
unfolding attempt_result
reconnect_loop [] c = none
reconnect_loop (a ∷ tries) c =
    let r = attempt_result c a in
    let rest = reconnect_loop tries (drop_socket r.1) in if r.0 then some r.1 else rest

unfoldable pub client_reconnect : List Attempt → Client → Option Client
unfolding reconnect_loop
client_reconnect tries c = reconnect_loop tries (led_ctrl led_server 1 (drop_socket c))

-- The part of a round that reconnects.
unfoldable pub keep_connected : List Attempt → Client → Option Client
unfolding client_reconnect
keep_connected tries c =
    if c.reconnect_flag == reconnect_on || c.reconnect_flag == heartbeat_offline
    then (client_reconnect tries c >>= λ c'. some (record c' { reconnect_flag = reconnect_off }))
    else some c
