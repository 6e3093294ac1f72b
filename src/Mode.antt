-- ===== src/Mode.antt =====
-- The network sessions of the serial ports: the thread `mode_proc` and `SendComDataToNet` of
-- nc600-2.0/src/mode.c.
pub mod Sockets
pub mod Delivery
use itertk.Base.{
  ℕ, ◌+◌, Bool, true, false, Option, none, some, List, [], ◌∷◌, ◌++◌, ltb, ◌==◌, ◌&&◌, ◌||◌,
  if◌then◌else◌, not, str_eq,
}
use itertk.Conf.{ConfigSession}
use itertk.Client.Link.{is_open}

-- `enum TCP_PTL`, and the mode of a port that does no work
abbrev pub tcp_cli : ℕ
tcp_cli = 1

abbrev pub tcp_srv : ℕ
tcp_srv = 2

abbrev pub tcp_udp : ℕ
tcp_udp = 3

abbrev pub work_no : ℕ
work_no = 0

-- `MODECONFIG` of one session: a descriptor is none for -1, and `some 0` for one that is not open.
-- `working` is the copy `tmp` of the session while the inner loop runs, none at the label AGAIN.
pub record ModeConfig : Type 0 where
  pub fd : Option ℕ
  pub sfd : List (Option ℕ)
  pub working : Option ConfigSession

-- What leaves a step: bytes passed to the serial port, and descriptors closed.
pub data Output : Type 0 where
  to_com : List ℕ → Output
  closed : Option ℕ → Output

-- What `recv` gives: an error, or bytes; none of them when the other end has closed.
abbrev pub Received : Type 0
Received = Option (List ℕ)

-- What a step meets: the descriptor that opening a socket gives, the connection that `accept` gives if
-- the listening socket is ready, and what each descriptor that is ready receives.
pub record Arrivals : Type 0 where
  pub opened : Option ℕ
  pub accepted : Option (Option ℕ)
  pub received : ℕ → Option Received

-- `memcmp` of two sessions, the reserved bytes among them
abbrev pub same_session : ConfigSession → ConfigSession → Bool
same_session a b =
    a.protocol == b.protocol
    && (a.ip == b.ip
        && (a.lport == b.lport
            && (a.dport == b.dport
                && (a.conn == b.conn
                    && (a.dis_conn == b.dis_conn
                        && (a.time_out == b.time_out
                            && (a.max_num == b.max_num && str_eq a.rsvd b.rsvd)))))))

abbrev pub not_in_use : Option ℕ → Bool
not_in_use none = false
not_in_use (some n) = n == 0

-- The label AGAIN: a socket is opened for one of the three protocols.
unfoldable pub mode_open : ℕ → ConfigSession → Arrivals → ModeConfig → ModeConfig
mode_open work session i md =
    if work == work_no
    then md
    else if session.protocol == tcp_cli
        || (session.protocol == tcp_srv || session.protocol == tcp_udp)
    then (let md' = record md { fd = i.opened } in
        if is_open i.opened then record md' { working = some session } else md')
    else md

-- the closing of the accepted connections
unfoldable pub close_sockets : List (Option ℕ) → List (Option ℕ) × List Output
close_sockets [] = ([], [])
close_sockets (s ∷ ss) =
    let rest = close_sockets ss in
    if not_in_use s then (s ∷ rest.0, rest.1) else (some 0 ∷ rest.0, closed s ∷ rest.1)

-- The session has changed, or no work is to be done.
unfoldable pub mode_stop : ModeConfig → ModeConfig × List Output
unfolding close_sockets
mode_stop md =
    let r = close_sockets md.sfd in
    (record { fd = some 0; sfd = r.0; working = none }, closed md.fd ∷ r.1)

-- The first entry that is not in use takes the connection, also one that failed; without such an entry
-- it is closed.
unfoldable pub take_socket : Option ℕ → List (Option ℕ) → List (Option ℕ) × List Output
take_socket new [] = ([], closed new ∷ [])
take_socket new (s ∷ ss) =
    let rest = take_socket new ss in if not_in_use s then (new ∷ ss, []) else (s ∷ rest.0, rest.1)

-- What a ready descriptor gives: true if it goes on.
abbrev pub on_data : Option ℕ → Received → Bool × List Output
on_data s none = (true, [])
on_data s (some []) = (false, closed s ∷ [])
on_data s (some (b ∷ bs)) = (true, to_com (b ∷ bs) ∷ [])

abbrev pub ready_of : (ℕ → Option Received) → Option ℕ → Option Received
ready_of received none = none
ready_of received (some n) = if ltb 0 n then received n else none

-- One accepted connection in the loop that reads them.
abbrev pub read_one : (ℕ → Option Received) → Option ℕ → Option ℕ × List Output
read_one received s = elim (ready_of received s) [
  | none ↦ (s, [])
  | some r ↦ let d = on_data s r in (if d.0 then s else some 0, d.1)
]

unfoldable pub read_sockets :
    (ℕ → Option Received) → List (Option ℕ) → List (Option ℕ) × List Output
read_sockets received [] = ([], [])
read_sockets received (s ∷ ss) =
    let one = read_one received s in
    let rest = read_sockets received ss in (one.0 ∷ rest.0, one.1 ++ rest.1)

-- TCP_CLI: the other end that closes leads back to AGAIN.
unfoldable pub client_turn : Arrivals → ModeConfig → ModeConfig × List Output
client_turn i md = elim (ready_of i.received md.fd) [
  | none ↦ (md, [])
  | some r ↦
      let d = on_data md.fd r in
      (if d.0 then md else record md { fd = some 0; working = none }, d.1)
]

-- TCP_SRV: accept, then read.
unfoldable pub server_turn : Arrivals → ModeConfig → ModeConfig × List Output
unfolding take_socket read_sockets
server_turn i md =
    let a : List (Option ℕ) × List Output = elim i.accepted [
      | none ↦ (md.sfd, [])
      | some new ↦ take_socket new md.sfd
    ] in
    let r = read_sockets i.received a.0 in (record md { sfd = r.0 }, a.1 ++ r.1)

abbrev pub passed : Option Received → List Output
passed none = []
passed (some none) = []
passed (some (some [])) = []
passed (some (some (b ∷ bs))) = to_com (b ∷ bs) ∷ []

-- TCP_UDP: whatever comes is passed on.
unfoldable pub udp_turn : Arrivals → ModeConfig → ModeConfig × List Output
udp_turn i md = (md, passed (ready_of i.received md.fd))

-- One turn of the thread.
unfoldable pub mode_step : ℕ → ConfigSession → Arrivals → ModeConfig → ModeConfig × List Output
unfolding mode_open mode_stop client_turn server_turn udp_turn
mode_step work session i md = elim md.working [
  | none ↦ (mode_open work session i md, [])
  | some tmp ↦
      if work == work_no || not (same_session session tmp)
      then mode_stop md
      else if session.protocol == tcp_cli
      then client_turn i md
      else if session.protocol == tcp_srv
      then server_turn i md
      else if session.protocol == tcp_udp
      then udp_turn i md
      else (md, [])
]

-- The descriptors that are not 0 among the accepted ones, for SendComDataToNet.
abbrev pub in_use : List (Option ℕ) → List (Option ℕ)
in_use [] = []
in_use (s ∷ ss) = if not_in_use s then in_use ss else s ∷ in_use ss

-- `SendComDataToNet`: where the data of a port go, session by session; UDP names the address too, which
-- is the session's.
unfoldable pub send_com_data_to_net : List (ConfigSession × ModeConfig) → List (Option ℕ)
send_com_data_to_net [] = []
send_com_data_to_net (m ∷ ms) =
    let rest = send_com_data_to_net ms in
    if m.0.protocol == tcp_cli || m.0.protocol == tcp_udp
    then in_use (m.1.fd ∷ []) ++ rest
    else if m.0.protocol == tcp_srv
    then in_use m.1.sfd ++ rest
    else rest
