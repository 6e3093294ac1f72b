-- ===== src/Itslib.antt =====
-- The library through which the web pages talk to the command server: itslib/src/net.c and the
-- transactions of itslib/src/itscmd.c.
pub mod Settings
pub mod Users
pub mod Ports
pub mod Login
pub mod Setting
use itertk.Base.{
  ℕ, ◌+◌, Bool, true, false, Option, none, some, List, [], ◌∷◌, ◌++◌, Buf, min, ltb, leb, ◌==◌,
  if◌then◌else◌, length, take, drop, get_or,
}
use itertk.Conf.Users.{CmdCode, code_number}
use itertk.Client.Link.{is_open}
use itertk.Wire.{Poll, NetConn, Step, Action, ◌>>=◌, net_conn_close, next_call, later_calls}
use itertk.Wire.Packet.{Itsip, ItsCmd, its_id, itsip_pack, Abi}
use itertk.Wire.Send.{net_conn_send}

-- How a connection to the server goes: no socket, refused, or there, with the bytes that the server
-- will send and the turns of the transfers. The number is the descriptor.
pub data Dial : Type 0 where
  no_socket : Dial
  refused : ℕ → Dial
  connected : ℕ → List ℕ → List (ℕ × List Poll) → Dial

-- What a page runs in: the layout of the objects, the bytes behind an object that is sent, `crypt` with
-- the salt of the users, the connection, and what a packet without initialiser holds.
pub record Page : Type 0 where
  pub abi : Abi
  pub memory : Buf
  pub crypt : List ℕ → List ℕ
  pub dial : Dial
  pub uninit : Itsip

abbrev pub dialled : ℕ → List ℕ → List (ℕ × List Poll) → NetConn
dialled fd inbox calls = record {
  conn_idx = none;
  client_conn = some fd;
  file_type = 0;
  idle = 0;
  clientip = [];
  inbox = inbox;
  outbox = [];
  calls = calls;
}

-- `connect` that fails closes the descriptor and leaves its number in place.
unfoldable pub net_conn_connect : Dial → Option NetConn
net_conn_connect Dial.no_socket = none
net_conn_connect (Dial.refused fd) = none
net_conn_connect (Dial.connected fd inbox calls) = some (dialled fd inbox calls)

-- One `select` of three seconds and one `recv`: whether all bytes that were asked for have come, and
-- those that have.
unfoldable pub net_conn_recv : ℕ → Action NetConn (Bool × List ℕ)
net_conn_recv len c =
    let c' = record c { calls = later_calls c.calls } in
    elim (next_call c.calls).1 [
      | [] ↦ Step.pending
      | Poll.moved k t1 t3 ∷ _ ↦
          let here = take (min k len) c.inbox in
          Step.done ((length here == len, here), record c' { inbox = drop (min k len) c.inbox })
      | _ ∷ _ ↦ Step.done ((false, []), c')
    ]

-- What a transaction returns, the bytes that it leaves in the caller's object, and its connection.
pub record Result : Type 0 where
  pub code : ℕ
  pub object : List ℕ
  pub conn : Option NetConn

-- `strcpy` into a field
unfoldable pub put_string : List ℕ → List ℕ → Option (List ℕ)
put_string s field =
    if ltb (length s) (length field) then some (s ++ (0 ∷ drop (length s + 1) field)) else none

-- a packed head, and one with the user's name
abbrev pub packed : Page → ItsCmd → ℕ → Itsip
packed page cmd extlen = itsip_pack (its_id cmd) extlen page.uninit

abbrev pub with_user : List ℕ → Itsip → Option Itsip
with_user name head = elim (put_string name head.itsip_user) [
  | none ↦ none
  | some user ↦ some (record head { itsip_user = user })
]

-- writes into the first bytes of `itsip_data`
abbrev pub with_data : List ℕ → Itsip → Itsip
with_data vs head = record head { itsip_data = vs ++ drop (length vs) head.itsip_data }

abbrev pub map_head : (Itsip → Itsip) → Option Itsip → Option Itsip
map_head f none = none
map_head f (some head) = some (f head)

-- The end of a transaction that failed, with what it has left in the object: the connection is closed.
abbrev pub give_up : ℕ → List ℕ → NetConn → Step Result
give_up code object c =
    Step.done (record { code = code; object = object; conn = some (net_conn_close c) })

-- The head of the answer, or the end with the code `lost`.
unfoldable pub receive_head : Page → ℕ → (Itsip → NetConn → Step Result) → NetConn → Step Result
unfolding net_conn_recv
receive_head page lost k c = elim (net_conn_recv page.abi.head.size c) [
  | Step.pending ↦ Step.pending
  | Step.fault ↦ Step.fault
  | Step.done r ↦ if r.0.0 then k (page.abi.head.load r.0.1) r.1 else give_up lost [] r.1
]

-- What all transactions begin with: connect, send the head with its object, receive a head.
unfoldable pub talk :
    Page → Option Itsip → List ℕ → ℕ → (Itsip → NetConn → Step Result) → Step Result
unfolding net_conn_connect net_conn_send receive_head code_number
talk page none object lost k = Step.fault
talk page (some head) object lost k = elim (net_conn_connect page.dial) [
  | none ↦ Step.done (record { code = code_number CmdCode.conn_failed; object = []; conn = none })
  | some c ↦ elim (net_conn_send (page.abi.head.store head) object page.memory c) [
    | Step.pending ↦ Step.pending
    | Step.fault ↦ Step.fault
    | Step.done r ↦
        if r.0
        then receive_head page lost k r.1
        else give_up (code_number CmdCode.send_failed) [] r.1
  ]
]

-- A query: the object whose length the answer's head states. More bytes than the caller's object has
-- overrun it.
unfoldable pub fetch : Page → Option Itsip → ℕ → ℕ → Step Result
unfolding talk net_conn_recv net_conn_close
fetch page head lost size = talk page head [] lost λ ack c.
    elim (net_conn_recv ack.itsip_extlen c) [
      | Step.pending ↦ Step.pending
      | Step.fault ↦ Step.fault
      | Step.done r ↦
          if ltb size (length r.0.1)
          then Step.fault
          else if r.0.0
          then Step.done (record {
            code = code_number CmdCode.query_ok;
            object = r.0.1;
            conn = some (net_conn_close r.1);
          })
          else give_up (code_number CmdCode.recv_failed) r.0.1 r.1
    ]

-- A setting: the answer's first data byte is the result, and the connection is closed.
unfoldable pub submit : Page → Option Itsip → List ℕ → Step Result
unfolding talk net_conn_close
submit page head object = talk page head object (code_number CmdCode.recv_failed) λ ack c.
    Step.done
      (record { code = get_or ack.itsip_data 0 0; object = []; conn = some (net_conn_close c) })

-- The user commands do not close the connection.
unfoldable pub submit_open : Page → Option Itsip → List ℕ → Step Result
unfolding talk
submit_open page head object =
    talk page head object (code_number CmdCode.recv_failed)
      λ ack c. Step.done (record { code = get_or ack.itsip_data 0 0; object = []; conn = some c })

-- `FAILURE`, which some queries return in place of RECV_FAILED
abbrev pub failure : ℕ
failure = 0
