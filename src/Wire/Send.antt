-- ===== src/Wire/Send.antt =====
-- `net_conn_send_pkt` and `net_conn_send` of nc600-2.0/src/web_net.c.
pub mod Blocks
use itertk.Base.{
  ℕ, ◌-◌, Bool, true, false, List, [], ◌∷◌, ◌++◌, Buf, bytes, ◌==◌, if◌then◌else◌, length, take,
  drop,
}
use itertk.Client.Link.{is_open}
use itertk.Wire.{
  Poll, NetConn, Step, Action, ◌>>=◌, net_conn_close, timed_out, next_call, later_calls,
}

-- `MAX_LENGTH`
abbrev pub max_length : ℕ
max_length = 1024

-- The turns left: `t` is the clock at the start, `left` the bytes not sent yet.
unfoldable pub send_loop : List Poll → ℕ → List ℕ → Action NetConn Bool
unfolding net_conn_close
send_loop [] t left c = Step.pending
send_loop (Poll.interrupted ∷ ps) t left c = send_loop ps t left c
send_loop (Poll.failed ∷ ps) t left c = Step.done (false, net_conn_close c)
send_loop (Poll.waiting now ∷ ps) t left c =
    let rest = send_loop ps t left c in
    if timed_out t now then Step.done (false, net_conn_close c) else rest
send_loop (Poll.broken reset ∷ ps) t left c = Step.done (false, net_conn_close c)
send_loop (Poll.moved k t1 t3 ∷ ps) t left c =
    let c' = record c { outbox = c.outbox ++ take k left } in
    let rest = send_loop ps t (drop k left) c' in
    if length (take k left) == 0
    then Step.done (false, net_conn_close c')
    else if length (drop k left) == 0
    then Step.done (true, c')
    else if timed_out t t3
    then Step.done (false, net_conn_close c')
    else rest

unfoldable pub net_conn_send_pkt : List ℕ → Action NetConn Bool
unfolding send_loop
net_conn_send_pkt block c =
    let call = next_call c.calls in
    if is_open c.client_conn
    then send_loop call.1 call.0 block (record c { idle = 0; calls = later_calls c.calls })
    else Step.done (false, c)

-- The `MAX_LENGTH` bytes from the start of an object on: its own, then what lies behind it.
unfoldable pub from_object : List ℕ → Buf → List ℕ
from_object own memory = take max_length (own ++ bytes memory 0 (max_length - length own))

-- The head, then a block of `MAX_LENGTH` bytes whatever the length of the object is; without an
-- object (the empty list) only the head. The result is that of the last call.
unfoldable pub net_conn_send : List ℕ → List ℕ → Buf → Action NetConn Bool
unfolding net_conn_send_pkt from_object
net_conn_send head [] memory = net_conn_send_pkt head
net_conn_send head (b ∷ own) memory =
    net_conn_send_pkt head >>= λ _. net_conn_send_pkt (from_object (b ∷ own) memory)
