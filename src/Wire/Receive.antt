-- ===== src/Wire/Receive.antt =====
-- `web_conn_recv` of nc600-2.0/src/web_net.c: the loop that receives a block of a known length.
pub mod Blocks
use itertk.Base.{
  ℕ, ◌-◌, Bool, true, false, List, [], ◌∷◌, ◌++◌, min, ◌==◌, if◌then◌else◌, length, take, drop,
}
use itertk.Client.Link.{is_open}
use itertk.Wire.{Poll, NetConn, Step, Action, net_conn_close, timed_out, next_call, later_calls}

-- SUCCESS or FAILURE, and the bytes that stand in the buffer.
pub record Received : Type 0 where
  pub ok : Bool
  pub got : List ℕ

-- The turns left: `n` bytes are still wanted, and `t` is the clock of the last bytes.
unfoldable pub recv_loop : List Poll → ℕ → ℕ → List ℕ → Action NetConn Received
unfolding net_conn_close
recv_loop [] t n got c = Step.pending
recv_loop (Poll.interrupted ∷ ps) t n got c = recv_loop ps t n got c
recv_loop (Poll.failed ∷ ps) t n got c =
    Step.done (record { ok = false; got = got }, net_conn_close c)
recv_loop (Poll.waiting now ∷ ps) t n got c =
    let rest = recv_loop ps t n got c in
    if timed_out t now then Step.done (record { ok = false; got = got }, net_conn_close c) else rest
recv_loop (Poll.broken reset ∷ ps) t n got c =
    Step.done (record { ok = false; got = got }, if reset then net_conn_close c else c)
recv_loop (Poll.moved k t1 t3 ∷ ps) t n got c =
    let here = take (min k n) c.inbox in
    let c' = record c { inbox = drop (min k n) c.inbox } in
    let rest = recv_loop ps t1 (n - length here) (got ++ here) c' in
    if length here == 0
    then Step.done (record { ok = false; got = got }, net_conn_close c')
    else if length here == n
    then Step.done (record { ok = true; got = got ++ here }, c')
    else if timed_out t1 t3
    then Step.done (record { ok = false; got = got ++ here }, net_conn_close c')
    else rest

unfoldable pub web_conn_recv : ℕ → Action NetConn Received
unfolding recv_loop
web_conn_recv len c =
    let call = next_call c.calls in
    if is_open c.client_conn
    then recv_loop call.1 call.0 len [] (record c { calls = later_calls c.calls })
    else Step.done (record { ok = false; got = [] }, c)
