-- ===== src/Web/Table.antt =====
-- The table of connections: `web_init` and `web_process` of nc600-2.0/src/web_net.c.
pub mod Served
use itertk.Base.{
  ℕ, zero, suc, ◌+◌, Bool, true, false, Option, none, some, List, [], ◌∷◌, ltb, if◌then◌else◌,
  length, replicate,
}
use itertk.Conf.{ConfigNet}
use itertk.Client.{Client}
use itertk.Client.Link.{is_open}
use itertk.Wire.{NetConn, Poll, Step, net_conn_close}
use itertk.Web.{Web, Board}
use itertk.Web.Command.{web_svr_proc}

-- `MAX_TCP_CONN`
abbrev pub max_tcp_conn : ℕ
max_tcp_conn = 9

-- The globals of the server; `max_i` and `max_sock` are `m_max_i` and `m_max_sock`.
pub record Server : Type 0 where
  pub client : Client
  pub net_set : List ConfigNet
  pub conns : List NetConn
  pub max_i : ℕ
  pub max_sock : ℕ

-- A connection that `accept` gives: its descriptor, the address of its other end, and what that
-- other end will do.
pub record Arrival : Type 0 where
  pub fd : ℕ
  pub ip : List ℕ
  pub inbox : List ℕ
  pub calls : List (ℕ × List Poll)

-- How a round goes: `select` returns 0, is interrupted, fails, or says which descriptors can be read;
-- then, if the listening one is among them, `accept` fails or gives a connection.
pub data Round : Type 0 where
  nothing interrupted failed : Round
  ready : Option (Option Arrival) → (ℕ → Bool) → Round

abbrev pub fresh_conn : NetConn
fresh_conn = record {
  conn_idx = none;
  client_conn = none;
  file_type = 0xff;
  idle = 0;
  clientip = [];
  inbox = [];
  outbox = [];
  calls = [];
}

-- The loop over the table, as it initialises it; the listening socket is the highest descriptor.
unfoldable pub web_init : Client → ℕ → Server
web_init client listen_conn = record {
  client = client;
  net_set = [];
  conns = replicate max_tcp_conn fresh_conn;
  max_i = 0;
  max_sock = listen_conn;
}

abbrev pub is_free : NetConn → Bool
is_free c = elim c.client_conn [ none ↦ true | some _ ↦ false ]

-- The first free entry from index `i` on takes the connection; its index, or none if all are taken.
unfoldable pub take_slot : ℕ → Arrival → List NetConn → Option ℕ × List NetConn
take_slot i a [] = (none, [])
take_slot i a (c ∷ cs) =
    let rest = take_slot (i + 1) a cs in
    if is_free c
    then (
      some i,
      record c {
        conn_idx = some i;
        client_conn = some a.fd;
        idle = 0;
        clientip = a.ip;
        inbox = a.inbox;
        outbox = [];
        calls = a.calls;
      }
          ∷ cs,
    )
    else (rest.0, c ∷ rest.1)

abbrev pub raise_to : ℕ → ℕ → ℕ
raise_to new old = if ltb old new then new else old

-- A descriptor of 0 is not taken; one that finds no entry is closed again.
unfoldable pub accept_conn : Option (Option Arrival) → Server → Server
unfolding take_slot
accept_conn none s = s
accept_conn (some none) s = s
accept_conn (some (some a)) s =
    let r = take_slot 0 a s.conns in
    if ltb 0 a.fd
    then elim r.0 [
      | none ↦ s
      | some i ↦ record s {
        conns = r.1;
        max_i = raise_to i s.max_i;
        max_sock = raise_to a.fd s.max_sock;
      }
    ]
    else s

-- One entry of the table, in the loop that serves.
unfoldable pub serve_one : Board → (ℕ → Bool) → NetConn → Client → List ConfigNet → Step Web
unfolding web_svr_proc
serve_one b readable c client net_set =
    let w : Web = record { client = client; conn = c; net_set = net_set } in
    elim c.client_conn [
      | none ↦ Step.done w
      | some fd ↦
          if readable fd
          then elim (web_svr_proc b (record w { conn = record c { idle = 0 } })) [
            | Step.done r ↦ Step.done r.1
            | Step.pending ↦ Step.pending
            | Step.fault ↦ Step.fault
          ]
          else Step.done w
    ]

-- The loop over the first `n` entries.
unfoldable pub serve :
    Board
    → (ℕ → Bool)
    → ℕ
    → List NetConn
    → Client
    → List ConfigNet
    → Step (List NetConn × Client × List ConfigNet)
unfolding serve_one
serve b readable zero cs client net_set = Step.done (cs, client, net_set)
serve b readable (suc n) [] client net_set = Step.done ([], client, net_set)
serve b readable (suc n) (c ∷ cs) client net_set = elim (serve_one b readable c client net_set) [
  | Step.done w ↦ elim (serve b readable n cs w.client w.net_set) [
    | Step.done r ↦ Step.done (w.conn ∷ r.0, r.1, r.2)
    | Step.pending ↦ Step.pending
    | Step.fault ↦ Step.fault
  ]
  | Step.pending ↦ Step.pending
  | Step.fault ↦ Step.fault
]

unfoldable pub close_all : List NetConn → List NetConn
unfolding net_conn_close
close_all [] = []
close_all (c ∷ cs) = net_conn_close c ∷ close_all cs

unfoldable pub web_process : Board → Round → Server → Step Server
unfolding accept_conn serve close_all
web_process b Round.nothing s = Step.done s
web_process b Round.interrupted s = Step.done s
web_process b Round.failed s = Step.done (record s { conns = close_all s.conns })
web_process b (Round.ready arrival readable) s =
    let s' = accept_conn arrival s in
    elim (serve b readable (suc s'.max_i) s'.conns s'.client s'.net_set) [
      | Step.done r ↦ Step.done (record s' { conns = r.0; client = r.1; net_set = r.2 })
      | Step.pending ↦ Step.pending
      | Step.fault ↦ Step.fault
    ]

-- One round after the other.
unfoldable pub web_run : List (Board × Round) → Server → Step Server
unfolding web_process
web_run [] s = Step.done s
web_run (r ∷ rs) s = elim (web_process r.0 r.1 s) [
  | Step.done t ↦ web_run rs t
  | Step.pending ↦ Step.pending
  | Step.fault ↦ Step.fault
]
