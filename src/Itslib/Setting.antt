-- ===== src/Itslib/Setting.antt =====
-- A setting with its object, from the page's side of the connection.
use itertk.Base.{ℕ, ◌≤◌, ◌<◌, ◌≡◌, refl, ap, true, some, List, [], ◌∷◌, ◌++◌, arith, length, get_or}
use itertk.Client.Link.{is_open}
use itertk.Wire.{Poll, NetConn, Step, net_conn_close}
use itertk.Wire.Packet.{Itsip}
use itertk.Wire.Receive.Blocks.{Serves}
use itertk.Wire.Send.{from_object, max_length}
use itertk.Wire.Send.Blocks.{net_conn_send_total}
use itertk.Itslib.{Dial, Page, Result, dialled, talk, receive_head, submit, net_conn_connect}
use itertk.Itslib.Login.{net_conn_recv_whole}

-- A page's connection stands, takes a head and a block of an object in prompt turns, and then has the
-- answer ready whole.
pub record Takes (page : Page) (head : Itsip) (answer : List ℕ) : Type 0 where
  pub fd : ℕ
  pub fd_pos : 0 < fd
  pub first : ℕ × List Poll
  pub second : ℕ × List Poll
  pub third : ℕ × List Poll
  pub later : List (ℕ × List Poll)
  pub dial : page.dial ≡ Dial.connected fd answer (first ∷ second ∷ third ∷ later)
  pub head_pos : 0 < length (page.abi.head.store head)
  pub takes_head : Serves (length (page.abi.head.store head)) first
  pub takes_object : Serves max_length second
  pub answer_size : length answer ≡ page.abi.head.size
  pub room : ℕ
  pub sent_at : ℕ
  pub seen_at : ℕ
  pub others : List Poll
  pub turn : third.1 ≡ Poll.moved room sent_at seen_at ∷ others
  pub whole : page.abi.head.size ≤ room

-- What a setting has sent when it returns, and the code that it returns.
pub record Submitted (page : Page) (head : Itsip) (own answer : List ℕ) (r : Result) : Type 0 where
  pub open_conn : NetConn
  pub bytes : open_conn.outbox ≡ page.abi.head.store head ++ from_object own page.memory
  pub result : r ≡ record {
    code = get_or (page.abi.head.load answer).itsip_data 0 0;
    object = [];
    conn = some (net_conn_close open_conn);
  }

-- Over such a connection a setting sends its head and the block of its object, and returns the code of
-- the answer.
pub submit_taken :
    (page : Page) (head : Itsip) (o : ℕ) (own answer : List ℕ)
    → Takes page head answer
    → (r : Result) × (submit page (some head) (o ∷ own) ≡ Step.done r)
      × Submitted page head (o ∷ own) answer r
unfolding submit talk net_conn_connect receive_head
submit_taken page head o own answer a =
    let hb = page.abi.head.store head in
    let start = dialled a.fd answer (a.first ∷ a.second ∷ a.third ∷ a.later) in
    let open_start : is_open start.client_conn ≡ true = ground (arith, a.fd_pos) in
    let sent =
      net_conn_send_total hb o own page.memory a.first a.second (a.third ∷ a.later) start open_start
        refl a.takes_head a.takes_object a.head_pos in
    let connect : net_conn_connect page.dial ≡ some start = ap net_conn_connect a.dial in
    let c1 : NetConn = record start {
      outbox = hb ++ from_object (o ∷ own) page.memory;
      calls = a.third ∷ a.later;
    } in
    let got =
      net_conn_recv_whole answer page.abi.head.size c1 a.third a.later a.room a.sent_at a.seen_at
        a.others refl a.answer_size refl a.turn a.whole in
    let c2 : NetConn = record c1 { inbox = []; calls = a.later } in
    (
      record {
        code = get_or (page.abi.head.load answer).itsip_data 0 0;
        object = [];
        conn = some (net_conn_close c2);
      },
      rw (connect, sent, got, talk, receive_head) refl,
      record { open_conn = c2; bytes = refl; result = refl },
    )
