-- ===== src/Web/Effects.antt =====
-- A whole packet over the web connection, from the bytes received to what it changes.
use itertk.Base.{
  ℕ, ◌+◌, ◌≤◌, ◌<◌, ◌≡◌, refl, sym, ap, ap₂, ◌∙◌, true, some, List, ◌∷◌, ◌++◌, ◌==◌, arith, subst,
  length, take, drop, length-append, length-take, take-append-drop, take-part, drop-part, Buf,
}
use itertk.Conf.{with_address}
use itertk.Conf.Users.{CmdCode, code_number}
use itertk.Client.{Client}
use itertk.Client.Link.{is_open, reconnect_on, reconnect_off, Attempt, keep_connected}
use itertk.Client.Link.Reconnect.{AllFail, client_reconnect_lem}
use itertk.Wire.{Poll, Step, Action}
use itertk.Wire.Packet.{Itsip, ItsCmd, its_id, Layout}
use itertk.Wire.Receive.{web_conn_recv}
use itertk.Wire.Receive.Blocks.{Serves, web_conn_recv_total}
use itertk.Wire.Send.{from_object, max_length}
use itertk.Wire.Send.Blocks.{length-from_object}
use itertk.Web.{Web, Board, result_head, send_result, change_conf, save_conf}
use itertk.Web.Set.{sys_server_set, store_server, receive_object}
use itertk.Web.Command.{web_svr_proc, web_cmd_proc, its_cmd_of, on_cmd, on_server_set, acknowledge}
use itertk.Web.Receiving.{receive_object_total, send_result_total}

-- The bytes of a head with the command's number are next, then `payload`, then `rest`; the calls that
-- receive the two and send the answer `code` have prompt turns.
pub record Arrives (b : Board) (w : Web) (cmd : ItsCmd) (code : CmdCode)
    (head payload rest : List ℕ) : Type 0 where
  pub live : is_open w.conn.client_conn ≡ true
  pub inbox : w.conn.inbox ≡ head ++ (payload ++ rest)
  pub head_size : length head ≡ b.abi.head.size
  pub head_pos : 0 < length head
  pub magic : (b.abi.head.load head).itsip_head ≡ 0xff
  pub id : (b.abi.head.load head).itsip_cmd ≡ its_id cmd
  pub payload_pos : 0 < length payload
  pub answer : List ℕ
  pub answer_is : answer ≡ b.abi.head.store (result_head cmd 0 (code_number code) b.uninit_head)
  pub answer_pos : 0 < length answer
  pub first : ℕ × List Poll
  pub second : ℕ × List Poll
  pub third : ℕ × List Poll
  pub later : List (ℕ × List Poll)
  pub calls : w.conn.calls ≡ first ∷ second ∷ third ∷ later
  pub takes_head : Serves (length head) first
  pub takes_payload : Serves (length payload) second
  pub sends : Serves (length answer) third

-- the connection after the head, and after the payload
abbrev pub after_head : Web → List ℕ → List (ℕ × List Poll) → Web
after_head w left calls =
    let c = w.conn in record w { conn = record c { inbox = left; calls = calls } }

-- The head is received, and its command is handled.
pub head_received :
    (b : Board) (w : Web) (head left : List ℕ) (first : ℕ × List Poll)
    (calls : List (ℕ × List Poll))
    → is_open w.conn.client_conn ≡ true
    → w.conn.inbox ≡ head ++ left
    → length head ≡ b.abi.head.size
    → 0 < length head
    → w.conn.calls ≡ first ∷ calls
    → Serves (length head) first
    → web_svr_proc b w ≡ web_cmd_proc b (b.abi.head.load head) (after_head w left calls)
unfolding web_svr_proc
head_received b w head left first calls o i n z e s =
    let size = b.abi.head.size in
    let got : web_conn_recv size w.conn ≡ _ =
      web_conn_recv_total size first calls w.conn o e (subst (λ k. Serves k first) n s)
        (omega (arith, n, z)) (rw i (omega (arith, n, length-append head left))) in
    let t : take size w.conn.inbox ≡ head =
      rw i (ap (λ k. take k (head ++ left)) (sym n) ∙ take-part head left) in
    let d : drop size w.conn.inbox ≡ left =
      rw i (ap (λ k. drop k (head ++ left)) (sym n) ∙ drop-part head left) in
    rw (o, got, t, d) refl

its_cmd_of-id : (cmd : ItsCmd) → its_cmd_of (its_id cmd) ≡ some cmd
unfolding its_cmd_of its_id
its_cmd_of-id ItsCmd.login = refl
its_cmd_of-id ItsCmd.sysinfo_query = refl
its_cmd_of-id ItsCmd.conf_query = refl
its_cmd_of-id ItsCmd.conf_set = refl
its_cmd_of-id ItsCmd.user_set = refl
its_cmd_of-id ItsCmd.user_query = refl
its_cmd_of-id ItsCmd.sysinfo_set = refl
its_cmd_of-id ItsCmd.netinfo_query = refl
its_cmd_of-id ItsCmd.netinfo_set = refl
its_cmd_of-id ItsCmd.vlan_query = refl
its_cmd_of-id ItsCmd.vlan_set = refl
its_cmd_of-id ItsCmd.factory_set = refl
its_cmd_of-id ItsCmd.server_query = refl
its_cmd_of-id ItsCmd.server_set = refl
its_cmd_of-id ItsCmd.gpio_query = refl
its_cmd_of-id ItsCmd.gpio_set = refl

-- A packet with a command's number goes to that command.
pub command_found :
    (b : Board) (head : Itsip) (cmd : ItsCmd) (w : Web)
    → is_open w.conn.client_conn ≡ true
    → head.itsip_head ≡ 0xff
    → head.itsip_cmd ≡ its_id cmd
    → web_cmd_proc b head w ≡ on_cmd b head cmd w
unfolding web_cmd_proc
command_found b head cmd w o m e =
    let here : (head.itsip_head == 0xff) ≡ true = ground arith in
    let found : its_cmd_of head.itsip_cmd ≡ some cmd = ap its_cmd_of e ∙ its_cmd_of-id cmd in
    rw (o, here, found) refl

-- An object that has arrived is received.
pub object_received :
    {A : Type 0} (layout : Layout A) (failed : CmdCode) (k : A → Action Web CmdCode) (w : Web)
    (payload rest : List ℕ) (call : ℕ × List Poll) (later : List (ℕ × List Poll))
    → is_open w.conn.client_conn ≡ true
    → w.conn.inbox ≡ payload ++ rest
    → length payload ≡ layout.size
    → 0 < length payload
    → w.conn.calls ≡ call ∷ later
    → Serves (length payload) call
    → receive_object layout failed k w ≡ k (layout.load payload) (after_head w rest later)
object_received layout failed k w payload rest call later o i n z e s =
    let size = layout.size in
    let t : take size w.conn.inbox ≡ payload =
      rw i (ap (λ k. take k (payload ++ rest)) (sym n) ∙ take-part payload rest) in
    let d : drop size w.conn.inbox ≡ rest =
      rw i (ap (λ k. drop k (payload ++ rest)) (sym n) ∙ drop-part payload rest) in
    receive_object_total layout failed k w call later o e (subst (λ k. Serves k call) n s)
      (omega (arith, n, z)) (rw i (omega (arith, n, length-append payload rest)))
    ∙ ap₂ (λ p r. k (layout.load p) (after_head w r later)) t d

-- The connection after an answer.
abbrev pub answered : Web → List ℕ → List (ℕ × List Poll) → Web
answered w answer later =
    let c = w.conn in
    record w { conn = record c { idle = 0; outbox = c.outbox ++ answer; calls = later } }

-- A setting that was made is acknowledged.
pub acknowledged :
    (b : Board) (cmd : ItsCmd) (m : Action Web CmdCode) (w t : Web) (code : CmdCode)
    (answer : List ℕ) (call : ℕ × List Poll) (later : List (ℕ × List Poll))
    → m w ≡ Step.done (code, t)
    → answer ≡ b.abi.head.store (result_head cmd 0 (code_number code) b.uninit_head)
    → is_open t.conn.client_conn ≡ true
    → t.conn.calls ≡ call ∷ later
    → Serves (length answer) call
    → 0 < length answer
    → acknowledge b cmd m w ≡ Step.done (code, answered t answer later)
unfolding acknowledge
acknowledged b cmd m w t code answer call later e a o k s z =
    let sent : send_result b cmd (code_number code) t ≡ Step.done (true, answered t answer later) =
      send_result_total b cmd (code_number code) t call later o k
        (subst (λ (l : List ℕ). Serves (length l) call) a s)
        (subst (λ (l : List ℕ). 0 < length l) a z)
      ∙ ap (λ l. Step.done (true, answered t l later)) (sym a) in
    rw (e, sent) refl

-- The state behind a SERVER_SET packet.
abbrev pub server_set_state : Board → Web → List ℕ → List ℕ → List ℕ → List (ℕ × List Poll) → Web
server_set_state b w payload rest answer later =
    let stored =
      save_conf
        (change_conf (store_server (b.abi.server.load payload)) (after_head w rest later)) in
    let sent = answered stored answer later in
    let c = sent.client in record sent { client = record c { reconnect_flag = reconnect_on } }

pub server_set_done :
    (b : Board) (w : Web) (head payload rest : List ℕ)
    → (a : Arrives b w ItsCmd.server_set CmdCode.server_set_ok head payload rest)
    → length payload ≡ b.abi.server.size
    → web_svr_proc b w ≡ Step.done (tt, server_set_state b w payload rest a.answer a.later)
unfolding on_cmd on_server_set sys_server_set
server_set_done b w head payload rest a n =
    let set' = change_conf (store_server (b.abi.server.load payload)) in
    let w1 = after_head w (payload ++ rest) (a.second ∷ a.third ∷ a.later) in
    let w2 = save_conf (set' (after_head w1 rest (a.third ∷ a.later))) in
    let stored : sys_server_set b w1 ≡ Step.done (CmdCode.server_set_ok, w2) =
      object_received b.abi.server CmdCode.server_set_failed
        (λ v w. Step.done (CmdCode.server_set_ok, save_conf (change_conf (store_server v) w))) w1
        payload rest a.second (a.third ∷ a.later) a.live refl n a.payload_pos refl
        a.takes_payload in
    let sent =
      acknowledged b ItsCmd.server_set (sys_server_set b) w1 w2 CmdCode.server_set_ok a.answer
        a.third a.later stored a.answer_is a.live refl a.sends a.answer_pos in
    let w4 = server_set_state b w payload rest a.answer a.later in
    let handled : on_cmd b (b.abi.head.load head) ItsCmd.server_set w1 ≡ Step.done (tt, w4) =
      rw sent refl in
    head_received b w head (payload ++ rest) a.first (a.second ∷ a.third ∷ a.later) a.live a.inbox
      a.head_size a.head_pos a.calls a.takes_head
    ∙ command_found b (b.abi.head.load head) ItsCmd.server_set w1 a.live a.magic a.id
    ∙ handled

-- A SERVER_SET packet that arrives whole, over prompt turns, stores the alarm server's settings,
-- is answered by SERVER_SET_OK and leaves what follows it unread; and in its next round the alarm client
-- drops its connection and returns to the new settings with the first attempt that connects, whose
-- lookup gives the address.
pub server_set_reconnects :
    (b : Board) (w : Web) (head payload rest : List ℕ) (tries next : List Attempt) (fd ip : ℕ)
    → (a : Arrives b w ItsCmd.server_set CmdCode.server_set_ok head payload rest)
    → length payload ≡ b.abi.server.size
    → AllFail tries
    → (w' : Web) × (c : Client) × (web_svr_proc b w ≡ Step.done (tt, w'))
      × (w'.conn.inbox ≡ rest)
      × (w'.conn.outbox ≡ w.conn.outbox ++ a.answer)
      × (keep_connected (tries ++ (Attempt.connected fd ip ∷ next)) w'.client ≡ some c)
      × (c.conf ≡ with_address (store_server (b.abi.server.load payload) w.client.conf) ip)
      × (c.sockfd ≡ some fd)
      × (c.reconnect_flag ≡ reconnect_off)
unfolding keep_connected
server_set_reconnects b w head payload rest tries next fd ip a n f =
    let w' = server_set_state b w payload rest a.answer a.later in
    let (c, e, k) = (client_reconnect_lem tries next fd ip w'.client f).1 in
    (
      w',
      record c { reconnect_flag = reconnect_off },
      server_set_done b w head payload rest a n,
      refl,
      refl,
      rw e refl,
      k.conf,
      k.socket,
      refl,
    )

-- The pages send 1024 bytes for every object, and the server takes the object's own: after a SERVER_SET
-- packet as net_conn_send of the pages makes it, the bytes that lie behind the object in the page's
-- memory are still there, and the next call takes the first of them for the head of a command.
pub server_set_leftover :
    (b : Board) (w : Web) (head payload rest : List ℕ) (memory : Buf) (next : ℕ × List Poll)
    (more : List (ℕ × List Poll))
    → (a : Arrives b w ItsCmd.server_set CmdCode.server_set_ok head payload rest)
    → length payload ≡ b.abi.server.size
    → payload ++ rest ≡ from_object payload memory
    → a.later ≡ next ∷ more
    → 0 < b.abi.head.size
    → b.abi.server.size + b.abi.head.size ≤ max_length
    → Serves b.abi.head.size next
    → (w' : Web) × (web_svr_proc b w ≡ Step.done (tt, w'))
      × (b.abi.server.size + length w'.conn.inbox ≡ max_length)
      × (web_svr_proc b w'
          ≡ web_cmd_proc b
              (b.abi.head.load (take b.abi.head.size w'.conn.inbox))
              (after_head w' (drop b.abi.head.size w'.conn.inbox) more))
server_set_leftover b w head payload rest memory next more a n e l z h s =
    let w' = server_set_state b w payload rest a.answer a.later in
    let size = b.abi.head.size in
    let total : length payload + length rest ≡ max_length =
      sym (length-append payload rest) ∙ ap length e ∙ length-from_object payload memory in
    let enough : size ≤ length rest = omega (arith, h, total, n) in
    let part : length (take size rest) ≡ size = length-take size rest enough in
    (
      w',
      server_set_done b w head payload rest a n,
      omega (arith, total, n),
      head_received b w' (take size rest) (drop size rest) next more a.live
          (sym (take-append-drop size rest)) part (omega (arith, part, z)) l
          (subst (λ k. Serves k next) (sym part) s),
    )
