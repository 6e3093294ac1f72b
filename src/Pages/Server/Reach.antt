-- ===== src/Pages/Server/Reach.antt =====
-- From a form of the server page to the alarm client's new connection.
use itertk.Base.{
  ℕ, ◌≡◌, refl, sym, ap, ◌∙◌, true, some, List, [], ◌∷◌, ◌++◌, ◌==◌, ==-refl, length, get_or,
}
use itertk.Conf.{ConfigServer, with_address}
use itertk.Conf.Users.{CmdCode, code_number}
use itertk.Client.{Client}
use itertk.Client.Link.{Attempt, keep_connected}
use itertk.Client.Link.Reconnect.{AllFail}
use itertk.Wire.{Step, NetConn, net_conn_close}
use itertk.Wire.Packet.{Itsip, ItsCmd}
use itertk.Wire.Send.{from_object}
use itertk.Web.{Web, Board, result_head}
use itertk.Web.Set.{store_server}
use itertk.Web.Command.{web_svr_proc}
use itertk.Web.Effects.{Arrives, server_set_reconnects}
use itertk.Itslib.{Page, Result, packed, submit}
use itertk.Itslib.Settings.{its_conf_server_set}
use itertk.Itslib.Setting.{Takes, submit_taken}
use itertk.Pages.{Alert, View, Runs, submit_form}
use itertk.Pages.Server.{server_page}

-- A server that the page sends, over connections that work, is what the command server stores and
-- answers, what the alarm client connects with in its next round, and what the page reports as done when
-- the bytes that the server has put out reach it: if the two programs agree on how a head and a server
-- lie in memory, and the server is connected to by the attempt after some that fail. The bytes that the
-- page puts out are those that the server takes in, and the bytes that it receives are those by which
-- the server's output has grown.
pub server_form_reaches :
    (p : Page) (runs : Runs) (name : List ℕ) (s : ConfigServer) (talks : List Result) (b : Board)
    (w : Web) (o : ℕ) (own rest : List ℕ) (tries next : List Attempt) (fd ip : ℕ)
    → let page = runs.second in
      let head = packed page ItsCmd.server_set page.abi.server.size in
      page.abi.server.store s ≡ o ∷ own
      → (a : Arrives b w ItsCmd.server_set CmdCode.server_set_ok
          (page.abi.head.store head)
          (o ∷ own)
          rest)
      → Takes page head a.answer
      → (o ∷ own) ++ rest ≡ from_object (o ∷ own) page.memory
      → length (o ∷ own) ≡ b.abi.server.size
      → b.abi.server.load (o ∷ own) ≡ s
      → page.abi.head.load a.answer
        ≡ result_head ItsCmd.server_set 0 (code_number CmdCode.server_set_ok) b.uninit_head
      → AllFail tries
      → (sender : NetConn) × (w' : Web) × (c : Client) × (v : View ConfigServer) × (sender.outbox
          ≡ w.conn.inbox)
        × (web_svr_proc b w ≡ Step.done (tt, w'))
        × (w'.conn.outbox ≡ w.conn.outbox ++ a.answer)
        × (keep_connected (tries ++ (Attempt.connected fd ip ∷ next)) w'.client ≡ some c)
        × (c.conf ≡ with_address (store_server s w.client.conf) ip)
        × (c.sockfd ≡ some fd)
        × (submit_form (server_page p) runs name s talks ≡ Step.done v)
        × (v.alerts ≡ Alert.submitted ∷ [])
        × (v.shown ≡ some s)
        × (v.talks
            ≡ talks
              ++ (record {
                code = code_number CmdCode.server_set_ok;
                object = [];
                conn = some (net_conn_close sender);
              }
                  ∷ []))
unfolding submit_form server_page its_conf_server_set
server_form_reaches p runs name s talks b w o own rest tries next fd ip st a t carried n back la f =
    let page = runs.second in
    let head = packed page ItsCmd.server_set page.abi.server.size in
    let (w', c, e, i, out, k, conf, sock, flag) =
      server_set_reconnects b w (page.abi.head.store head) (o ∷ own) rest tries next fd ip a n f in
    let (r, sent, sub) = submit_taken page head o own a.answer t in
    let answer_code : get_or (page.abi.head.load a.answer).itsip_data 0 0
        ≡ code_number CmdCode.server_set_ok =
      ap (λ (h : Itsip). get_or h.itsip_data 0 0) la ∙ (unfold result_head in refl) in
    let ok : r.code ≡ code_number CmdCode.server_set_ok =
      ap (λ (x : Result). x.code) sub.result ∙ answer_code in
    let yes_ok : (r.code == code_number CmdCode.server_set_ok) ≡ true =
      rw ok (==-refl (code_number CmdCode.server_set_ok)) in
    let set' : its_conf_server_set page s ≡ Step.done r = ap (submit page (some head)) st ∙ sent in
    let v : View ConfigServer = record {
      alerts = Alert.submitted ∷ [];
      shown = some s;
      talks = talks ++ (r ∷ []);
    } in
    (
      sub.open_conn,
      w',
      c,
      v,
      sub.bytes ∙ ap (λ l. page.abi.head.store head ++ l) (sym carried) ∙ sym a.inbox,
      e,
      out,
      k,
      conf ∙ ap (λ x. with_address (store_server x w.client.conf) ip) back,
      sock,
      rw (set', yes_ok, submit_form) refl,
      refl,
      refl,
      ap (λ x. talks ++ (x ∷ []))
          (sub.result
            ∙ ap (λ n. record { code = n; object = []; conn = some (net_conn_close sub.open_conn) })
                answer_code),
    )
