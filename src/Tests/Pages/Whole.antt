-- ===== src/Tests/Pages/Whole.antt =====
-- A setting from the form of a page to the alarm client.
use itertk.Base.{ℕ, ◌≡◌, refl, some, List, [], ◌∷◌, ◌++◌, arith, codes}
use itertk.Conf.{ConfigServer, with_address}
use itertk.Conf.Users.{CmdCode, code_number}
use itertk.Client.{Client}
use itertk.Client.Link.{Attempt, keep_connected}
use itertk.Wire.{Step, Poll, NetConn, net_conn_close}
use itertk.Wire.Packet.{ItsCmd, its_ack, its_id, itsip_pack}
use itertk.Wire.Send.{max_length}
use itertk.Web.{Web, result_head}
use itertk.Web.Set.{store_server}
use itertk.Web.Command.{web_svr_proc}
use itertk.Web.Effects.{Arrives}
use itertk.Itslib.{Page, Dial, packed}
use itertk.Itslib.Setting.{Takes}
use itertk.Pages.{Alert, View, submit_form}
use itertk.Pages.Server.{server_page}
use itertk.Pages.Server.Reach.{server_form_reaches}
use itertk.Tests.{demo, demo_conf}
use itertk.Tests.Wires.{burst, burst-Serves, demo_conn}
use itertk.Tests.Packets.{
  head_layout, demo_abi, demo_head, demo_board, demo_payload, leftover, leftover_whole,
}
use itertk.Tests.Pages.Runs.{silent}

abbrev new_server : ConfigServer
new_server = demo_abi.server.load demo_payload

-- the answer SERVER_SET_OK
abbrev good_answer : List ℕ
unfolding result_head its_ack its_id itsip_pack code_number
good_answer =
    head_layout.store
      (result_head ItsCmd.server_set 0 (code_number CmdCode.server_set_ok) (demo_head 0))

abbrev sending : Page
sending = record {
  abi = demo_abi;
  memory = λ k. 0xff;
  crypt = λ psw. psw;
  dial =
      Dial.connected 4 good_answer (burst 56 ∷ burst max_length ∷ (0, Poll.moved 56 0 0 ∷ []) ∷ []);
  uninit = demo_head 0;
}

abbrev sent_head : List ℕ
unfolding itsip_pack its_id
sent_head = head_layout.store (packed sending ItsCmd.server_set 8)

abbrev receiving : Web
receiving = record {
  client = demo;
  conn = demo_conn (sent_head ++ (demo_payload ++ leftover)) (burst 56 ∷ burst 8 ∷ burst 56 ∷ []);
  net_set = [];
}

sent_arrives :
    Arrives demo_board receiving ItsCmd.server_set CmdCode.server_set_ok sent_head demo_payload
      leftover
unfolding result_head its_ack its_id itsip_pack code_number
sent_arrives = record {
  live = refl;
  inbox = refl;
  head_size = refl;
  head_pos = omega arith;
  magic = refl;
  id = refl;
  payload_pos = omega arith;
  answer = good_answer;
  answer_is = refl;
  answer_pos = omega arith;
  first = burst 56;
  second = burst 8;
  third = burst 56;
  later = [];
  calls = refl;
  takes_head = burst-Serves 56;
  takes_payload = burst-Serves 8;
  sends = burst-Serves 56;
}

sending-Takes : Takes sending (packed sending ItsCmd.server_set 8) good_answer
unfolding result_head its_ack its_id itsip_pack code_number
sending-Takes = record {
  fd = 4;
  fd_pos = omega arith;
  first = burst 56;
  second = burst max_length;
  third = (0, Poll.moved 56 0 0 ∷ []);
  later = [];
  dial = refl;
  head_pos = omega arith;
  takes_head = burst-Serves 56;
  takes_object = burst-Serves max_length;
  answer_size = refl;
  room = 56;
  sent_at = 0;
  seen_at = 0;
  others = [];
  turn = refl;
  whole = omega arith;
}

server_form_reaches_example :
    (sender : NetConn) × (w' : Web) × (c : Client) × (v : View ConfigServer) × (sender.outbox
      ≡ receiving.conn.inbox)
    × (web_svr_proc demo_board receiving ≡ Step.done (tt, w'))
    × (w'.conn.outbox ≡ receiving.conn.outbox ++ sent_arrives.answer)
    × (keep_connected
          (Attempt.refused 5 0x0701000a ∷ [] ++ (Attempt.connected 6 0x0701000a ∷ []))
          w'.client
        ≡ some c)
    × (c.conf ≡ with_address (store_server new_server demo_conf) 0x0701000a)
    × (c.sockfd ≡ some 6)
    × (submit_form
          (server_page silent)
          (record { first = silent; second = sending; third = silent })
          (codes "root")
          new_server
          []
        ≡ Step.done v)
    × (v.alerts ≡ Alert.submitted ∷ [])
    × (v.shown ≡ some new_server)
    × (v.talks
        ≡ []
          ++ (record {
            code = code_number CmdCode.server_set_ok;
            object = [];
            conn = some (net_conn_close sender);
          }
              ∷ []))
unfolding sent_arrives result_head its_ack its_id itsip_pack code_number
server_form_reaches_example =
    server_form_reaches silent (record { first = silent; second = sending; third = silent })
      (codes "root") new_server [] demo_board receiving 3 (2 ∷ 1 ∷ 10 ∷ 40 ∷ 35 ∷ 0 ∷ 0 ∷ [])
      leftover (Attempt.refused 5 0x0701000a ∷ []) [] 6 0x0701000a refl sent_arrives sending-Takes
      leftover_whole refl refl refl (tt, tt)
