-- ===== src/Tests/Packets.antt =====
-- Whole packets of the web pages, with a concrete layout of the objects.
pub mod Guarded
pub mod Login
use itertk.Base.{
  ℕ, ◌+◌, ◌*◌, ◌/◌, ◌%◌, ◌≡◌, refl, Bool, Bool-cases, inl, inr, ◌==◌, if◌then◌else◌, true, false,
  none, some, List, [], ◌∷◌, ◌++◌, arith, length, take, drop, replicate, get_or, codes,
  take-append-drop,
}
use itertk.Conf.{ConfigServer, ConfigLimit, UsrInfo}
use itertk.Conf.Users.{CmdCode, code_number, get_usr_id, sys_usr_login}
use itertk.Conf.Defaults.{config_makedefault}
use itertk.Wire.{Step, After, Poll}
use itertk.Wire.Packet.{Itsip, ItsCmd, Layout, Abi, its_ack, its_id, itsip_pack, c_string, NoNul}
use itertk.Web.{Web, Board, result_head, allowed}
use itertk.Web.Command.{web_svr_proc, web_cmd_proc}
use itertk.Web.Store.{Key, SetDone, set_command, set_command-SetDone}
use itertk.Web.Effects.{Arrives, after_head, server_set_leftover}
use itertk.Web.Rights.{Denied, conf_set_without_right}
use itertk.Web.Table.{Round, web_init, web_run}
use itertk.Web.Table.Served.{IsServed, Holds, web_run-IsServed}
use itertk.Itslib.{Page, Dial, Result, put_string, packed, with_user}
use itertk.Itslib.Users.{with_password, user_login}
use itertk.Itslib.Login.{Answers, user_login_verdict}
use itertk.Wire.Send.{from_object, max_length}
use itertk.Tests.{demo, demo_conf}
use itertk.Tests.Wires.{burst, burst-Serves, demo_conn}

-- The head as it lies in memory, the extension's length with its low byte first.
abbrev pub head_layout : Layout Itsip
head_layout = record {
  size = 56;
  store = λ h.
      h.itsip_head
      ∷ h.itsip_cmd
      ∷ h.itsip_ver
      ∷ h.itsip_thl
      ∷ (h.itsip_extlen % 256)
      ∷ (h.itsip_extlen / 256)
      ∷ h.itsip_dev_t
      ∷ h.itsip_rsvd
      ∷ (h.itsip_user ++ h.itsip_data);
  load = λ l. record {
    itsip_head = get_or l 0 0;
    itsip_cmd = get_or l 1 0;
    itsip_ver = get_or l 2 0;
    itsip_thl = get_or l 3 0;
    itsip_extlen = get_or l 4 0 + 256 * get_or l 5 0;
    itsip_dev_t = get_or l 6 0;
    itsip_rsvd = get_or l 7 0;
    itsip_user = take 24 (drop 8 l);
    itsip_data = drop 32 l;
  };
}

-- Four bytes of address and two of the port, low byte first, and the name up to its first byte.
abbrev pub server_layout : Layout ConfigServer
server_layout = record {
  size = 8;
  store = λ v.
      v.server_ip % 256
      ∷ (v.server_ip / 0x100 % 256)
      ∷ (v.server_ip / 0x10000 % 256)
      ∷ (v.server_ip / 0x1000000 % 256)
      ∷ (v.server_port % 256)
      ∷ (v.server_port / 256)
      ∷ get_or v.dns_str 0 0
      ∷ 0
      ∷ [];
  load = λ l. record {
    server_ip =
        get_or l 0 0 + 0x100 * get_or l 1 0 + 0x10000 * get_or l 2 0 + 0x1000000 * get_or l 3 0;
    server_port = get_or l 4 0 + 256 * get_or l 5 0;
    dns_str = get_or l 6 0 ∷ [];
  };
}

-- a layout that keeps nothing of an object
abbrev blank : {A : Type 0} → ℕ → A → Layout A
blank n a = record { size = n; store = λ _. replicate n 0; load = λ _. a }

abbrev pub demo_abi : Abi
demo_abi = record {
  head = head_layout;
  sys = blank 4 demo_conf.con_sys;
  net = blank 4 demo_conf.con_net;
  vlan = record {
    size = 2;
    store = λ v. v.enable ∷ v.id ∷ [];
    load = λ l. record { enable = get_or l 0 0; id = get_or l 1 0 };
  };
  port = blank 4 (record {
    id = 1;
    bps = 9600;
    sbit = 1;
    dbit = 8;
    chk = 3;
    bctrl = 0;
    rts = 0;
    dtr = 0;
    all = 0;
    type = 0;
    isloop = 0;
    rsvd = [];
    alive = 0;
  });
  mode = blank 4 (record {
    id = 1;
    mode = 0;
    tcp_mode = 0;
    cr = 0;
    lf = 0;
    is_null = 0;
    attestation = 0;
    att = 0;
    reg = 0;
    session = [];
  });
  limit = blank 4 (record { id = 1; enable = 0; read = []; modify = [] });
  gpio = blank 4 demo_conf.con_gpio;
  server = server_layout;
  users = blank 4 demo_conf.con_usr;
  extdat = blank 4 (record { name0 = []; passwd0 = []; name1 = []; passwd1 = [] });
}

-- a head of which only its command is set
abbrev pub demo_head : ℕ → Itsip
demo_head cmd = record {
  itsip_head = 0xff;
  itsip_cmd = cmd;
  itsip_ver = 1;
  itsip_thl = 8;
  itsip_extlen = 0;
  itsip_dev_t = 0;
  itsip_rsvd = 0;
  itsip_user = replicate 24 0;
  itsip_data = replicate 24 0;
}

abbrev pub demo_board : Board
demo_board = record {
  abi = demo_abi;
  memory = λ k. 0xff;
  program_version = codes "v4.00";
  sensor = none;
  uninit_head = demo_head 0;
  uninit_chars = replicate 30 0;
  uninit_server = record { server_ip = 0; server_port = 0; dns_str = [] };
  uninit_extdat = replicate 4 0;
}

-- 10.1.2.3, port 9000
abbrev pub demo_payload : List ℕ
demo_payload = 3 ∷ 2 ∷ 1 ∷ 10 ∷ 40 ∷ 35 ∷ 0 ∷ 0 ∷ []

abbrev pub set_bytes : List ℕ
set_bytes = head_layout.store (demo_head 0xc6)

abbrev pub demo_web : List ℕ → Web
demo_web rest = record {
  client = demo;
  conn =
      demo_conn (set_bytes ++ (demo_payload ++ rest))
        (burst 56 ∷ burst 8 ∷ burst 56 ∷ burst 56 ∷ []);
  net_set = [];
}

set_command-SetDone_example :
    After
      (SetDone demo_board Key.vlan (demo_web []))
      (set_command demo_board Key.vlan (demo_web []))
set_command-SetDone_example = set_command-SetDone demo_board Key.vlan (demo_web [])

-- the answer SERVER_SET_OK
abbrev set_answer : List ℕ
unfolding result_head its_ack its_id itsip_pack code_number
set_answer =
    head_layout.store
      (result_head ItsCmd.server_set 0 (code_number CmdCode.server_set_ok) (demo_head 0))

set_arrives :
    (rest : List ℕ)
    → Arrives demo_board
        (demo_web rest)
        ItsCmd.server_set
        CmdCode.server_set_ok
        set_bytes
        demo_payload
        rest
unfolding result_head its_ack its_id itsip_pack code_number
set_arrives rest = record {
  live = refl;
  inbox = refl;
  head_size = refl;
  head_pos = omega arith;
  magic = refl;
  id = refl;
  payload_pos = omega arith;
  answer = set_answer;
  answer_is = refl;
  answer_pos = omega arith;
  first = burst 56;
  second = burst 8;
  third = burst 56;
  later = burst 56 ∷ [];
  calls = refl;
  takes_head = burst-Serves 56;
  takes_payload = burst-Serves 8;
  sends = burst-Serves 56;
}

-- what lies behind the object in the page's memory
abbrev pub leftover : List ℕ
leftover = drop 8 (from_object demo_payload (λ k. 0xff))

pub leftover_whole : demo_payload ++ leftover ≡ from_object demo_payload (λ k. 0xff)
unfolding from_object
leftover_whole = take-append-drop 8 (from_object demo_payload (λ k. 0xff))

server_set_leftover_example :
    (w' : Web) × (web_svr_proc demo_board (demo_web leftover) ≡ Step.done (tt, w'))
    × (8 + length w'.conn.inbox ≡ max_length)
    × (web_svr_proc demo_board w'
        ≡ web_cmd_proc demo_board
            (head_layout.load (take 56 w'.conn.inbox))
            (after_head w' (drop 56 w'.conn.inbox) []))
unfolding set_arrives
server_set_leftover_example =
    server_set_leftover demo_board (demo_web leftover) set_bytes demo_payload leftover (λ k. 0xff)
      (burst 56) [] (set_arrives leftover) refl leftover_whole refl (omega arith) (omega arith)
      (burst-Serves 56)
