-- ===== src/Tests/Sessions.antt =====
-- Lines, sessions and names at concrete inputs.
use itertk.Base.{◌⊎◌, ◌≡◌, refl, true, false, none, some, [], ◌∷◌, ◌+◌, ◌*◌, ◌-◌, arith, replicate}
use itertk.Conf.{with_address, ConfiData, ConfigCom, ConfigSession}
use itertk.Client.Uart.{is_good_uart, is_good_bps}
use itertk.Com.{Termios, TtyResult, set_tty}
use itertk.Com.Line.{line_of, set_tty-good}
use itertk.Mode.{ModeConfig, Arrivals, closed, mode_step, server_turn, in_use}
use itertk.Mode.Sockets.{
  all_closed, NoneInUse, session_change_closes, fail_times, run_turns, accept_errors_block,
}
use itertk.Client.Dns.{resolve, resolve_loop, dns_packet, change_dn, change_dn_loop}
use itertk.Client.Dns.Lookup.{ip_check, ip_loop, Resolver, dns_resolution}
use itertk.Client.Link.{Attempt, attempt_result}
use itertk.Client.Link.Connect.{
  Connecting, Polled, Calls, IsAttempt, Crashes, client_connect_server,
  client_connect_server-attempt_result,
}
use itertk.Client.Dns.Resolution.{dns_resolution-resolve}
use itertk.Tests.{demo, frame, demo_conf}

abbrev port : ConfigCom
port = record {
  id = 1;
  bps = 9600;
  sbit = 1;
  dbit = 8;
  chk = 3;
  bctrl = 0;
  rts = 0;
  dtr = 0;
  all = 0;
  type = 0;
  isloop = 0;
  rsvd = [];
  alive = 0;
}

abbrev line : Termios
line = record {
  speed = 1200;
  csize = some 7;
  parenb = true;
  parodd = true;
  inpck_istrip = true;
  cstopb = true;
  clocal_cread = false;
  icanon_echo_isig = true;
  opost = true;
  vtime = 3;
  vmin = 1;
}

set_tty-good_example : set_tty true 5 line 9600 8 3 1 ≡ (TtyResult.set_line, line_of 9600 port)
unfolding is_good_uart is_good_bps
set_tty-good_example = set_tty-good 5 line port (omega arith) refl

abbrev served : ConfigSession
served = record {
  protocol = 2;
  ip = 7;
  lport = 4000;
  dport = 0;
  conn = 0;
  dis_conn = 0;
  time_out = 30;
  max_num = 6;
  rsvd = replicate 4 0;
}

abbrev moved : ConfigSession
moved = record served { lport = 4001 }

-- listening on 8, with two connections
abbrev listening : ModeConfig
listening = record { fd = some 8; sfd = some 9 ∷ some 0 ∷ some 10 ∷ []; working = some served }

abbrev quiet : Arrivals
quiet = record { opened = none; accepted = some (some 12); received = λ n. none }

session_change_closes_example :
    ((mode_step 1 moved quiet listening).1
      ≡ closed (some 8) ∷ all_closed (in_use (some 9 ∷ some 0 ∷ some 10 ∷ [])))
    × ((mode_step 1 moved quiet listening).0.working ≡ none)
    × NoneInUse (mode_step 1 moved quiet listening).0.sfd
session_change_closes_example = session_change_closes 1 moved served quiet listening refl refl

abbrev fresh : ModeConfig
fresh = record listening { sfd = replicate 6 (some 0) }

accept_errors_block_example :
    ((run_turns (quiet ∷ []) (fail_times 6 fresh)).sfd ≡ replicate 6 none)
    × (server_turn quiet (run_turns (quiet ∷ []) (fail_times 6 fresh))
        ≡ (run_turns (quiet ∷ []) (fail_times 6 fresh), closed (some 12) ∷ []))
accept_errors_block_example = accept_errors_block 6 fresh (quiet ∷ []) quiet (some 12) refl refl

abbrev dialling : ModeConfig
dialling = record { fd = some 20; sfd = []; working = none }

abbrev dialled_session : ConfigSession
dialled_session = record served { protocol = 1 }

-- every name resolves to 10.0.0.7 by the first record behind the query
abbrev pub demo_resolver : Resolver
demo_resolver = record {
  host = λ s. none;
  ask = λ n p. (
    (λ k. frame (192 ∷ 12 ∷ 0 ∷ 1 ∷ 0 ∷ 1 ∷ 0 ∷ 0 ∷ 0 ∷ 9 ∷ 0 ∷ 4 ∷ 10 ∷ 0 ∷ 0 ∷ 7 ∷ []) (k - p.0)),
    p.0 + 16,
  );
  uninit_name = λ k. 3;
  uninit_packet = λ k. 4;
}

-- the server is named, and the first name server is 10.0.0.1
abbrev named : ConfiData
named = record demo_conf {
  con_net = record demo_conf.con_net { dns = 16777226 ∷ 0 ∷ [] };
  con_server = record { server_ip = 1; server_port = 4000; dns_str = 97 ∷ 46 ∷ 98 ∷ [] };
}

dns_resolution-resolve_example :
    dns_resolution demo_resolver (97 ∷ 46 ∷ 98 ∷ []) named
    ≡ some (true, with_address named (10 + 0 * 256 + 0 * 65536 + 7 * 16777216))
unfolding ip_check ip_loop resolve resolve_loop dns_packet change_dn change_dn_loop
dns_resolution-resolve_example =
    dns_resolution-resolve demo_resolver (97 ∷ 46 ∷ 98 ∷ []) named 97 (46 ∷ 98 ∷ []) 16777226
      (record { part_1 = 10; part_2 = 0; part_3 = 0; part_4 = 7 }) refl refl refl refl (omega arith)
      (omega arith) (omega arith) (omega arith)

-- gethostbyname gives an address back
abbrev knowing : Resolver
knowing = record demo_resolver { host = λ s. some s }

abbrev connects : Calls
connects = record {
  nonblocking = true;
  connecting = Connecting.in_progress;
  polled = Polled.ready false;
  socket_error = some 0;
}

client_connect_server-attempt_result_example :
    ((a : Attempt) × IsAttempt knowing (some 8) connects (record demo { conf = named }) a
      × (client_connect_server knowing (some 8) connects (record demo { conf = named })
          ≡ some (attempt_result (record demo { conf = named }) a)))
    ⊎ (Crashes knowing (some 8) named.con_server.dns_str
        × (client_connect_server knowing (some 8) connects (record demo { conf = named }) ≡ none))
client_connect_server-attempt_result_example =
    client_connect_server-attempt_result knowing (some 8) connects (record demo { conf = named })
      16777226 refl
