-- ===== src/Tests/Tools.antt =====
-- The tool on the PC at concrete inputs.
use itertk.Base.{◌≡◌, refl, [], ◌∷◌, arith, codes}
use itertk.Client.{Client}
use itertk.System.Address.{sys_ip2str_static}
use itertk.PcTool.{settings_of, put_settings, pc_set_dev_info}
use itertk.PcTool.Roundtrip.{
  Sent, Sendable, request, with_sent, TakenOver, with_mac, pc_set_dev_info-request,
  short_message_breaks_mac,
}
use itertk.Tests.{demo, demo_conf}
use itertk.Tests.Sessions.{demo_resolver}

-- the device at 10.0.0.9
abbrev device : Client
device = record demo {
  conf = record demo_conf {
    con_net = record demo_conf.con_net {
      dev_ip = 150994954;
      dns = 0 ∷ 0 ∷ [];
      dev_mac = 0 ∷ 1 ∷ 2 ∷ 3 ∷ 4 ∷ 5 ∷ [];
    };
  };
}

abbrev sent : Sent
sent = record {
  dev_ip = 167772170;
  dev_nm = 255;
  dev_gw = 16777226;
  dns_1 = 16777226;
  dns_2 = 0;
  dns_str = codes "a.b";
  server_port = 4000;
  mac_first = 0;
  mac_rest = 27 ∷ 160 ∷ 255 ∷ 9 ∷ 16 ∷ [];
  host_sn = codes "S1";
}

sent-Sendable : Sendable sent
sent-Sendable = record {
  ip_range = omega arith;
  nm_range = omega arith;
  gw_range = omega arith;
  dns_1_range = omega arith;
  dns_2_range = omega arith;
  name = record {
    clear = (refl, (refl, (refl, tt)));
    first = b'a';
    rest = codes ".b";
    shape = refl;
  };
  name_fits = refl;
  port_range = omega arith;
  mac =
      (omega arith, (omega arith, (omega arith, (omega arith, (omega arith, (omega arith, tt))))));
  six = refl;
  sn = record { clear = (refl, (refl, tt)); first = b'S'; rest = codes "1"; shape = refl };
  sn_fits = refl;
}

pc_set_dev_info-request_example :
    pc_set_dev_info demo_resolver (request 150994954 sent) device
    ≡ put_settings demo_resolver (with_sent sent (settings_of device.conf)) device
pc_set_dev_info-request_example =
    pc_set_dev_info-request demo_resolver sent device sent-Sendable (omega arith) refl refl

short_message_breaks_mac_example :
    TakenOver demo_resolver
      (with_mac (255 ∷ 1 ∷ 2 ∷ 3 ∷ 4 ∷ 5 ∷ []) device.conf)
      device
      (pc_set_dev_info demo_resolver (sys_ip2str_static 150994954) device)
short_message_breaks_mac_example =
    short_message_breaks_mac demo_resolver device 0 (1 ∷ 2 ∷ 3 ∷ 4 ∷ 5 ∷ []) (omega arith) refl refl
