-- ===== src/Tests/Pages.antt =====
-- Forms, sessions and whole runs of the pages.
pub mod Runs
pub mod Whole
use itertk.Base.{
  ℕ, zero, suc, ◌-◌, ◌≤◌, ◌<◌, ◌≡◌, refl, sym, ap, ◌∙◌, Bool, true, false, Option, none, some, List,
  [], ◌∷◌, arith, codes, take, length, str_eq, take-all, replicate, get_or,
}
use itertk.Conf.{ConfigNet, ConfigMode, ConfigSession}
use itertk.Pages.{Cgi, Reading, pos}
use itertk.Pages.Controls.{unchanged, choice_of, is_there, Reads}
use itertk.Pages.Mode.{show_mode, read_mode}
use itertk.Pages.Mode.Unchanged.{read_mode-show_mode}
use itertk.Pages.Network.{zero_net, show_net, read_net}
use itertk.Pages.Network.Unchanged.{read_net-show_net}
use itertk.Pages.Upgrade.{Disk, Upgrade}
use itertk.Pages.Upgrade.Stored.{reads_of, Stored}

abbrev value_of : Option (List ℕ) → List ℕ
value_of none = []
value_of (some v) = v

-- A form of one button, read as cgic documents it; its numbers are 9000.
abbrev pub form_cgi : (List ℕ → Option (List ℕ)) → List ℕ → List ℕ → Cgi
form_cgi form button query = record {
  form_string = λ name max. take (max - 1) (value_of (form name));
  select_single = λ name ts default. choice_of (form name) ts default;
  form_integer = λ name default. pos 9000;
  checkbox = λ name. is_there (form name);
  clicked = λ name. str_eq name button;
  query_string = query;
}

pub form_cgi-Reads :
    (form : List ℕ → Option (List ℕ)) (button query : List ℕ)
    → Reads (form_cgi form button query) form
form_cgi-Reads form button query = record {
  select = λ name ts default. refl;
  string = λ name v max f plain short.
      ap (λ w. take (max - 1) (value_of w)) f ∙ take-all (max - 1) v (omega (arith, short));
  checked = λ name. refl;
}

abbrev home_net : ConfigNet
home_net = record zero_net {
  dev_ip = 0x6f01a8c0;
  dev_nm = 0x00ffffff;
  dev_gw = 0x0101a8c0;
  dev_dhcp = 1;
  dns = 16777226 ∷ 0 ∷ [];
  dev_mac = 0 ∷ 0x1a ∷ 0xff ∷ 3 ∷ 4 ∷ 0x9c ∷ [];
}

read_net-show_net_example :
    read_net (form_cgi (unchanged (show_net home_net)) (codes "net") []) home_net
    ≡ Reading.accepted home_net
read_net-show_net_example =
    read_net-show_net (form_cgi (unchanged (show_net home_net)) (codes "net") []) home_net 16777226
      0 0 0x1a 0xff 3 4 0x9c (form_cgi-Reads (unchanged (show_net home_net)) (codes "net") [])
      (omega arith) (omega arith) (omega arith) (omega arith) (omega arith) (omega arith)
      (omega arith, (omega arith, (omega arith, (omega arith, (omega arith, (omega arith, tt))))))

abbrev session_of : ℕ → ConfigSession
session_of n = record {
  protocol = n;
  ip = 0x0101a8c0;
  lport = 7000;
  dport = 65535;
  conn = 0;
  dis_conn = 0;
  time_out = 0;
  max_num = 4;
  rsvd = replicate 4 0;
}

abbrev home_mode : ConfigMode
home_mode = record {
  id = 1;
  mode = 1;
  tcp_mode = 0;
  cr = 0;
  lf = 0;
  is_null = 0;
  attestation = 0;
  att = 0;
  reg = 0;
  session =
      session_of 0 ∷ session_of 1 ∷ session_of 2 ∷ session_of 3 ∷ session_of 0 ∷ session_of 1 ∷ [];
}

read_mode-show_mode_example :
    read_mode (form_cgi (unchanged (show_mode home_mode)) (codes "mode") []) home_mode ≡ home_mode
read_mode-show_mode_example =
    read_mode-show_mode (form_cgi (unchanged (show_mode home_mode)) (codes "mode") []) home_mode
      (session_of 0) (session_of 1) (session_of 2) (session_of 3) (session_of 0) (session_of 1)
      (form_cgi-Reads (unchanged (show_mode home_mode)) (codes "mode") []) (omega arith)
      (omega arith)
      (
        record {
          protocol = omega arith;
          ip = omega arith;
          lport = omega arith;
          dport = omega arith;
        },
        (
          record {
            protocol = omega arith;
            ip = omega arith;
            lport = omega arith;
            dport = omega arith;
          },
          (
            record {
              protocol = omega arith;
              ip = omega arith;
              lport = omega arith;
              dport = omega arith;
            },
            (
              record {
                protocol = omega arith;
                ip = omega arith;
                lport = omega arith;
                dport = omega arith;
              },
              (
                record {
                  protocol = omega arith;
                  ip = omega arith;
                  lport = omega arith;
                  dport = omega arith;
                },
                (
                  record {
                    protocol = omega arith;
                    ip = omega arith;
                    lport = omega arith;
                    dport = omega arith;
                  },
                  tt,
                ),
              ),
            ),
          ),
        ),
      )

-- there is an earlier file, and room for the new one
abbrev roomy : Disk
roomy = record { old = some (9 ∷ []); opened = true; room = λ n. some 1024 }
