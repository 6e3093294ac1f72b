-- ===== src/Pages/Mode.antt =====
-- The page of a port's working mode and its sessions: web/src/mode/mode.c.
pub mod Unchanged
use itertk.Base.{ℕ, ◌+◌, Bool, Option, List, [], ◌∷◌, ◌++◌, ◌==◌, u8, codes, replicate}
use itertk.Conf.{ConfigMode, ConfigSession, max_session}
use itertk.Conf.Users.{CmdCode}
use itertk.Wire.{Step}
use itertk.System.Address.{sys_str2ip, sys_ip2str_static}
use itertk.Itslib.{Page}
use itertk.Itslib.Ports.{its_conf_mode_query, its_conf_mode_set}
use itertk.Pages.{Cgi, View, Reading, SettingsPage, Runs, cgi_main, if_clicked, atoi_dword}
use itertk.Pages.Controls.{Control, options}
use itertk.Pages.Decimal.{print_int}

-- "off" in GB2312
abbrev pub off_text : List ℕ
off_text = 0xb9 ∷ 0xd8 ∷ 0xb1 ∷ 0xd5 ∷ []

abbrev pub wmode_texts : List (List ℕ)
wmode_texts = off_text ∷ codes "TCP/UDP Socket" ∷ []

abbrev pub dmode_texts : List (List ℕ)
dmode_texts = codes "raw" ∷ codes "telnet" ∷ []

abbrev pub ptl_texts : List (List ℕ)
ptl_texts = off_text ∷ codes "TCP Client" ∷ codes "TCP Server" ∷ codes "UDP" ∷ []

abbrev pub by_index : List (List ℕ) → ℕ → Control
by_index ts n = Control.choice (options (λ i. n == i) ts)

-- `sprintf` of a session's field; the number has one digit.
abbrev pub field_of : List ℕ → ℕ → List ℕ
field_of name id = name ++ ((b'0' + id) ∷ [])

abbrev pub show_session : ℕ → ConfigSession → List (List ℕ × Control)
show_session id s =
    (field_of (codes "ptl") id, by_index ptl_texts s.protocol)
    ∷ (field_of (codes "ip") id, Control.text (sys_ip2str_static s.ip))
    ∷ (field_of (codes "lport") id, Control.text (print_int s.lport))
    ∷ (field_of (codes "dport") id, Control.text (print_int s.dport))
    ∷ []

abbrev pub show_sessions : ℕ → List ConfigSession → List (List ℕ × Control)
show_sessions id [] = []
show_sessions id (s ∷ ss) = show_session id s ++ show_sessions (id + 1) ss

unfoldable pub show_mode : ConfigMode → List (List ℕ × Control)
show_mode con_mode =
    (codes "workmode", by_index wmode_texts con_mode.mode)
    ∷ (codes "datamode", by_index dmode_texts con_mode.tcp_mode)
    ∷ show_sessions 0 con_mode.session

unfoldable pub get_session : Cgi → ℕ → ConfigSession → ConfigSession
unfolding sys_str2ip atoi_dword
get_session cgi id s = record s {
  protocol = cgi.select_single (field_of (codes "ptl") id) ptl_texts 0;
  ip = sys_str2ip (cgi.form_string (field_of (codes "ip") id) 30);
  lport = atoi_dword (cgi.form_string (field_of (codes "lport") id) 30);
  dport = atoi_dword (cgi.form_string (field_of (codes "dport") id) 30);
}

-- the loop over the six sessions of the array
unfoldable pub get_sessions : Cgi → ℕ → List ConfigSession → List ConfigSession
unfolding get_session
get_sessions cgi id [] = []
get_sessions cgi id (s ∷ ss) = get_session cgi id s ∷ get_sessions cgi (id + 1) ss

unfoldable pub read_mode : Cgi → ConfigMode → ConfigMode
unfolding get_sessions
read_mode cgi con_mode = record con_mode {
  mode = u8 (cgi.select_single (codes "workmode") wmode_texts 0);
  tcp_mode = u8 (cgi.select_single (codes "datamode") dmode_texts 0);
  session = get_sessions cgi 0 con_mode.session;
}

abbrev pub zero_session : ConfigSession
zero_session = record {
  protocol = 0;
  ip = 0;
  lport = 0;
  dport = 0;
  conn = 0;
  dis_conn = 0;
  time_out = 0;
  max_num = 0;
  rsvd = replicate 4 0;
}

-- a cleared object with its number
abbrev pub mode_of : ℕ → ConfigMode
mode_of id = record {
  id = id;
  mode = 0;
  tcp_mode = 0;
  cr = 0;
  lf = 0;
  is_null = 0;
  attestation = 0;
  att = 0;
  reg = 0;
  session = replicate max_session zero_session;
}

unfoldable pub mode_page : Page → Cgi → SettingsPage ConfigMode
unfolding its_conf_mode_query its_conf_mode_set atoi_dword
mode_page page cgi = record {
  query = its_conf_mode_query;
  set = its_conf_mode_set;
  set_ok = CmdCode.mode_set_ok;
  layout = page.abi.mode;
  start = mode_of (atoi_dword cgi.query_string);
  cleared = mode_of (atoi_dword cgi.query_string);
}

unfoldable pub mode_main : Option (List ℕ) → Runs → Cgi → Step (View ConfigMode)
unfolding cgi_main mode_page read_mode
mode_main session runs cgi =
    cgi_main (mode_page runs.first cgi) session runs
      (if_clicked cgi (codes "mode") (λ c. Reading.accepted (read_mode cgi c)))
