-- ===== src/Pages/Port.antt =====
-- The page of a serial port's line: web/src/com/com.c. Option texts are bytes in GB2312.
pub mod Unchanged
pub mod Cleared
use itertk.Base.{
  ℕ, ◌+◌, Bool, true, false, Option, none, some, List, [], ◌∷◌, ◌++◌, ◌==◌, if◌then◌else◌, u8,
  codes, get_or, replicate,
}
use itertk.Conf.{ConfigCom}
use itertk.Conf.Users.{CmdCode}
use itertk.Wire.{Step}
use itertk.Itslib.{Page}
use itertk.Itslib.Ports.{its_conf_com_query, its_conf_com_set}
use itertk.Pages.{Cgi, View, Reading, SettingsPage, Runs, cgi_main, if_clicked, atoi_dword}
use itertk.Pages.Controls.{Control, options}

abbrev pub bps_texts : List (List ℕ)
bps_texts =
    codes "300"
    ∷ codes "600"
    ∷ codes "1200"
    ∷ codes "2400"
    ∷ codes "4800"
    ∷ codes "9600"
    ∷ codes "19200"
    ∷ codes "38400"
    ∷ codes "57600"
    ∷ codes "115200"
    ∷ codes "230400"
    ∷ codes "460800"
    ∷ codes "576000"
    ∷ codes "921600"
    ∷ []

abbrev pub dbit_texts : List (List ℕ)
dbit_texts = codes "5" ∷ codes "6" ∷ codes "7" ∷ codes "8" ∷ []

-- even, odd, none
abbrev pub chk_texts : List (List ℕ)
chk_texts =
    (0xc5 ∷ 0xbc ∷ 0xd0 ∷ 0xa3 ∷ 0xd1 ∷ 0xe9 ∷ [])
    ∷ (0xc6 ∷ 0xe6 ∷ 0xd0 ∷ 0xa3 ∷ 0xd1 ∷ 0xe9 ∷ [])
    ∷ (0xce ∷ 0xde ∷ 0xd0 ∷ 0xa3 ∷ 0xd1 ∷ 0xe9 ∷ [])
    ∷ []

abbrev pub sbit_texts : List (List ℕ)
sbit_texts = codes "1" ∷ codes "2" ∷ []

abbrev pub type_texts : List (List ℕ)
type_texts = codes "RS232" ∷ codes "RS485" ∷ []

-- no, yes
abbrev pub yes_no_texts : List (List ℕ)
yes_no_texts = (0xb7 ∷ 0xf1 ∷ []) ∷ (0xca ∷ 0xc7 ∷ []) ∷ []

-- a choice that shows the number of its texts
abbrev pub numbers : List (List ℕ) → ℕ → Control
numbers ts n = Control.choice (options (λ i. atoi_dword (get_or ts i []) == n) ts)

-- a choice that shows an index
abbrev pub indices : List (List ℕ) → ℕ → Control
indices ts n = Control.choice (options (λ i. i == n) ts)

-- `show_bps` to `show_loop` and the box, as the page prints them; `show_chk` counts from 1.
unfoldable pub show_com : ConfigCom → List (List ℕ × Control)
unfolding atoi_dword
show_com con_com =
    (codes "bps", numbers bps_texts con_com.bps)
    ∷ (codes "dbit", numbers dbit_texts con_com.dbit)
    ∷ (codes "chk", Control.choice (options (λ i. i + 1 == con_com.chk) chk_texts))
    ∷ (codes "sbit", numbers sbit_texts con_com.sbit)
    ∷ (codes "bctrl", Control.choice (((0xce ∷ 0xde ∷ []), false) ∷ []))
    ∷ (codes "type", indices type_texts con_com.type)
    ∷ (codes "loop", indices yes_no_texts con_com.isloop)
    ∷ (codes "checkbox", Control.box)
    ∷ []

-- the choice of a text that is a number
abbrev pub get_number : Cgi → List ℕ → List (List ℕ) → ℕ
get_number cgi name ts = atoi_dword (get_or ts (cgi.select_single name ts 0) [])

-- `get_bps` to `getallYN`
unfoldable pub read_com : Cgi → ConfigCom → ConfigCom
unfolding atoi_dword
read_com cgi con_com = record con_com {
  bps = get_number cgi (codes "bps") bps_texts;
  dbit = u8 (get_number cgi (codes "dbit") dbit_texts);
  chk = u8 (cgi.select_single (codes "chk") chk_texts 0 + 1);
  sbit = get_number cgi (codes "sbit") sbit_texts;
  type = u8 (cgi.select_single (codes "type") type_texts 0);
  isloop = u8 (cgi.select_single (codes "loop") yes_no_texts 0);
  all = if cgi.checkbox (codes "checkbox") then 1 else 0;
}

abbrev pub zero_com : ConfigCom
zero_com = record {
  id = 0;
  bps = 0;
  sbit = 0;
  dbit = 0;
  chk = 0;
  bctrl = 0;
  rts = 0;
  dtr = 0;
  all = 0;
  type = 0;
  isloop = 0;
  rsvd = replicate 4 0;
  alive = 0;
}

-- The object is cleared with its number after a failure.
unfoldable pub com_page : Page → Cgi → SettingsPage ConfigCom
unfolding its_conf_com_query its_conf_com_set atoi_dword
com_page page cgi = record {
  query = its_conf_com_query;
  set = λ p con_com. its_conf_com_set p con_com con_com.all;
  set_ok = CmdCode.com_set_ok;
  layout = page.abi.port;
  start = record zero_com { id = atoi_dword cgi.query_string };
  cleared = zero_com;
}

unfoldable pub com_main : Option (List ℕ) → Runs → Cgi → Step (View ConfigCom)
unfolding cgi_main com_page read_com
com_main session runs cgi =
    cgi_main (com_page runs.first cgi) session runs
      (if_clicked cgi (codes "com") (λ c. Reading.accepted (read_com cgi c)))
