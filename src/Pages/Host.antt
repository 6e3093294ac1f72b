-- ===== src/Pages/Host.antt =====
-- The pages of the device's texts, of the VLAN and of the factory settings: web/src/host/host.c,
-- web/src/vlan/vlan.c and web/src/factory/factory.c.
pub mod Vlan
use itertk.Base.{
  ℕ, Bool, true, false, Option, none, some, List, [], ◌∷◌, ◌==◌, if◌then◌else◌, codes,
}
use itertk.Conf.{ConfigSys, ConfigVlan}
use itertk.Conf.Users.{CmdCode, code_number}
use itertk.Wire.{Step}
use itertk.Itslib.{Page, Result}
use itertk.Itslib.Settings.{
  its_sysinfo_query, its_sysinfo_set, its_vlan_query, its_vlan_set, its_factory_set,
}
use itertk.Pages.{
  Cgi, View, Alert, Reading, SettingsPage, Runs, atoi_dword, session_read, cgi_main, if_clicked,
}
use itertk.Pages.Controls.{Control}
use itertk.Pages.Decimal.{print_int}
use itertk.Pages.Port.{yes_no_texts, indices}

-- The fields of the page, of which `read_host` reads four
unfoldable pub show_host : ConfigSys → List (List ℕ × Control)
show_host con_sys =
    (codes "host_name", Control.text con_sys.host_name)
    ∷ (codes "host_pos", Control.text con_sys.host_pos)
    ∷ (codes "host_sn", Control.text con_sys.host_sn)
    ∷ (codes "sw_ver", Control.text con_sys.sw_ver)
    ∷ (codes "web_ver", Control.text con_sys.hw_ver)
    ∷ (codes "host_id", Control.text con_sys.host_id)
    ∷ (codes "description", Control.text con_sys.description)
    ∷ []

-- `get_host` for the four fields that can be changed
unfoldable pub read_host : Cgi → ConfigSys → ConfigSys
read_host cgi con_sys = record con_sys {
  host_name = cgi.form_string (codes "host_name") 30;
  host_pos = cgi.form_string (codes "host_pos") 30;
  host_id = cgi.form_string (codes "host_id") 30;
  description = cgi.form_string (codes "description") 30;
}

abbrev pub zero_sys : ConfigSys
zero_sys = record {
  host_name = [];
  host_pos = [];
  host_sn = [];
  sw_ver = [];
  hw_ver = [];
  host_id = [];
  description = [];
}

unfoldable pub host_page : Page → SettingsPage ConfigSys
unfolding its_sysinfo_query its_sysinfo_set
host_page page = record {
  query = λ p name c. its_sysinfo_query p name;
  set = its_sysinfo_set;
  set_ok = CmdCode.sys_set_ok;
  layout = page.abi.sys;
  start = zero_sys;
  cleared = zero_sys;
}

unfoldable pub host_main : Option (List ℕ) → Runs → Cgi → Step (View ConfigSys)
unfolding cgi_main host_page read_host
host_main session runs cgi =
    cgi_main (host_page runs.first) session runs
      (if_clicked cgi (codes "host") (λ c. Reading.accepted (read_host cgi c)))

unfoldable pub show_vlan : ConfigVlan → List (List ℕ × Control)
unfolding print_int
show_vlan con_vlan =
    (codes "enable", indices yes_no_texts con_vlan.enable)
    ∷ (codes "id", Control.text (print_int con_vlan.id))
    ∷ []

unfoldable pub read_vlan : Cgi → ConfigVlan → ConfigVlan
unfolding atoi_dword
read_vlan cgi con_vlan = record con_vlan {
  enable = cgi.select_single (codes "enable") yes_no_texts 0;
  id = atoi_dword (cgi.form_string (codes "id") 30);
}

unfoldable pub vlan_page : Page → SettingsPage ConfigVlan
unfolding its_vlan_query its_vlan_set
vlan_page page = record {
  query = λ p name c. its_vlan_query p name;
  set = its_vlan_set;
  set_ok = CmdCode.vlan_set_ok;
  layout = page.abi.vlan;
  start = record { enable = 0; id = 0 };
  cleared = record { enable = 0; id = 0 };
}

unfoldable pub vlan_main : Option (List ℕ) → Runs → Cgi → Step (View ConfigVlan)
unfolding cgi_main vlan_page read_vlan
vlan_main session runs cgi =
    cgi_main (vlan_page runs.first) session runs
      (if_clicked cgi (codes "vlan") (λ c. Reading.accepted (read_vlan cgi c)))

-- The factory page has no object: a click is one transaction.
unfoldable pub factory_main : Option (List ℕ) → Page → Cgi → Step (View Unit)
unfolding session_read its_factory_set code_number
factory_main session page cgi = elim (session_read session) [
  | none ↦ Step.done (record { alerts = Alert.not_logged_in ∷ []; shown = none; talks = [] })
  | some name ↦
      if cgi.clicked (codes "factory")
      then elim (its_factory_set page) [
        | Step.pending ↦ Step.pending
        | Step.fault ↦ Step.fault
        | Step.done r ↦ Step.done (record {
          alerts =
              (if r.code == code_number CmdCode.factory_set_ok
                then Alert.submitted
                else Alert.submit_failed r.code)
              ∷ [];
          shown = some tt;
          talks = r ∷ [];
        })
      ]
      else Step.done (record { alerts = []; shown = some tt; talks = [] })
]
