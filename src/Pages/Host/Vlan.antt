-- ===== src/Pages/Host/Vlan.antt =====
-- The pages of the device's texts and of the VLAN, sent back as they are shown.
use itertk.Base.{◌<◌, ◌^◌, ◌≡◌, refl, arith, codes}
use itertk.Conf.{ConfigVlan}
use itertk.Pages.{Cgi}
use itertk.Pages.Controls.{unchanged, Reads}
use itertk.Pages.Decimal.{print_int, print_int-Shown}
use itertk.Pages.Port.{yes_no_texts}
use itertk.Pages.Network.Unchanged.{yes_no-back}
use itertk.Pages.Host.{show_vlan, read_vlan}

-- The VLAN page's form, sent back as it is shown, changes nothing.
pub read_vlan-show_vlan :
    (cgi : Cgi) (con_vlan : ConfigVlan)
    → Reads cgi (unchanged (show_vlan con_vlan))
    → con_vlan.enable < 2
    → con_vlan.id < 2 ^ 31
    → read_vlan cgi con_vlan ≡ con_vlan
unfolding read_vlan show_vlan
read_vlan-show_vlan cgi con_vlan r e i =
    let d = print_int-Shown con_vlan.id i in
    rw
      (
        r.select (codes "enable") yes_no_texts 0,
        r.string (codes "id") (print_int con_vlan.id) 30 refl d.plain (omega (arith, d.short)),
        yes_no-back con_vlan.enable e,
        d.back,
      )
      refl
