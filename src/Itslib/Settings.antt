-- ===== src/Itslib/Settings.antt =====
-- The transactions of itslib/src/itscmd.c for the settings that have commands of their own.
use itertk.Base.{ℕ, some, List, [], ◌∷◌}
use itertk.Conf.{ConfigSys, ConfigNet, ConfigVlan, ConfigGpio, ConfigServer}
use itertk.Conf.Users.{CmdCode, code_number}
use itertk.Wire.{Step}
use itertk.Wire.Packet.{ItsCmd}
use itertk.Itslib.{Page, Result, packed, with_user, with_data, map_head, fetch, submit, failure}

unfoldable pub its_sysinfo_query : Page → List ℕ → Step Result
unfolding fetch
its_sysinfo_query page name =
    fetch page (with_user name (packed page ItsCmd.sysinfo_query 0)) failure page.abi.sys.size

-- The settings commands leave the user's name of the head as it is.
unfoldable pub its_sysinfo_set : Page → ConfigSys → Step Result
unfolding submit
its_sysinfo_set page con_sys =
    submit page (some (packed page ItsCmd.sysinfo_set page.abi.sys.size))
      (page.abi.sys.store con_sys)

unfoldable pub its_netinfo_query : Page → List ℕ → Step Result
unfolding fetch
its_netinfo_query page name =
    fetch page (with_user name (packed page ItsCmd.netinfo_query 0)) failure page.abi.net.size

unfoldable pub its_netinfo_set : Page → ConfigNet → Step Result
unfolding submit
its_netinfo_set page con_net =
    submit page (some (packed page ItsCmd.netinfo_set page.abi.net.size))
      (page.abi.net.store con_net)

unfoldable pub its_vlan_query : Page → List ℕ → Step Result
unfolding fetch
its_vlan_query page name =
    fetch page (with_user name (packed page ItsCmd.vlan_query 0)) failure page.abi.vlan.size

unfoldable pub its_vlan_set : Page → ConfigVlan → Step Result
unfolding submit
its_vlan_set page con_vlan =
    submit page (some (packed page ItsCmd.vlan_set page.abi.vlan.size))
      (page.abi.vlan.store con_vlan)

unfoldable pub its_factory_set : Page → Step Result
unfolding submit
its_factory_set page = submit page (some (packed page ItsCmd.factory_set 0)) []

-- `CONF_GPIO` and `CONF_SERVER` in the first data byte are not read by the server.
unfoldable pub its_conf_gpio_query : Page → List ℕ → Step Result
unfolding fetch code_number
its_conf_gpio_query page name =
    fetch page (map_head (with_data (3 ∷ [])) (with_user name (packed page ItsCmd.gpio_query 0)))
      (code_number CmdCode.recv_failed) page.abi.gpio.size

unfoldable pub its_conf_gpio_set : Page → ConfigGpio → Step Result
unfolding submit
its_conf_gpio_set page con_gpio =
    submit page (some (packed page ItsCmd.gpio_set page.abi.gpio.size))
      (page.abi.gpio.store con_gpio)

unfoldable pub its_conf_server_query : Page → List ℕ → Step Result
unfolding fetch
its_conf_server_query page name =
    fetch page (map_head (with_data (4 ∷ [])) (with_user name (packed page ItsCmd.server_query 0)))
      failure page.abi.server.size

unfoldable pub its_conf_server_set : Page → ConfigServer → Step Result
unfolding submit
its_conf_server_set page con_server =
    submit page (some (packed page ItsCmd.server_set page.abi.server.size))
      (page.abi.server.store con_server)
