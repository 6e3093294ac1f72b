-- ===== src/Itslib/Ports.antt =====
-- The transactions of itslib/src/itscmd.c over a serial port: its line, its mode and its limits. The
-- port's index is the `id` of the object less 1, as a byte.
use itertk.Base.{ℕ, ◌+◌, ◌%◌, some, List, [], ◌∷◌}
use itertk.Conf.{ConfigCom, ConfigMode, ConfigLimit}
use itertk.Conf.Users.{CmdCode, code_number}
use itertk.Wire.{Step}
use itertk.Wire.Packet.{ItsCmd}
use itertk.Itslib.{Page, Result, packed, with_user, with_data, map_head, fetch, submit}

abbrev pub index_of : ℕ → ℕ
index_of id = (id + 255) % 256

unfoldable pub its_conf_com_query : Page → List ℕ → ConfigCom → Step Result
unfolding fetch code_number
its_conf_com_query page name con_com =
    fetch page
      (map_head (with_data (0 ∷ index_of con_com.id ∷ []))
        (with_user name (packed page ItsCmd.conf_query 0)))
      (code_number CmdCode.recv_failed) page.abi.port.size

unfoldable pub its_conf_mode_query : Page → List ℕ → ConfigMode → Step Result
unfolding fetch code_number
its_conf_mode_query page name con_mode =
    fetch page
      (map_head (with_data (1 ∷ index_of con_mode.id ∷ []))
        (with_user name (packed page ItsCmd.conf_query 0)))
      (code_number CmdCode.recv_failed) page.abi.mode.size

unfoldable pub its_conf_lim_query : Page → List ℕ → ConfigLimit → Step Result
unfolding fetch code_number
its_conf_lim_query page name con_lim =
    fetch page
      (map_head (with_data (2 ∷ index_of con_lim.id ∷ []))
        (with_user name (packed page ItsCmd.conf_query 0)))
      (code_number CmdCode.recv_failed) page.abi.limit.size

unfoldable pub its_conf_com_set : Page → ConfigCom → ℕ → Step Result
unfolding submit
its_conf_com_set page con_com flag =
    submit page
      (some (
        with_data (0 ∷ index_of con_com.id ∷ flag ∷ [])
          (packed page ItsCmd.conf_set page.abi.port.size)))
      (page.abi.port.store con_com)

unfoldable pub its_conf_mode_set : Page → ConfigMode → Step Result
unfolding submit
its_conf_mode_set page con_mode =
    submit page
      (some (
        with_data (1 ∷ index_of con_mode.id ∷ []) (packed page ItsCmd.conf_set page.abi.mode.size)))
      (page.abi.mode.store con_mode)

unfoldable pub its_conf_lim_set : Page → ConfigLimit → Step Result
unfolding submit
its_conf_lim_set page con_lim =
    submit page
      (some (
        with_data (2 ∷ index_of con_lim.id ∷ []) (packed page ItsCmd.conf_set page.abi.limit.size)))
      (page.abi.limit.store con_lim)
