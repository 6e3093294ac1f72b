-- ===== src/Pages/Port/Cleared.antt =====
-- The query of the port page after a failure.
use itertk.Base.{ℕ, ◌≤◌, ◌≡◌, refl, some, List, [], ◌∷◌, length, get_elem?-none}
use itertk.Conf.Users.{CmdCode, code_number}
use itertk.Wire.{Step}
use itertk.Wire.Packet.{Itsip, ItsCmd}
use itertk.Web.{Web, Board}
use itertk.Web.Query.{sys_conf_query}
use itertk.Itslib.{Page, packed, with_user, with_data, fetch}
use itertk.Itslib.Ports.{its_conf_com_query}
use itertk.Pages.{Cgi}
use itertk.Pages.Port.{com_page}

query_255-fault :
    (b : Board) (w : Web) (head : Itsip)
    → length w.client.conf.con_lim ≤ 255
    → sys_conf_query b (with_data (0 ∷ 255 ∷ []) head) w ≡ Step.fault
unfolding sys_conf_query
query_255-fault b w head h = rw (get_elem?-none w.client.conf.con_lim 255 h) refl

-- After a failure the port page has cleared the number of the port with its object. The query that it
-- makes then carries the index 255, and a server with at most 255 ports reads its rights outside of
-- their array.
pub cleared_query_faults :
    (page p : Page) (cgi : Cgi) (b : Board) (w : Web) (name : List ℕ) (head : Itsip)
    → with_user name (packed p ItsCmd.conf_query 0) ≡ some head
    → length w.client.conf.con_lim ≤ 255
    → (asked : Itsip) × (its_conf_com_query p name (com_page page cgi).cleared
        ≡ fetch p (some asked) (code_number CmdCode.recv_failed) p.abi.port.size)
      × (sys_conf_query b asked w ≡ Step.fault)
unfolding its_conf_com_query com_page
cleared_query_faults page p cgi b w name head e h =
    (with_data (0 ∷ 255 ∷ []) head, rw e refl, query_255-fault b w head h)
