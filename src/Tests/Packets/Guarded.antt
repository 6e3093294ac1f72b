-- ===== src/Tests/Packets/Guarded.antt =====
-- A packet without the right, and rounds of the server.
use itertk.Base.{◌≡◌, refl, true, false, none, some, List, [], ◌∷◌, ◌++◌, replicate, codes}
use itertk.Conf.{ConfigLimit, UsrInfo}
use itertk.Conf.Users.{get_usr_id}
use itertk.Wire.{After}
use itertk.Wire.Packet.{Itsip, c_string}
use itertk.Web.{Web, Board, allowed}
use itertk.Web.Command.{web_cmd_proc}
use itertk.Web.Rights.{Denied, conf_set_without_right}
use itertk.Web.Table.{Round, web_init, web_run}
use itertk.Web.Table.Served.{IsServed, Holds, web_run-IsServed}
use itertk.Tests.{demo}
use itertk.Tests.Wires.{burst}
use itertk.Tests.Packets.{demo_head, demo_board, set_bytes, demo_web}

-- port 1 is limited, and the first user is no root
abbrev guest : UsrInfo
guest = record { usr_id = 1; usr_name = codes "ann"; usr_passwd = codes "pw"; usr_auth = 0 }

abbrev closed_port : ConfigLimit
closed_port = record { id = 1; enable = 1; read = replicate 16 0; modify = replicate 16 0 }

abbrev guest_web : Web
guest_web =
    let w = demo_web [] in
    let c = w.client in
    let conf = c.conf in
    record w {
      client = record c { conf = record conf { con_usr = guest ∷ []; con_lim = closed_port ∷ [] } };
    }

-- CONF_SET for the mode of port 1
abbrev guest_head : Itsip
guest_head =
    let h = demo_head 0xa3 in
    record h { itsip_user = codes "ann" ++ replicate 21 0; itsip_data = 1 ∷ replicate 23 0 }

guest-Denied : Denied guest_head guest_web.client.conf
unfolding allowed get_usr_id c_string
guest-Denied = record { no_right = refl; not_root = refl }

conf_set_without_right_example :
    After
      (λ (_ : Unit) (w' : Web). w' ≡ record guest_web { conn = w'.conn })
      (web_cmd_proc demo_board guest_head guest_web)
conf_set_without_right_example =
    conf_set_without_right demo_board guest_head guest_web refl guest-Denied

-- A connection arrives and is served in the next round.
abbrev demo_rounds : List (Board × Round)
demo_rounds =
    (
      demo_board,
      Round.ready
          (some (some (record { fd = 7; ip = []; inbox = set_bytes; calls = burst 56 ∷ [] })))
          (λ fd. false),
    )
    ∷ (demo_board, Round.ready none (λ fd. true))
    ∷ []

web_run-IsServed_example : Holds IsServed (web_run demo_rounds (web_init demo 3))
web_run-IsServed_example = web_run-IsServed demo_rounds demo 3
