-- ===== src/Itslib/Users.antt =====
-- The login and the user commands of itslib/src/itscmd.c. The objects of USER_SET are one or two user
-- entries, given by their bytes.
use itertk.Base.{ℕ, Option, none, some, List, [], ◌∷◌, length}
use itertk.Conf.Users.{CmdCode, code_number}
use itertk.Wire.{Step}
use itertk.Wire.Packet.{ItsCmd, Itsip}
use itertk.Itslib.{
  Page, Result, put_string, packed, with_user, with_data, map_head, fetch, submit, submit_open,
}

-- the encrypted password in the data of a head
abbrev pub with_password : List ℕ → Option Itsip → Option Itsip
with_password psw none = none
with_password psw (some head) = elim (put_string psw head.itsip_data) [
  | none ↦ none
  | some field ↦ some (record head { itsip_data = field })
]

unfoldable pub user_login : Page → List ℕ → List ℕ → Step Result
unfolding submit
user_login page name psw =
    submit page (with_password (page.crypt psw) (with_user name (packed page ItsCmd.login 0))) []

unfoldable pub its_user_query : Page → List ℕ → Step Result
unfolding fetch code_number
its_user_query page name =
    fetch page (with_user name (packed page ItsCmd.user_query 0)) (code_number CmdCode.recv_failed)
      page.abi.users.size

-- the head of USER_SET: the length of the entries, the user who asks and what is to be done
abbrev pub user_head : Page → List ℕ → ℕ → List ℕ → Option Itsip
user_head page name flag entries =
    map_head (with_data (flag ∷ [])) (with_user name (packed page ItsCmd.user_set (length entries)))

unfoldable pub its_user_add : Page → List ℕ → List ℕ → Step Result
unfolding submit_open
its_user_add page name entry = submit_open page (user_head page name 0 entry) entry

unfoldable pub its_user_del : Page → List ℕ → List ℕ → Step Result
unfolding submit_open
its_user_del page name entry = submit_open page (user_head page name 1 entry) entry

-- two entries, the old one and the new one
unfoldable pub its_user_modify : Page → List ℕ → List ℕ → Step Result
unfolding submit_open
its_user_modify page name entries = submit_open page (user_head page name 2 entries) entries
