-- ===== src/Conf/Users.antt =====
-- The user table `con_usr`: the functions of nc600-2.0/src/config.c over it, and the login and user
-- commands of nc600-2.0/src/web_net.c. Names and passwords are C strings.
pub mod Accounts
pub mod Rights
use itertk.Base.{
  ℕ, zero, suc, ◌+◌, Bool, true, false, Option, none, some, List, [], ◌∷◌, ltb, ◌==◌, if◌then◌else◌,
  str_eq, codes,
}
use itertk.Conf.{UsrInfo}
use itertk.Conf.Defaults.{usr_root}

-- The codes of nc600-2.0/inc/cmd_def.h, in its order.
pub data CmdCode : Type 0 where
  conn_failed send_failed recv_failed login_ok no_user error_psw query_ok query_failed : CmdCode
  sys_set_ok sys_set_failed net_set_ok net_set_failed vlan_set_ok vlan_set_failed : CmdCode
  factory_set_ok factory_set_failed rc_nousr rc_noright rc_usrexist : CmdCode
  usr_add_ok usr_add_noright usr_add_failed usr_del_ok usr_del_noright usr_del_failed : CmdCode
  usr_modify_ok usr_modify_noright usr_modify_failed com_set_ok com_set_failed : CmdCode
  mode_set_ok mode_set_failed limit_set_ok limit_set_failed : CmdCode
  server_set_ok server_set_failed dns_ok dns_failed gpio_set_ok gpio_set_failed : CmdCode

-- The number of a code: the enumeration starts at 1.
unfoldable pub code_number : CmdCode → ℕ
code_number CmdCode.conn_failed = 1
code_number CmdCode.send_failed = 2
code_number CmdCode.recv_failed = 3
code_number CmdCode.login_ok = 4
code_number CmdCode.no_user = 5
code_number CmdCode.error_psw = 6
code_number CmdCode.query_ok = 7
code_number CmdCode.query_failed = 8
code_number CmdCode.sys_set_ok = 9
code_number CmdCode.sys_set_failed = 10
code_number CmdCode.net_set_ok = 11
code_number CmdCode.net_set_failed = 12
code_number CmdCode.vlan_set_ok = 13
code_number CmdCode.vlan_set_failed = 14
code_number CmdCode.factory_set_ok = 15
code_number CmdCode.factory_set_failed = 16
code_number CmdCode.rc_nousr = 17
code_number CmdCode.rc_noright = 18
code_number CmdCode.rc_usrexist = 19
code_number CmdCode.usr_add_ok = 20
code_number CmdCode.usr_add_noright = 21
code_number CmdCode.usr_add_failed = 22
code_number CmdCode.usr_del_ok = 23
code_number CmdCode.usr_del_noright = 24
code_number CmdCode.usr_del_failed = 25
code_number CmdCode.usr_modify_ok = 26
code_number CmdCode.usr_modify_noright = 27
code_number CmdCode.usr_modify_failed = 28
code_number CmdCode.com_set_ok = 29
code_number CmdCode.com_set_failed = 30
code_number CmdCode.mode_set_ok = 31
code_number CmdCode.mode_set_failed = 32
code_number CmdCode.limit_set_ok = 33
code_number CmdCode.limit_set_failed = 34
code_number CmdCode.server_set_ok = 35
code_number CmdCode.server_set_failed = 36
code_number CmdCode.dns_ok = 37
code_number CmdCode.dns_failed = 38
code_number CmdCode.gpio_set_ok = 39
code_number CmdCode.gpio_set_failed = 40

abbrev pub Users : Type 0
Users = List UsrInfo

unfoldable pub get_usr_info : Users → List ℕ → Option UsrInfo
get_usr_info [] name = none
get_usr_info (u ∷ us) name = if str_eq name u.usr_name then some u else get_usr_info us name

-- `usr_name[0] == '\0'`
abbrev pub is_free : List ℕ → Bool
is_free [] = true
is_free (_ ∷ _) = false

-- The first free entry takes the name and the password; its authority stays.
unfoldable pub sys_usr_add : Users → List ℕ → List ℕ → CmdCode × Users
sys_usr_add [] name psw = (CmdCode.usr_add_failed, [])
sys_usr_add (u ∷ us) name psw =
    let rest = sys_usr_add us name psw in
    if is_free u.usr_name
    then (CmdCode.usr_add_ok, record u { usr_name = name; usr_passwd = psw } ∷ us)
    else (rest.0, u ∷ rest.1)

unfoldable pub sys_usr_del : Users → List ℕ → CmdCode × Users
sys_usr_del [] name = (CmdCode.usr_del_failed, [])
sys_usr_del (u ∷ us) name =
    let rest = sys_usr_del us name in
    if str_eq name u.usr_name
    then (CmdCode.usr_del_ok, record u { usr_name = [] } ∷ us)
    else (rest.0, u ∷ rest.1)

unfoldable pub set_usr_name : Users → List ℕ → List ℕ → CmdCode × Users
set_usr_name [] oname nname = (CmdCode.usr_modify_failed, [])
set_usr_name (u ∷ us) oname nname =
    let rest = set_usr_name us oname nname in
    if str_eq oname u.usr_name
    then (CmdCode.usr_modify_ok, record u { usr_name = nname } ∷ us)
    else (rest.0, u ∷ rest.1)

unfoldable pub set_usr_psw : Users → List ℕ → List ℕ → CmdCode × Users
set_usr_psw [] name psw = (CmdCode.usr_modify_failed, [])
set_usr_psw (u ∷ us) name psw =
    let rest = set_usr_psw us name psw in
    if str_eq name u.usr_name
    then (CmdCode.usr_modify_ok, record u { usr_passwd = psw } ∷ us)
    else (rest.0, u ∷ rest.1)

unfoldable pub sys_usr_login : Users → List ℕ → List ℕ → CmdCode
sys_usr_login [] name psw = CmdCode.no_user
sys_usr_login (u ∷ us) name psw =
    if str_eq name u.usr_name
    then (if str_eq psw u.usr_passwd then CmdCode.login_ok else CmdCode.error_psw)
    else sys_usr_login us name psw

-- the index of the first entry of that name, or the table's length
unfoldable pub get_usr_id : Users → List ℕ → ℕ
get_usr_id [] name = 0
get_usr_id (u ∷ us) name = if str_eq u.usr_name name then 0 else suc (get_usr_id us name)

-- `enum USER_SET`, and the other values of the command byte
pub data UserSet : Type 0 where
  user_add user_del user_modify other : UserSet

-- What follows the head of the packet: two `USR_INFO` of which the name and the password are read.
pub record Extdat : Type 0 where
  pub name0 : List ℕ
  pub passwd0 : List ℕ
  pub name1 : List ℕ
  pub passwd1 : List ℕ

abbrev is_none {ℓ} : {A : Type ℓ} → Option A → Bool
is_none none = true
is_none (some _) = false

usr_set_add : Users → Extdat → CmdCode × Users
usr_set_add us x =
    if is_none (get_usr_info us x.name0)
    then sys_usr_add us x.name0 x.passwd0
    else (CmdCode.rc_usrexist, us)

usr_set_del : Users → Extdat → CmdCode × Users
usr_set_del us x =
    if is_none (get_usr_info us x.name0)
    then (CmdCode.rc_nousr, us)
    else if str_eq x.name0 (codes "root")
    then (CmdCode.usr_del_failed, us)
    else sys_usr_del us x.name0

-- The code compares a result with `FAILURE`, which is 0 and no `CMD_CODE`: the two failure branches
-- are never taken. It also compares an array with 0, which always differs.
usr_set_modify : Users → Extdat → CmdCode × Users
usr_set_modify us x =
    if is_free x.name1 then (CmdCode.usr_modify_ok, (set_usr_psw us x.name0 x.passwd1).1) else (
      CmdCode.usr_modify_ok,
      (set_usr_psw (set_usr_name us x.name0 x.name1).1 x.name1 x.passwd1).1,
    )

usr_set_flag : UserSet → Users → Extdat → CmdCode × Users
usr_set_flag UserSet.user_add us x = usr_set_add us x
usr_set_flag UserSet.user_del us x = usr_set_del us x
usr_set_flag UserSet.user_modify us x = usr_set_modify us x
usr_set_flag UserSet.other us x = (CmdCode.rc_nousr, us)

usr_set_as : Option UsrInfo → UserSet → Users → Extdat → CmdCode × Users
usr_set_as none flag us x = (CmdCode.rc_nousr, us)
usr_set_as (some u) flag us x =
    if u.usr_auth == usr_root then usr_set_flag flag us x else (CmdCode.rc_noright, us)

-- The command of the user named in the packet's head.
unfoldable pub sys_usr_set : Users → List ℕ → UserSet → Extdat → CmdCode × Users
unfolding usr_set_as usr_set_flag usr_set_add usr_set_del usr_set_modify
sys_usr_set us user flag x = usr_set_as (get_usr_info us user) flag us x
