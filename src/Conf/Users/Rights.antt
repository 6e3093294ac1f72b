-- ===== src/Conf/Users/Rights.antt =====
-- Who may change the table, and what the user command keeps.
use itertk.Base.{
  ℕ, ◌≡◌, refl, ◌≢◌, inl, inr, Bool, true, false, Option, none, some, List, [], arith, ◌==◌,
  if◌then◌else◌, str_eq, codes, length, Bool-cases, Option-cases,
}
use itertk.Conf.{UsrInfo}
use itertk.Conf.Defaults.{usr_root}
use itertk.Conf.Users.{
  CmdCode, Users, UserSet, Extdat, get_usr_info, is_none, set_usr_name, usr_set_as, usr_set_flag,
  usr_set_add, usr_set_del, sys_usr_set,
}
use itertk.Conf.Users.Accounts.{
  Unique, add-Unique, del-Unique, length-add, length-del, length-set_name, length-set_psw,
}

-- The user that sent the command is in the table with root's authority.
abbrev pub IsRoot : Users → List ℕ → Type 0
IsRoot us user = (u : UsrInfo) × (get_usr_info us user ≡ some u) × (u.usr_auth ≡ usr_root)

-- A user without root's authority changes nothing, whatever the command: the answer is RC_NOUSR for an
-- unknown user and RC_NORIGHT for a known one.
pub usr_set-noright :
    (us : Users) (user : List ℕ) (flag : UserSet) (x : Extdat)
    → ¬ IsRoot us user
    → sys_usr_set us user flag x
      ≡ (if is_none (get_usr_info us user) then CmdCode.rc_nousr else CmdCode.rc_noright, us)
unfolding sys_usr_set
usr_set-noright us user flag x h = elim (Option-cases (get_usr_info us user)) [
  | inl e ↦ rw e
  | inr (u, e) ↦ elim (Bool-cases (u.usr_auth == usr_root)) [
    | inl r ↦ absurd (h (u, e, ground arith))
    | inr r ↦ rw (e, r)
  ]
]

-- No user command deletes the entry named root, and none asked to do so changes the table.
pub root_kept :
    (us : Users) (user : List ℕ) (x : Extdat)
    → x.name0 ≡ codes "root"
    → (sys_usr_set us user UserSet.user_del x).1 ≡ us
unfolding sys_usr_set
root_kept us user x h = let e : str_eq x.name0 (codes "root") ≡ true = rw h in ground arith

-- Every user command keeps the number of entries.
pub length-usr_set :
    (us : Users) (user : List ℕ) (flag : UserSet) (x : Extdat)
    → length (sys_usr_set us user flag x).1 ≡ length us
unfolding sys_usr_set
length-usr_set us user flag x = ground (
  arith,
  length-add us x.name0 x.passwd0,
  length-del us x.name0,
  length-set_psw us x.name0 x.passwd1,
  length-set_name us x.name0 x.name1,
  length-set_psw (set_usr_name us x.name0 x.name1).1 x.name1 x.passwd1,
)

usr_set_add-Unique :
    (us : Users) (x : Extdat) → Unique us → x.name0 ≢ [] → Unique (usr_set_add us x).1
unfolding usr_set_add
usr_set_add-Unique us x v h = elim (Option-cases (get_usr_info us x.name0)) [
  | inl e ↦ rw e (add-Unique us x.name0 x.passwd0 h e v)
  | inr (u, e) ↦ rw e v
]

usr_set_del-Unique : (us : Users) (x : Extdat) → Unique us → Unique (usr_set_del us x).1
unfolding usr_set_del
usr_set_del-Unique us x v = elim (Bool-cases (is_none (get_usr_info us x.name0))) [
  | inl e ↦ rw e v
  | inr e ↦ elim (Bool-cases (str_eq x.name0 (codes "root"))) [
    | inl r ↦ rw (e, r) v
    | inr r ↦ rw (e, r) (del-Unique us x.name0 v)
  ]
]

abbrev is_modify : UserSet → Bool
is_modify UserSet.user_modify = true
is_modify _ = false

usr_set_flag-Unique :
    (flag : UserSet) (us : Users) (x : Extdat)
    → Unique us
    → x.name0 ≢ []
    → is_modify flag ≡ false
    → Unique (usr_set_flag flag us x).1
unfolding usr_set_flag
usr_set_flag-Unique UserSet.user_add us x v h f = usr_set_add-Unique us x v h
usr_set_flag-Unique UserSet.user_del us x v h f = usr_set_del-Unique us x v
usr_set_flag-Unique UserSet.user_modify us x v h f = cc
usr_set_flag-Unique UserSet.other us x v h f = v

-- Every user command but USER_MODIFY keeps names unique, if the name that it gives is not empty.
pub usr_set-Unique :
    (us : Users) (user : List ℕ) (flag : UserSet) (x : Extdat)
    → Unique us
    → x.name0 ≢ []
    → flag ≢ UserSet.user_modify
    → Unique (sys_usr_set us user flag x).1
unfolding sys_usr_set
usr_set-Unique us user flag x v h f = as_user (get_usr_info us user)
  where
    keeps : (g : UserSet) → g ≢ UserSet.user_modify → is_modify g ≡ false
    keeps UserSet.user_modify k = absurd (k refl)
    keeps UserSet.user_add k = refl
    keeps UserSet.user_del k = refl
    keeps UserSet.other k = refl

    as_user : (o : Option UsrInfo) → Unique (usr_set_as o flag us x).1
    as_user none = v
    as_user (some u) = elim (Bool-cases (u.usr_auth == usr_root)) [
      | inl r ↦ rw r (usr_set_flag-Unique flag us x v h (keeps flag f))
      | inr r ↦ rw r v
    ]

-- USER_MODIFY answers USR_MODIFY_OK to root even for a name that is not in the table.
pub modify_unknown_ok :
    (us : Users) (user : List ℕ) (x : Extdat)
    → IsRoot us user
    → get_usr_info us x.name0 ≡ none
    → (sys_usr_set us user UserSet.user_modify x).0 ≡ CmdCode.usr_modify_ok
unfolding sys_usr_set
modify_unknown_ok us user x r g = ground (arith, r.1, r.2)
