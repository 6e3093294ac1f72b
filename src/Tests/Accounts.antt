-- ===== src/Tests/Accounts.antt =====
-- Users, their commands and the defaults.
use itertk.Base.{ℕ, ◌≡◌, refl, List, [], ◌∷◌, Option, none, some, arith, codes, get_or, ap, ◌∙◌}
use itertk.Conf.{UsrInfo}
use itertk.Conf.Users.{Users, UserSet, Extdat, get_usr_info, sys_usr_set}
use itertk.Conf.Users.Accounts.{Unique}
use itertk.Conf.Users.Rights.{IsRoot, usr_set-Unique}

abbrev account : ℕ → List ℕ → List ℕ → ℕ → UsrInfo
account id name psw auth = record {
  usr_id = id;
  usr_name = name;
  usr_passwd = psw;
  usr_auth = auth;
}

-- root, one user, and a free entry
abbrev table : Users
table =
    account 1 (codes "root") (codes "r") 1
    ∷ account 2 (codes "ann") (codes "a") 0
    ∷ account 3 [] [] 0
    ∷ []

abbrev of_bob : Extdat
of_bob = record {
  name0 = codes "bob";
  passwd0 = codes "b";
  name1 = codes "rob";
  passwd1 = codes "b";
}

abbrev first_byte : List ℕ → ℕ
first_byte l = get_or l 0 0

abbrev authority : Option UsrInfo → ℕ
authority none = 0
authority (some u) = u.usr_auth

table-Unique : Unique table
unfolding get_usr_info
table-Unique = ((λ h. refl), ((λ h. refl), ((λ h. refl), tt)))

ann_unprivileged : ¬ IsRoot table (codes "ann")
unfolding get_usr_info
ann_unprivileged (u, e, r) = let h : 0 ≡ 1 = ap authority e ∙ r in omega (arith, h)

usr_set-Unique_example : Unique (sys_usr_set table (codes "root") UserSet.user_add of_bob).1
usr_set-Unique_example =
    usr_set-Unique table (codes "root") UserSet.user_add of_bob table-Unique (λ e. cc) (λ e. cc)
