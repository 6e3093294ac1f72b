-- ===== src/Conf/Users/Accounts.antt =====
-- Adding, deleting and finding accounts.
use itertk.Base.{
  ℕ, ◌≡◌, refl, ◌∙◌, ◌≢◌, inl, inr, true, false, none, some, List, [], ◌∷◌, arith, if◌then◌else◌,
  str_eq, str_eq_refl, str_eq→eq, length, Bool-cases,
}
use itertk.Conf.Users.{
  CmdCode, Users, get_usr_info, is_free, sys_usr_add, sys_usr_del, set_usr_name, set_usr_psw,
  sys_usr_login,
}

str_eq-ne : (s t : List ℕ) → s ≢ t → str_eq s t ≡ false
str_eq-ne s t h = elim (Bool-cases (str_eq s t)) [
  | inl e ↦ absurd (h (str_eq→eq s t e))
  | inr e ↦ e
]

str_eq_nil : (s : List ℕ) → str_eq [] s ≡ is_free s
str_eq_nil [] = refl
str_eq_nil (c ∷ s) = refl

str_eq_comm : (s t : List ℕ) → str_eq s t ≡ str_eq t s
str_eq_comm [] [] = refl
str_eq_comm [] (b ∷ t) = refl
str_eq_comm (a ∷ s) [] = refl
str_eq_comm (a ∷ s) (b ∷ t) = ground (arith, str_eq_comm s t)

not_free : (s : List ℕ) → s ≢ [] → is_free s ≡ false
not_free [] h = absurd (h refl)
not_free (c ∷ s) h = refl

ne_nil : (s : List ℕ) → is_free s ≡ false → s ≢ []
ne_nil s f e = let g : is_free s ≡ true = rw e in cc

ne_of_str_eq : (s t : List ℕ) → str_eq s t ≡ false → t ≢ s
ne_of_str_eq s t f e = let g : str_eq s t ≡ true = rw e (str_eq_refl s) in cc

-- No two accounts in use have one name.
abbrev pub Unique : Users → Type 0
Unique [] = Unit
Unique (u ∷ us) = (is_free u.usr_name ≡ false → get_usr_info us u.usr_name ≡ none) × Unique us

-- A login succeeds exactly with the password of the entry that the name finds; the other codes tell
-- an unknown name from a wrong password.
pub login_lem :
    (us : Users) (name psw : List ℕ)
    → sys_usr_login us name psw ≡ elim (get_usr_info us name) [
      | none ↦ CmdCode.no_user
      | some u ↦ if str_eq psw u.usr_passwd then CmdCode.login_ok else CmdCode.error_psw
    ]
unfolding sys_usr_login get_usr_info
login_lem [] name psw = refl
login_lem (u ∷ us) name psw = ground (arith, login_lem us name psw)

-- An account that was added with success, under a name that is new and not empty, logs in with its
-- password.
pub login-add :
    (us : Users) (name psw : List ℕ)
    → name ≢ []
    → get_usr_info us name ≡ none
    → (sys_usr_add us name psw).0 ≡ CmdCode.usr_add_ok
    → sys_usr_login (sys_usr_add us name psw).1 name psw ≡ CmdCode.login_ok
unfolding sys_usr_add sys_usr_login get_usr_info
login-add [] name psw h g a = cc
login-add (u ∷ us) name psw h g a =
    ground (arith, login-add us name psw h, str_eq_refl name, str_eq_refl psw)

-- `sys_usr_add` fails exactly when no entry is free, and then leaves the table as it was.
pub add-failed :
    (us : Users) (name psw : List ℕ)
    → get_usr_info us [] ≡ none
    → sys_usr_add us name psw ≡ (CmdCode.usr_add_failed, us)
unfolding sys_usr_add get_usr_info
add-failed [] name psw g = refl
add-failed (u ∷ us) name psw g = ground (arith, add-failed us name psw, str_eq_nil u.usr_name)

-- Adding an account changes what no other name finds.
pub get_usr_info-add :
    (us : Users) (name psw other : List ℕ)
    → other ≢ []
    → other ≢ name
    → get_usr_info (sys_usr_add us name psw).1 other ≡ get_usr_info us other
unfolding sys_usr_add get_usr_info
get_usr_info-add [] name psw other h n = refl
get_usr_info-add (u ∷ us) name psw other h n = elim (Bool-cases (is_free u.usr_name)) [
  | inl f ↦ ground (arith, str_eq-ne other name n, free-other u.usr_name f)
  | inr f ↦ ground (arith, get_usr_info-add us name psw other h n)
]
  where
    free-other : (s : List ℕ) → is_free s ≡ true → str_eq other s ≡ false
    free-other [] f = str_eq-ne other [] h
    free-other (c ∷ s) f = cc

-- Deleting an account changes what no other name finds.
pub get_usr_info-del_other :
    (us : Users) (name other : List ℕ)
    → other ≢ []
    → other ≢ name
    → get_usr_info (sys_usr_del us name).1 other ≡ get_usr_info us other
unfolding sys_usr_del get_usr_info
get_usr_info-del_other [] name other h n = refl
get_usr_info-del_other (u ∷ us) name other h n = elim (Bool-cases (str_eq name u.usr_name)) [
  | inl e ↦
      let same : name ≡ u.usr_name = str_eq→eq name u.usr_name e in
      let f : str_eq other u.usr_name ≡ false = rw (← same) (str_eq-ne other name n) in
      rw (e, f, str_eq-ne other [] h)
  | inr e ↦ ground (arith, get_usr_info-del_other us name other h n)
]

-- A deleted name that is not empty is found no more, if names were unique.
pub get_usr_info-del :
    (us : Users) (name : List ℕ)
    → name ≢ []
    → Unique us
    → get_usr_info (sys_usr_del us name).1 name ≡ none
unfolding sys_usr_del get_usr_info
get_usr_info-del [] name h v = refl
get_usr_info-del (u ∷ us) name h v = elim (Bool-cases (str_eq name u.usr_name)) [
  | inl e ↦
      let same : name ≡ u.usr_name = str_eq→eq name u.usr_name e in
      let gone : get_usr_info us name ≡ none = rw same (v.0 (rw (← same) (not_free name h))) in
      rw (e, str_eq-ne name [] h) gone
  | inr e ↦ ground (arith, get_usr_info-del us name h v.1)
]

-- Adding an account under a new name keeps names unique.
pub add-Unique :
    (us : Users) (name psw : List ℕ)
    → name ≢ []
    → get_usr_info us name ≡ none
    → Unique us
    → Unique (sys_usr_add us name psw).1
unfolding sys_usr_add get_usr_info
add-Unique [] name psw h g v = tt
add-Unique (u ∷ us) name psw h g v = elim (Bool-cases (str_eq name u.usr_name)) [
  | inl e ↦ ground arith
  | inr e ↦
      let rest : get_usr_info us name ≡ none = ground arith in
      elim (Bool-cases (is_free u.usr_name)) [
        | inl f ↦ rw f ((λ _. rest), v.1)
        | inr f ↦ rw f (
          (λ _.
              get_usr_info-add us name psw u.usr_name (ne_nil u.usr_name f)
                (ne_of_str_eq name u.usr_name e)
              ∙ v.0 f),
          add-Unique us name psw h rest v.1,
        )
      ]
]

-- Deleting an account keeps names unique.
pub del-Unique : (us : Users) (name : List ℕ) → Unique us → Unique (sys_usr_del us name).1
unfolding sys_usr_del get_usr_info
del-Unique [] name v = tt
del-Unique (u ∷ us) name v = elim (Bool-cases (str_eq name u.usr_name)) [
  | inl e ↦ rw e ((λ h. cc), v.1)
  | inr e ↦ rw e (
    (λ f.
        get_usr_info-del_other us name u.usr_name (ne_nil u.usr_name f)
          (ne_of_str_eq name u.usr_name e)
        ∙ v.0 f),
    del-Unique us name v.1,
  )
]

pub length-add : (us : Users) (name psw : List ℕ) → length (sys_usr_add us name psw).1 ≡ length us
unfolding sys_usr_add
length-add [] name psw = refl
length-add (u ∷ us) name psw = ground (arith, length-add us name psw)

pub length-del : (us : Users) (name : List ℕ) → length (sys_usr_del us name).1 ≡ length us
unfolding sys_usr_del
length-del [] name = refl
length-del (u ∷ us) name = ground (arith, length-del us name)

pub length-set_name :
    (us : Users) (oname nname : List ℕ) → length (set_usr_name us oname nname).1 ≡ length us
unfolding set_usr_name
length-set_name [] oname nname = refl
length-set_name (u ∷ us) oname nname = ground (arith, length-set_name us oname nname)

pub length-set_psw :
    (us : Users) (name psw : List ℕ) → length (set_usr_psw us name psw).1 ≡ length us
unfolding set_usr_psw
length-set_psw [] name psw = refl
length-set_psw (u ∷ us) name psw = ground (arith, length-set_psw us name psw)
