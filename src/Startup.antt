-- ===== src/Startup.antt =====
-- What holds before the first command: the configurations that nc600-2.0/src/config.c makes, seen from
-- the components that work on them.
use itertk.Base.{
  ℕ, zero, suc, ◌+◌, ◌≤◌, ◌≡◌, ◌≢◌, refl, ◌∙◌, true, false, none, List, [], ◌∷◌, arith, ltb, ◌==◌,
  if◌then◌else◌, codes, length, get_or, get_or-set_self, get_or-set_ne, length-set, str_eq_refl,
  Bool-cases, inl, inr,
}
use itertk.Conf.{ConfiData}
use itertk.Conf.Defaults.{Build, config_makedefault, reconfig, default_usrs, set_on_off}
use itertk.Conf.Users.{CmdCode, get_usr_info, sys_usr_login}
use itertk.Conf.Users.Accounts.{Unique}
use itertk.Conf.Users.Rights.{IsRoot}
use itertk.Client.Sensors.Answers.{SensorsFit}

free-Unique : (i n : ℕ) → Unique (default_usrs i n)
unfolding default_usrs
free-Unique i zero = tt
free-Unique i (suc n) = ((λ h. absurd cc), free-Unique (i + 1) n)

root-alone : (name : List ℕ) (i n : ℕ) → name ≢ [] → get_usr_info (default_usrs i n) name ≡ none
unfolding default_usrs get_usr_info
root-alone name i zero h = refl
root-alone [] i (suc n) h = absurd (h refl)
root-alone (c ∷ name) i (suc n) h = root-alone (c ∷ name) (i + 1) n h

-- The default configuration meets what the handlers of the alarm client rely on, has unique names, and
-- lets root in, with root's authority, under the encrypted default password.
pub defaults_valid :
    (b : Build)
    → SensorsFit (config_makedefault b)
      × (length (config_makedefault b).con_com ≡ 2)
      × (length (config_makedefault b).con_usr ≡ 16)
      × Unique (config_makedefault b).con_usr
      × IsRoot (config_makedefault b).con_usr (codes "root")
      × (sys_usr_login
            (config_makedefault b).con_usr
            (codes "root")
            (b.crypt (codes "123456") (codes "NC616"))
          ≡ CmdCode.login_ok)
unfolding config_makedefault get_usr_info sys_usr_login default_usrs
defaults_valid b = (
  record {
    uart = record { num_le = omega arith; seq_len = refl; attr_len = refl };
    io_in = record { num_le = omega arith; seq_len = refl; attr_len = refl };
    io_out = record { num_le = omega arith; seq_len = refl; attr_len = refl };
    single_bus = record { num_le = omega arith; seq_len = refl; attr_len = refl };
  },
  refl,
  refl,
  ((λ h. root-alone (codes "root") 1 15 (λ e. cc)), free-Unique 1 15),
  (
    record {
      usr_id = 1;
      usr_name = codes "root";
      usr_passwd = b.crypt (codes "123456") (codes "NC616");
      usr_auth = 1;
    },
    refl,
    refl,
  ),
  rw (str_eq_refl (b.crypt (codes "123456") (codes "NC616"))) refl,
)

length-set_on_off : (n : ℕ) (chars : List ℕ) → length (set_on_off n chars) ≡ length chars
unfolding set_on_off
length-set_on_off zero chars = refl
length-set_on_off (suc n) chars = length-set (set_on_off n chars) n 1 ∙ length-set_on_off n chars

-- The bytes that set_on_off writes.
set_on_off-get :
    (n k : ℕ) (chars : List ℕ)
    → n ≤ length chars
    → get_or (set_on_off n chars) k 0 ≡ (if ltb k n then 1 else get_or chars k 0)
unfolding set_on_off
set_on_off-get zero k chars h = let e : ltb k 0 ≡ false = ground arith in rw e refl
set_on_off-get (suc n) k chars h = elim (Bool-cases (k == n)) [
  | inl e ↦
      let same : k ≡ n = ground arith in
      let y : ltb n (suc n) ≡ true = ground arith in
      rw (same, y)
        (get_or-set_self (set_on_off n chars) n 1 0 (omega (arith, length-set_on_off n chars)))
  | inr e ↦
      let other : n ≢ k = ground arith in
      let y : ltb k (suc n) ≡ ltb k n = ground arith in
      rw y
        (get_or-set_ne (set_on_off n chars) n k 1 0 other ∙ set_on_off-get n k chars (omega arith))
]

-- `reconfig` sets eight bytes from the start of `alarm_on_off` on, an array of three: it overwrites
-- all four outputs (bytes 3 to 6) and the first character of the sensor text (byte 7) with 1, and
-- keeps the rest of the text.
pub reconfig_overwrites :
    (conf : ConfiData) (k : ℕ)
    → length conf.con_gpio.chars ≡ 37
    → get_or (reconfig conf).con_gpio.chars k 0
      ≡ (if ltb k 8 then 1 else get_or conf.con_gpio.chars k 0)
unfolding reconfig
reconfig_overwrites conf k h = set_on_off-get 8 k conf.con_gpio.chars (omega arith)
