-- ===== src/Tests/Packets/Login.antt =====
-- A login through a page.
use itertk.Base.{
  ℕ, ◌≡◌, refl, Bool, Bool-cases, inl, inr, ◌==◌, if◌then◌else◌, true, false, some, List, [], ◌∷◌,
  ◌++◌, arith, replicate, codes,
}
use itertk.Conf.Users.{CmdCode, code_number, sys_usr_login}
use itertk.Conf.Defaults.{config_makedefault}
use itertk.Wire.{Step, Poll}
use itertk.Wire.Packet.{Itsip, ItsCmd, its_ack, its_id, itsip_pack, NoNul}
use itertk.Web.{Web, result_head}
use itertk.Web.Command.{web_svr_proc}
use itertk.Itslib.{Page, Dial, Result, put_string, packed, with_user}
use itertk.Itslib.Users.{with_password, user_login}
use itertk.Itslib.Login.{Answers, user_login_verdict}
use itertk.Tests.{demo_conf}
use itertk.Tests.Wires.{burst, burst-Serves, demo_conn}
use itertk.Tests.Packets.{head_layout, demo_abi, demo_head, demo_board, demo_web}

abbrev pub no_nul : List ℕ → Bool
no_nul [] = true
no_nul (b ∷ bs) = if b == 0 then false else no_nul bs

pub no_nul-NoNul : (s : List ℕ) → no_nul s ≡ true → NoNul s
no_nul-NoNul [] h = tt
no_nul-NoNul (b ∷ s) h = elim (Bool-cases (b == 0)) [
  | inl zero_byte ↦ absurd (let f : false ≡ true = rw zero_byte at h in cc)
  | inr other ↦ (
    (λ e.
        absurd (let f : (b == 0) ≡ true = rw e refl in let g : true ≡ false = rw f at other in cc)),
    no_nul-NoNul s (rw other at h),
  )
]

-- root logs in with the default password, and the answer says LOGIN_OK
abbrev login_head : Itsip
login_head =
    let h = demo_head 0xa0 in
    record h {
      itsip_user = codes "root" ++ replicate 20 0;
      itsip_data = codes "NC616123456" ++ replicate 13 0;
    }

abbrev login_answer : List ℕ
unfolding result_head its_ack its_id itsip_pack code_number
login_answer =
    head_layout.store (result_head ItsCmd.login 0 (code_number CmdCode.login_ok) (demo_head 0))

abbrev demo_page : Page
demo_page = record {
  abi = demo_abi;
  memory = λ k. 0;
  crypt = λ psw. codes "NC616" ++ psw;
  dial = Dial.connected 4 login_answer (burst 56 ∷ (0, Poll.moved 56 0 0 ∷ []) ∷ []);
  uninit = demo_head 0;
}

page-Answers : Answers demo_page login_head login_answer
unfolding login_answer
page-Answers = record {
  fd = 4;
  fd_pos = omega arith;
  first = burst 56;
  second = (0, Poll.moved 56 0 0 ∷ []);
  later = [];
  dial = refl;
  head_pos = omega arith;
  takes_head = burst-Serves 56;
  answer_size = refl;
  room = 56;
  sent_at = 0;
  seen_at = 0;
  others = [];
  turn = refl;
  whole = omega arith;
}

abbrev login_web : Web
login_web =
    let w = demo_web [] in
    record w { conn = demo_conn (head_layout.store login_head) (burst 56 ∷ burst 56 ∷ []) }

login_fits :
    with_password (codes "NC616123456") (with_user (codes "root") (packed demo_page ItsCmd.login 0))
    ≡ some login_head
unfolding put_string itsip_pack its_id
login_fits = refl

login_code : code_number (sys_usr_login demo_conf.con_usr (codes "root") (codes "NC616123456")) ≡ 4
unfolding sys_usr_login code_number config_makedefault
login_code = refl

login_answer_is :
    login_answer
    ≡ head_layout.store (
        result_head ItsCmd.login 0
          (code_number (sys_usr_login demo_conf.con_usr (codes "root") (codes "NC616123456")))
          (demo_head 0))
unfolding result_head its_ack its_id itsip_pack code_number login_answer
login_answer_is = rw login_code refl

login_answer_load :
    head_layout.load login_answer
    ≡ result_head ItsCmd.login 0
        (code_number (sys_usr_login demo_conf.con_usr (codes "root") (codes "NC616123456")))
        (demo_head 0)
unfolding result_head its_ack its_id itsip_pack code_number login_answer
login_answer_load = rw login_code refl

user_login_verdict_example :
    (w' : Web) × (r : Result) × (web_svr_proc demo_board login_web ≡ Step.done (tt, w'))
    × (w'.conn.outbox ≡ login_answer)
    × (w'.client ≡ login_web.client)
    × (user_login demo_page (codes "root") (codes "123456") ≡ Step.done r)
    × (r.code
        ≡ code_number
            (sys_usr_login login_web.client.conf.con_usr (codes "root") (codes "NC616123456")))
unfolding login_answer
user_login_verdict_example =
    user_login_verdict demo_page demo_board login_web (codes "root") (codes "123456") login_head
      login_answer (burst 56) (burst 56) [] (no_nul-NoNul (codes "root") refl)
      (no_nul-NoNul (codes "NC616123456") refl) login_fits login_answer_is page-Answers refl refl
      refl refl refl login_answer_load refl (burst-Serves 56) (burst-Serves 56) (omega arith)
