-- ===== src/Pages/Port/Unchanged.antt =====
-- The port page, sent back as it is shown, or with its query failing.
use itertk.Base.{
  ℕ, ◌+◌, ◌<◌, ◌≡◌, refl, ap, ◌∙◌, true, Option, some, List, [], ◌∷◌, ◌==◌, ◌&&◌, leb, arith, u8,
  codes, get_or,
}
use itertk.Conf.{ConfigCom}
use itertk.Com.Line.{is_good_uart-Good}
use itertk.Client.Uart.{is_good_bps, is_good_uart}
use itertk.Conf.Users.{CmdCode, code_number}
use itertk.Wire.{Step}
use itertk.Itslib.{Result}
use itertk.Itslib.Ports.{its_conf_com_query}
use itertk.Pages.{queried, Cgi, Runs, Reading, atoi_dword, session_read, submit_form, if_clicked}
use itertk.Pages.Each.{among, each_same}
use itertk.Pages.Outcome.{cgi_main-accepted}
use itertk.Pages.Controls.{Control, options, sent_value, unchanged, choice_of, Reads}
use itertk.Pages.Port.{
  bps_texts, dbit_texts, chk_texts, sbit_texts, type_texts, yes_no_texts, numbers, indices,
  show_com, read_com, zero_com, com_page, com_main,
}

-- What a choice of numbers reads back.
abbrev number_back : List (List ℕ) → ℕ → ℕ
number_back ts n = atoi_dword (get_or ts (choice_of (sent_value (numbers ts n)) ts 0) [])

abbrev rates : List ℕ
rates =
    300 ∷ 600 ∷ 1200 ∷ 2400 ∷ 4800 ∷ 9600 ∷ 19200 ∷ 38400 ∷ 57600 ∷ 115200 ∷ 230400 ∷ 460800
    ∷ 576000 ∷ 921600 ∷ []

is_good_bps-among : (n : ℕ) → is_good_bps n ≡ true → among rates n ≡ true
unfolding is_good_bps
is_good_bps-among n h = ground arith

bps-back : (n : ℕ) → is_good_bps n ≡ true → number_back bps_texts n ≡ n
unfolding atoi_dword
bps-back n h = each_same (number_back bps_texts) rates n (is_good_bps-among n h) refl

dbit-back : (n : ℕ) → (leb 5 n && leb n 8) ≡ true → u8 (number_back dbit_texts n) ≡ n
unfolding atoi_dword
dbit-back n h =
    each_same (λ k. u8 (number_back dbit_texts k)) (5 ∷ 6 ∷ 7 ∷ 8 ∷ []) n (ground arith) refl

sbit-back : (n : ℕ) → (leb 1 n && leb n 2) ≡ true → number_back sbit_texts n ≡ n
unfolding atoi_dword
sbit-back n h = each_same (number_back sbit_texts) (1 ∷ 2 ∷ []) n (ground arith) refl

abbrev chk_back : ℕ → ℕ
chk_back n =
    u8 (
      choice_of (sent_value (Control.choice (options (λ i. i + 1 == n) chk_texts))) chk_texts 0 + 1)

chk-back : (n : ℕ) → (leb 1 n && leb n 3) ≡ true → chk_back n ≡ n
chk-back n h = each_same chk_back (1 ∷ 2 ∷ 3 ∷ []) n (ground arith) refl

abbrev index_back : List (List ℕ) → ℕ → ℕ
index_back ts n = u8 (choice_of (sent_value (indices ts n)) ts 0)

type-back : (n : ℕ) → n < 2 → index_back type_texts n ≡ n
type-back n h = each_same (index_back type_texts) (0 ∷ 1 ∷ []) n (ground arith) refl

loop-back : (n : ℕ) → n < 2 → index_back yes_no_texts n ≡ n
loop-back n h = each_same (index_back yes_no_texts) (0 ∷ 1 ∷ []) n (ground arith) refl

-- A form that is sent back as it is shown changes nothing but the mark for all ports.
pub read_com-show_com :
    (cgi : Cgi) (con_com : ConfigCom)
    → Reads cgi (unchanged (show_com con_com))
    → is_good_uart con_com ≡ true
    → con_com.type < 2
    → con_com.isloop < 2
    → read_com cgi con_com ≡ record con_com { all = 0 }
unfolding read_com show_com
read_com-show_com cgi con_com r h t l =
    let g = is_good_uart-Good con_com h in
    let select = r.select in
    rw
      (
        select (codes "bps") bps_texts 0,
        select (codes "dbit") dbit_texts 0,
        select (codes "chk") chk_texts 0,
        select (codes "sbit") sbit_texts 0,
        select (codes "type") type_texts 0,
        select (codes "loop") yes_no_texts 0,
        r.checked (codes "checkbox"),
        bps-back con_com.bps g.bps,
        dbit-back con_com.dbit g.dbit,
        chk-back con_com.chk g.chk,
        sbit-back con_com.sbit g.sbit,
        type-back con_com.type t,
        loop-back con_com.isloop l,
      )
      refl

-- A port page whose button is clicked in the form as the page shows it, where the query brought good
-- settings, sends these settings back with the mark for all ports off, and goes by the answer.
pub com_main-unchanged :
    (session : Option (List ℕ)) (runs : Runs) (cgi : Cgi) (name : List ℕ) (r : Result)
    (con_com : ConfigCom)
    → session_read session ≡ some name
    → its_conf_com_query runs.first name (record zero_com { id = atoi_dword cgi.query_string })
      ≡ Step.done r
    → r.code ≡ code_number CmdCode.query_ok
    → queried runs.first.abi.port (record zero_com { id = atoi_dword cgi.query_string }) r ≡ con_com
    → cgi.clicked (codes "com") ≡ true
    → Reads cgi (unchanged (show_com con_com))
    → is_good_uart con_com ≡ true
    → con_com.type < 2
    → con_com.isloop < 2
    → com_main session runs cgi
      ≡ submit_form (com_page runs.first cgi) runs name (record con_com { all = 0 }) (r ∷ [])
unfolding com_main com_page
com_main-unchanged session runs cgi name r con_com s q c o k reads good t l =
    cgi_main-accepted (com_page runs.first cgi) session runs
      (if_clicked cgi (codes "com") (λ c. Reading.accepted (read_com cgi c))) name r
      (record con_com { all = 0 }) s q c
      (rw k (
        ap (λ c. some (Reading.accepted (read_com cgi c))) o
        ∙ ap (λ c. some (Reading.accepted c)) (read_com-show_com cgi con_com reads good t l)))
