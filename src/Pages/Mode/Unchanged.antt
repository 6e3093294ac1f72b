-- ===== src/Pages/Mode/Unchanged.antt =====
-- The mode page, sent back as it is shown.
use itertk.Base.{ℕ, ◌<◌, ◌^◌, ◌≡◌, refl, ap, ◌∙◌, some, Option, List, [], ◌∷◌, arith, u8, codes}
use itertk.Conf.{ConfigMode, ConfigSession}
use itertk.System.Address.{sys_ip2str_static}
use itertk.System.Address.Roundtrip.{str2ip-ip2str}
use itertk.Pages.{Cgi}
use itertk.Pages.Controls.{sent_value, unchanged, choice_of, Reads}
use itertk.Pages.Decimal.{print_int, print_int-Shown}
use itertk.Pages.Texts.{ip2str-Line}
use itertk.Pages.Each.{each_same}
use itertk.Pages.Mode.{
  wmode_texts, dmode_texts, ptl_texts, by_index, field_of, show_mode, get_session, get_sessions,
  read_mode,
}

-- Values that the page can show.
pub record SessionFits (s : ConfigSession) : Type 0 where
  pub protocol : s.protocol < 4
  pub ip : s.ip < 2 ^ 32
  pub lport : s.lport < 2 ^ 31
  pub dport : s.dport < 2 ^ 31

abbrev pub AllFit : List ConfigSession → Type 0
AllFit [] = Unit
AllFit (s ∷ ss) = SessionFits s × AllFit ss

abbrev index_back : List (List ℕ) → ℕ → ℕ
index_back ts n = choice_of (sent_value (by_index ts n)) ts 0

ptl-back : (n : ℕ) → n < 4 → index_back ptl_texts n ≡ n
ptl-back n h = each_same (index_back ptl_texts) (0 ∷ 1 ∷ 2 ∷ 3 ∷ []) n (ground arith) refl

wmode-back : (n : ℕ) → n < 2 → u8 (index_back wmode_texts n) ≡ n
wmode-back n h = each_same (λ k. u8 (index_back wmode_texts k)) (0 ∷ 1 ∷ []) n (ground arith) refl

dmode-back : (n : ℕ) → n < 2 → u8 (index_back dmode_texts n) ≡ n
dmode-back n h = each_same (λ k. u8 (index_back dmode_texts k)) (0 ∷ 1 ∷ []) n (ground arith) refl

-- The four fields of a session in the form.
record Fields (form : List ℕ → Option (List ℕ)) (id : ℕ) (s : ConfigSession) : Type 0 where
  ptl : form (field_of (codes "ptl") id) ≡ sent_value (by_index ptl_texts s.protocol)
  ip : form (field_of (codes "ip") id) ≡ some (sys_ip2str_static s.ip)
  lport : form (field_of (codes "lport") id) ≡ some (print_int s.lport)
  dport : form (field_of (codes "dport") id) ≡ some (print_int s.dport)

get_session-Fields :
    (cgi : Cgi) (form : List ℕ → Option (List ℕ)) (id : ℕ) (s : ConfigSession)
    → Reads cgi form
    → Fields form id s
    → SessionFits s
    → get_session cgi id s ≡ s
unfolding get_session
get_session-Fields cgi form id s r f h =
    let line = ip2str-Line s.ip in
    let l = print_int-Shown s.lport h.lport in
    let d = print_int-Shown s.dport h.dport in
    let ptl : cgi.select_single (field_of (codes "ptl") id) ptl_texts 0 ≡ s.protocol =
      r.select (field_of (codes "ptl") id) ptl_texts 0
      ∙ ap (λ v. choice_of v ptl_texts 0) f.ptl
      ∙ ptl-back s.protocol h.protocol in
    rw
      (
        ptl,
        r.string (field_of (codes "ip") id) (sys_ip2str_static s.ip) 30 f.ip line.plain
            (omega (arith, line.short)),
        r.string (field_of (codes "lport") id) (print_int s.lport) 30 f.lport l.plain
            (omega (arith, l.short)),
        r.string (field_of (codes "dport") id) (print_int s.dport) 30 f.dport d.plain
            (omega (arith, d.short)),
        str2ip-ip2str s.ip h.ip,
        l.back,
        d.back,
      )
      refl

-- A form that is sent back as it is shown changes nothing.
pub read_mode-show_mode :
    (cgi : Cgi) (m : ConfigMode) (s0 s1 s2 s3 s4 s5 : ConfigSession)
    → let con_mode = record m { session = s0 ∷ s1 ∷ s2 ∷ s3 ∷ s4 ∷ s5 ∷ [] } in
      Reads cgi (unchanged (show_mode con_mode))
      → m.mode < 2
      → m.tcp_mode < 2
      → AllFit (s0 ∷ s1 ∷ s2 ∷ s3 ∷ s4 ∷ s5 ∷ [])
      → let con_mode = record m { session = s0 ∷ s1 ∷ s2 ∷ s3 ∷ s4 ∷ s5 ∷ [] } in
        read_mode cgi con_mode ≡ con_mode
unfolding read_mode show_mode get_sessions
read_mode-show_mode cgi m s0 s1 s2 s3 s4 s5 r w d (h0, (h1, (h2, (h3, (h4, (h5, _)))))) =
    let form = unchanged (show_mode (record m { session = s0 ∷ s1 ∷ s2 ∷ s3 ∷ s4 ∷ s5 ∷ [] })) in
    let back : (id : ℕ) (s : ConfigSession)
        → Fields form id s
        → SessionFits s
        → get_session cgi id s ≡ s =
      λ id s f h. get_session-Fields cgi form id s r f h in
    rw
      (
        r.select (codes "workmode") wmode_texts 0,
        r.select (codes "datamode") dmode_texts 0,
        wmode-back m.mode w,
        dmode-back m.tcp_mode d,
        back 0 s0 (record { ptl = refl; ip = refl; lport = refl; dport = refl }) h0,
        back 1 s1 (record { ptl = refl; ip = refl; lport = refl; dport = refl }) h1,
        back 2 s2 (record { ptl = refl; ip = refl; lport = refl; dport = refl }) h2,
        back 3 s3 (record { ptl = refl; ip = refl; lport = refl; dport = refl }) h3,
        back 4 s4 (record { ptl = refl; ip = refl; lport = refl; dport = refl }) h4,
        back 5 s5 (record { ptl = refl; ip = refl; lport = refl; dport = refl }) h5,
      )
      refl
