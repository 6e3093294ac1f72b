-- ===== src/Pages/Session.antt =====
-- The login page web/src/mainFrame/mainFrame.c, and the session that it leaves for the other pages.
use itertk.Base.{
  ℕ, zero, suc, ◌≤◌, ◌≡◌, ◌≢◌, refl, ap, ◌∙◌, Bool, true, Option, none, some, List, [], ◌∷◌, ◌++◌,
  ◌==◌, if◌then◌else◌, arith, length, drop, codes, take-all, length-append, length-drop, ==-refl,
  ==-false,
}
use itertk.Conf.Users.{CmdCode, code_number}
use itertk.Wire.{Step}
use itertk.Wire.Packet.{c_string, NoNul}
use itertk.Itslib.{Page, Result}
use itertk.Itslib.Users.{user_login}
use itertk.Pages.{Cgi, session_read}

-- What the file of a browser's address holds: nothing if there is none.
abbrev pub session_file : Option (List ℕ) → List ℕ
session_file none = []
session_file (some s) = s

-- `session_save`: the file is created if there is none, and not cut off.
unfoldable pub session_save : Option (List ℕ) → List ℕ → List ℕ
session_save old name = name ++ drop (length name) (session_file old)

-- The login's end: refused with a code, ended because the session cannot be written, or the frames of the
-- user.
pub data Frame : Type 0 where
  denied : ℕ → Frame
  ended : Frame
  frames : List ℕ → Frame

-- `cgiMain` of the login page, and the session's file behind it; `writable` says whether it opens.
unfoldable pub main_frame : Page → Cgi → Bool → Option (List ℕ) → Step (Frame × Option (List ℕ))
unfolding session_save code_number
main_frame page cgi writable old =
    let name = cgi.form_string (codes "username") 32 in
    let passwd = cgi.form_string (codes "password") 32 in
    elim (user_login page name passwd) [
      | Step.pending ↦ Step.pending
      | Step.fault ↦ Step.fault
      | Step.done r ↦
          if r.code == code_number CmdCode.login_ok
          then (if writable
              then Step.done (Frame.frames name, some (session_save old name))
              else Step.done (Frame.ended, old))
          else Step.done (Frame.denied r.code, old)
    ]

c_string_whole : (s : List ℕ) → NoNul s → c_string s ≡ s
unfolding c_string
c_string_whole [] h = refl
c_string_whole (c ∷ s) h = rw (==-false c 0 h.0) (ap (λ l. c ∷ l) (c_string_whole s h.1))

NoNul-append : (s t : List ℕ) → NoNul s → NoNul t → NoNul (s ++ t)
NoNul-append [] t h g = g
NoNul-append (c ∷ s) t h g = (h.0, NoNul-append s t h.1 g)

NoNul-drop : (k : ℕ) (s : List ℕ) → NoNul s → NoNul (drop k s)
NoNul-drop zero s h = h
NoNul-drop (suc k) [] h = tt
NoNul-drop (suc k) (c ∷ s) h = NoNul-drop k s h.1

read_whole :
    (c : ℕ) (s : List ℕ)
    → NoNul (c ∷ s)
    → length (c ∷ s) ≤ 32
    → session_read (some (c ∷ s)) ≡ some (c ∷ s)
unfolding session_read
read_whole c s n h =
    ap (λ l. some (c_string l)) (take-all 32 (c ∷ s) h) ∙ ap some (c_string_whole (c ∷ s) n)

-- The session that a login leaves is read by the other pages as the user's name, followed by what a
-- longer name of an earlier login from the same address had in those places.
pub main_frame-session_read :
    (page : Page) (cgi : Cgi) (old : Option (List ℕ)) (c : ℕ) (s : List ℕ) (r : Result)
    → cgi.form_string (codes "username") 32 ≡ c ∷ s
    → user_login page (c ∷ s) (cgi.form_string (codes "password") 32) ≡ Step.done r
    → r.code ≡ code_number CmdCode.login_ok
    → NoNul (c ∷ s)
    → NoNul (session_file old)
    → length (c ∷ s) ≤ 32
    → length (session_file old) ≤ 32
    → (file : Option (List ℕ)) × (main_frame page cgi true old
        ≡ Step.done (Frame.frames (c ∷ s), file))
      × (session_read file ≡ some ((c ∷ s) ++ drop (length (c ∷ s)) (session_file old)))
unfolding main_frame
main_frame-session_read page cgi old c s r n l k nn clean h1 h2 =
    let ok : (r.code == code_number CmdCode.login_ok) ≡ true =
      rw k (==-refl (code_number CmdCode.login_ok)) in
    let rest = drop (length (c ∷ s)) (session_file old) in
    (
      some (session_save old (c ∷ s)),
      rw (n, l, ok, main_frame) (ap (λ m. Step.done (Frame.frames m, some (session_save old m))) n),
      read_whole c (s ++ rest)
          (NoNul-append (c ∷ s) rest nn (NoNul-drop (length (c ∷ s)) (session_file old) clean))
          (omega (
            arith,
            h1,
            h2,
            length-append (c ∷ s) rest,
            length-drop (length (c ∷ s)) (session_file old),
          )),
    )

-- A login that the server does not grant leaves the session as it was, and shows the code.
pub main_frame-denied :
    (page : Page) (cgi : Cgi) (writable : Bool) (old : Option (List ℕ)) (r : Result)
    → user_login page
        (cgi.form_string (codes "username") 32)
        (cgi.form_string (codes "password") 32)
      ≡ Step.done r
    → r.code ≢ code_number CmdCode.login_ok
    → main_frame page cgi writable old ≡ Step.done (Frame.denied r.code, old)
unfolding main_frame
main_frame-denied page cgi writable old r l k =
    rw (l, ==-false r.code (code_number CmdCode.login_ok) k, main_frame) refl
