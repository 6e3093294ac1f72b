-- ===== src/Pages.antt =====
-- The CGI pages under web/src: the session of a browser, and what the settings pages have in common.
-- A page reads the session, queries a setting, changes it by the form if its button was clicked, and
-- sends it back; it shows what it has then.
pub mod Session
pub mod Outcome
pub mod Controls
pub mod Each
pub mod Texts
pub mod Decimal
pub mod Port
pub mod Mode
pub mod Network
pub mod Host
pub mod Server
pub mod Upgrade
pub mod Outputs
use itertk.Base.{
  ℕ, ◌+◌, ◌-◌, ◌*◌, ◌%◌, ◌^◌, Bool, true, false, Option, none, some, List, [], ◌∷◌, ◌++◌, ltb, leb,
  ◌==◌, ◌&&◌, ◌||◌, if◌then◌else◌, take, drop, length, u32, codes,
}
use itertk.Conf.Users.{CmdCode, code_number}
use itertk.Wire.{Step}
use itertk.Wire.Packet.{Layout, c_string}
use itertk.System.Address.{is_space, digits_from}
use itertk.Itslib.{Page, Result}

-- An `int`; `negsuc n` is -(n + 1).
pub data ℤ : Type 0 where
  pos : ℕ → ℤ
  negsuc : ℕ → ℤ

-- The calls of cgic that the pages make, for one submitted form: the text of a field with its capacity,
-- the index of a choice with its default, a number with its default, and whether a button or a box is
-- in the form; and the query string.
pub record Cgi : Type 0 where
  pub form_string : List ℕ → ℕ → List ℕ
  pub select_single : List ℕ → List (List ℕ) → ℕ → ℕ
  pub form_integer : List ℕ → ℕ → ℤ
  pub checkbox : List ℕ → Bool
  pub clicked : List ℕ → Bool
  pub query_string : List ℕ

-- `(DWORD)atoi(s)`
abbrev pub dword_sign : List ℕ → ℕ
dword_sign [] = 0
dword_sign (c ∷ s) =
    if c == b'-'
    then (2 ^ 32 - u32 (digits_from 0 s)) % 2 ^ 32
    else if c == b'+'
    then u32 (digits_from 0 s)
    else u32 (digits_from 0 (c ∷ s))

unfoldable pub atoi_dword : List ℕ → ℕ
unfolding digits_from
atoi_dword [] = 0
atoi_dword (c ∷ s) = let rest = atoi_dword s in if is_space c then rest else dword_sign (c ∷ s)

-- `session_read`: none if it does not return 1, else the string in `name`. The argument is the content
-- of the file for the browser's address, none if it cannot be opened.
unfoldable pub session_read : Option (List ℕ) → Option (List ℕ)
unfolding c_string
session_read none = none
session_read (some []) = none
session_read (some (c ∷ s)) = some (c_string (take 32 (c ∷ s)))

-- What a page tells the user: by which alert, and with which code or field.
pub data Alert : Type 0 where
  not_logged_in submitted : Alert
  query_failed submit_failed : ℕ → Alert
  bad_field : List ℕ → Alert

-- What comes of a run of a page: its alerts, the object that it shows (none where it shows no form), and
-- its transactions with the server.
pub record View (A : Type 0) : Type 0 where
  pub alerts : List Alert
  pub shown : Option A
  pub talks : List Result

-- How a form is read: a field is refused, or the object is changed by the form.
pub data Reading (A : Type 0) : Type 0 where
  refused : List ℕ → Reading A
  accepted : A → Reading A

-- What differs between the settings pages: the two transactions, the code of success, the layout of the
-- object, the object before the first query, and the one before a query after a failure (cleared).
pub record SettingsPage (A : Type 0) : Type 0 where
  pub query : Page → List ℕ → A → Step Result
  pub set : Page → A → Step Result
  pub set_ok : CmdCode
  pub layout : Layout A
  pub start : A
  pub cleared : A

-- What the transactions of one run meet: the first query, the setting, and the query after a failure.
pub record Runs : Type 0 where
  pub first : Page
  pub second : Page
  pub third : Page

-- `old` with the bytes over its first ones that a query has brought
unfoldable pub queried : {A : Type 0} → Layout A → A → Result → A
queried layout old r = layout.load (r.object ++ drop (length r.object) (layout.store old))

-- The page after a failure: the object is cleared and queried again, whatever comes of that.
unfoldable pub show_again :
    {A : Type 0} → SettingsPage A → Runs → List ℕ → Alert → List Result → Step (View A)
unfolding queried
show_again p runs name alert talks = elim (p.query runs.third name p.cleared) [
  | Step.pending ↦ Step.pending
  | Step.fault ↦ Step.fault
  | Step.done r ↦ Step.done (record {
    alerts = alert ∷ [];
    shown = some (queried p.layout p.cleared r);
    talks = talks ++ (r ∷ []);
  })
]

-- The object is sent to the server.
unfoldable pub submit_form :
    {A : Type 0} → SettingsPage A → Runs → List ℕ → A → List Result → Step (View A)
unfolding show_again code_number
submit_form p runs name object talks = elim (p.set runs.second object) [
  | Step.pending ↦ Step.pending
  | Step.fault ↦ Step.fault
  | Step.done r ↦
      if r.code == code_number p.set_ok
      then Step.done
          (record { alerts = Alert.submitted ∷ []; shown = some object; talks = talks ++ (r ∷ []) })
      else show_again p runs name (Alert.submit_failed r.code) (talks ++ (r ∷ []))
]

-- A form that was read.
unfoldable pub take_form :
    {A : Type 0} → SettingsPage A → Runs → List ℕ → Reading A → List Result → Step (View A)
unfolding submit_form show_again
take_form p runs name (Reading.refused field) talks =
    show_again p runs name (Alert.bad_field field) talks
take_form p runs name (Reading.accepted object) talks = submit_form p runs name object talks

-- `cgiMain` of a settings page, with how it reads its form (none if its button was not clicked).
unfoldable pub cgi_main :
    {A : Type 0}
    → SettingsPage A
    → Option (List ℕ)
    → Runs
    → (A → Option (Reading A))
    → Step (View A)
unfolding session_read queried take_form code_number
cgi_main p session runs read = elim (session_read session) [
  | none ↦ Step.done (record { alerts = Alert.not_logged_in ∷ []; shown = none; talks = [] })
  | some name ↦ elim (p.query runs.first name p.start) [
    | Step.pending ↦ Step.pending
    | Step.fault ↦ Step.fault
    | Step.done r ↦
        if r.code == code_number CmdCode.query_ok
        then elim (read (queried p.layout p.start r)) [
          | none ↦
              Step.done
                (record { alerts = []; shown = some (queried p.layout p.start r); talks = r ∷ [] })
          | some form ↦ take_form p runs name form (r ∷ [])
        ]
        else Step.done (record {
          alerts = Alert.query_failed r.code ∷ [];
          shown = some (queried p.layout p.start r);
          talks = r ∷ [];
        })
  ]
]

-- The form of a page whose button is `button`.
abbrev pub if_clicked : {A : Type 0} → Cgi → List ℕ → (A → Reading A) → A → Option (Reading A)
if_clicked cgi button read object = if cgi.clicked button then some (read object) else none
