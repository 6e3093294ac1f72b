-- ===== src/Pages/Outcome.antt =====
-- What the alert of a settings page says about its transactions.
use itertk.Base.{
  ℕ, ◌≡◌, ◌⊎◌, refl, sym, ap, ◌∙◌, true, Option, some, List, [], ◌∷◌, ◌++◌, ◌==◌, Bool-cases,
  Option-cases, inl, inr, ==→eq, ==-refl,
}
use itertk.Conf.Users.{CmdCode, code_number}
use itertk.Wire.{Step}
use itertk.Itslib.{Result}
use itertk.Pages.{
  queried, Alert, View, Reading, SettingsPage, Runs, session_read, show_again, submit_form,
  take_form, cgi_main,
}

-- What stands behind a setting that was made: a session, a query that succeeded, a form that was accepted,
-- and a transaction with the object of the form that returned the code of success.
pub record Made {A : Type 0} (p : SettingsPage A) (session : Option (List ℕ)) (runs : Runs)
    (read : A → Option (Reading A)) (v : View A) : Type 0 where
  pub name : List ℕ
  pub query : Result
  pub object : A
  pub setting : Result
  pub logged_in : session_read session ≡ some name
  pub asked : p.query runs.first name p.start ≡ Step.done query
  pub got : query.code ≡ code_number CmdCode.query_ok
  pub form : read (queried p.layout p.start query) ≡ some (Reading.accepted object)
  pub sent : p.set runs.second object ≡ Step.done setting
  pub success : setting.code ≡ code_number p.set_ok
  pub shown : v.shown ≡ some object
  pub talks : v.talks ≡ query ∷ setting ∷ []

pub Step-cases :
    {A : Type 0} (s : Step A)
    → ((r : A) × (s ≡ Step.done r)) ⊎ ((s ≡ Step.pending) ⊎ (s ≡ Step.fault))
Step-cases (Step.done r) = inl (r, refl)
Step-cases Step.pending = inr (inl refl)
Step-cases Step.fault = inr (inr refl)

pub Step-done : {A : Type 0} {a b : A} → Step.done a ≡ Step.done b → a ≡ b
Step-done e = cc

pub pending-ne-done : {A : Type 0} {a : A} → Step.pending ≡ Step.done a → ⊥
pending-ne-done e = cc

pub fault-ne-done : {A : Type 0} {a : A} → Step.fault ≡ Step.done a → ⊥
fault-ne-done e = cc

-- A view with other alerts is not the one that reports success.
pub other_alerts :
    {A : Type 0} {v w : View A}
    → Step.done v ≡ Step.done w
    → (v.alerts ≡ Alert.submitted ∷ [] → ⊥)
    → w.alerts ≡ Alert.submitted ∷ []
    → ⊥
other_alerts e differs a = differs (ap (λ (w : View _). w.alerts) (Step-done e) ∙ a)

pub not_logged_in-ne-submitted : Alert.not_logged_in ∷ [] ≡ Alert.submitted ∷ [] → ⊥
not_logged_in-ne-submitted e = cc

pub query_failed-ne-submitted : {n : ℕ} → Alert.query_failed n ∷ [] ≡ Alert.submitted ∷ [] → ⊥
query_failed-ne-submitted e = cc

pub no_alert-ne-submitted : [] ≡ Alert.submitted ∷ [] → ⊥
no_alert-ne-submitted e = cc

-- The alert of a failure is the one that the page was called with.
show_again-alerts :
    {A : Type 0} (p : SettingsPage A) (runs : Runs) (name : List ℕ) (alert : Alert)
    (talks : List Result) (v : View A)
    → show_again p runs name alert talks ≡ Step.done v
    → v.alerts ≡ alert ∷ []
unfolding show_again
show_again-alerts p runs name alert talks v e =
    elim (Step-cases (p.query runs.third name p.cleared)) [
      | inl (r, q) ↦ ap (λ (w : View _). w.alerts) (sym (Step-done (rw (q, show_again) at e)))
      | inr (inl q) ↦ absurd (pending-ne-done (rw (q, show_again) at e))
      | inr (inr q) ↦ absurd (fault-ne-done (rw (q, show_again) at e))
    ]

-- what a setting that succeeds shows
abbrev done_view : {A : Type 0} → A → List Result → Result → View A
done_view object talks r = record {
  alerts = Alert.submitted ∷ [];
  shown = some object;
  talks = talks ++ (r ∷ []);
}

-- The setting behind the alert of success.
pub record Delivered {A : Type 0} (p : SettingsPage A) (runs : Runs) (object : A)
    (talks : List Result) (v : View A) : Type 0 where
  pub setting : Result
  pub sent : p.set runs.second object ≡ Step.done setting
  pub success : setting.code ≡ code_number p.set_ok
  pub view : v ≡ done_view object talks setting

submit_form-Delivered :
    {A : Type 0} (p : SettingsPage A) (runs : Runs) (name : List ℕ) (object : A)
    (talks : List Result) (v : View A)
    → submit_form p runs name object talks ≡ Step.done v
    → v.alerts ≡ Alert.submitted ∷ []
    → Delivered p runs object talks v
unfolding submit_form
submit_form-Delivered p runs name object talks v e a =
    elim (Step-cases (p.set runs.second object)) [
      | inr (inl q) ↦ absurd (pending-ne-done (rw (q, submit_form) at e))
      | inr (inr q) ↦ absurd (fault-ne-done (rw (q, submit_form) at e))
      | inl (r, q) ↦ elim (Bool-cases (r.code == code_number p.set_ok)) [
        | inl ok ↦ record {
          setting = r;
          sent = q;
          success = ==→eq r.code (code_number p.set_ok) ok;
          view = sym (Step-done (rw (q, ok, submit_form) at e));
        }
        | inr bad ↦
            let again =
              show_again-alerts p runs name (Alert.submit_failed r.code) (talks ++ (r ∷ [])) v
                (rw (q, bad, submit_form) at e) in
            absurd
              (let f : Alert.submit_failed r.code ∷ [] ≡ Alert.submitted ∷ [] = sym again ∙ a in cc)
      ]
    ]

pub take_form-Delivered :
    {A : Type 0} (p : SettingsPage A) (runs : Runs) (name : List ℕ) (form : Reading A)
    (talks : List Result) (v : View A)
    → take_form p runs name form talks ≡ Step.done v
    → v.alerts ≡ Alert.submitted ∷ []
    → (object : A) × (form ≡ Reading.accepted object) × Delivered p runs object talks v
unfolding take_form
take_form-Delivered p runs name (Reading.refused field) talks v e a =
    let again = show_again-alerts p runs name (Alert.bad_field field) talks v e in
    absurd (let f : Alert.bad_field field ∷ [] ≡ Alert.submitted ∷ [] = sym again ∙ a in cc)
take_form-Delivered p runs name (Reading.accepted object) talks v e a =
    (object, refl, submit_form-Delivered p runs name object talks v e a)

-- A settings page reports success only if the browser has a session, the query has succeeded, the form
-- was accepted, and the server has answered the very object that the page shows with the code of
-- success; there are no other transactions.
pub cgi_main-Made :
    {A : Type 0} (p : SettingsPage A) (session : Option (List ℕ)) (runs : Runs)
    (read : A → Option (Reading A)) (v : View A)
    → cgi_main p session runs read ≡ Step.done v
    → v.alerts ≡ Alert.submitted ∷ []
    → Made p session runs read v
unfolding cgi_main
cgi_main-Made p session runs read v e a = elim (Option-cases (session_read session)) [
  | inl out ↦ absurd (other_alerts (rw (out, cgi_main) at e) not_logged_in-ne-submitted a)
  | inr (name, logged) ↦ elim (Step-cases (p.query runs.first name p.start)) [
    | inr (inl q) ↦ absurd (pending-ne-done (rw (logged, q, cgi_main) at e))
    | inr (inr q) ↦ absurd (fault-ne-done (rw (logged, q, cgi_main) at e))
    | inl (r, q) ↦ elim (Bool-cases (r.code == code_number CmdCode.query_ok)) [
      | inr bad ↦
          absurd (other_alerts (rw (logged, q, bad, cgi_main) at e) query_failed-ne-submitted a)
      | inl ok ↦ elim (Option-cases (read (queried p.layout p.start r))) [
        | inl still ↦
            absurd (other_alerts (rw (logged, q, ok, still, cgi_main) at e) no_alert-ne-submitted a)
        | inr (form, f) ↦
            let (object, taken, s) =
              take_form-Delivered p runs name form (r ∷ []) v (rw (logged, q, ok, f, cgi_main) at e)
                a in
            record {
              name = name;
              query = r;
              object = object;
              setting = s.setting;
              logged_in = logged;
              asked = q;
              got = ==→eq r.code (code_number CmdCode.query_ok) ok;
              form = f ∙ ap some taken;
              sent = s.sent;
              success = s.success;
              shown = ap (λ (w : View _). w.shown) s.view;
              talks = ap (λ (w : View _). w.talks) s.view;
            }
      ]
    ]
  ]
]

-- A form that is accepted is sent, and the page goes by the answer.
pub cgi_main-accepted :
    {A : Type 0} (p : SettingsPage A) (session : Option (List ℕ)) (runs : Runs)
    (read : A → Option (Reading A)) (name : List ℕ) (r : Result) (object : A)
    → session_read session ≡ some name
    → p.query runs.first name p.start ≡ Step.done r
    → r.code ≡ code_number CmdCode.query_ok
    → read (queried p.layout p.start r) ≡ some (Reading.accepted object)
    → cgi_main p session runs read ≡ submit_form p runs name object (r ∷ [])
unfolding cgi_main
cgi_main-accepted p session runs read name r object s q c f =
    let ok : (r.code == code_number CmdCode.query_ok) ≡ true =
      rw c (==-refl (code_number CmdCode.query_ok)) in
    rw (s, q, ok, f, cgi_main, take_form) refl
