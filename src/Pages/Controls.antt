-- ===== src/Pages/Controls.antt =====
-- The controls of a form: what a page prints for a field, and what a browser sends back for it.
use itertk.Base.{
  ℕ, ◌+◌, ◌<◌, ◌≡◌, Bool, true, false, Option, none, some, List, [], ◌∷◌, if◌then◌else◌, str_eq,
  length,
}
use itertk.Pages.{Cgi}

-- A choice with its options, of which one or none is marked as selected; a text; a box.
pub data Control : Type 0 where
  choice : List (List ℕ × Bool) → Control
  text : List ℕ → Control
  box : Control

-- The options of a choice, by a test on the index from `i` on.
abbrev pub options_from : (ℕ → Bool) → ℕ → List (List ℕ) → List (List ℕ × Bool)
options_from selected i [] = []
options_from selected i (t ∷ ts) = (t, selected i) ∷ options_from selected (i + 1) ts

abbrev pub options : (ℕ → Bool) → List (List ℕ) → List (List ℕ × Bool)
options selected ts = options_from selected 0 ts

-- The selected option; without one a browser takes the first.
abbrev pub marked : List ℕ → List (List ℕ × Bool) → List ℕ
marked first [] = first
marked first ((t, yes_selected) ∷ os) = if yes_selected then t else marked first os

abbrev pub sent_option : List (List ℕ × Bool) → Option (List ℕ)
sent_option [] = none
sent_option ((t, yes_selected) ∷ os) = some (marked t ((t, yes_selected) ∷ os))

-- What a browser sends for a control that the user leaves alone; an empty box is not sent.
abbrev pub sent_value : Control → Option (List ℕ)
sent_value (Control.choice os) = sent_option os
sent_value (Control.text t) = some t
sent_value Control.box = none

-- A form that is sent back as a page has printed it.
abbrev pub unchanged : List (List ℕ × Control) → List ℕ → Option (List ℕ)
unchanged [] name = none
unchanged ((n, control) ∷ cs) name = if str_eq n name then sent_value control else unchanged cs name

-- The first choice that is equal to a text
abbrev pub first_index : List (List ℕ) → List ℕ → ℕ → ℕ → ℕ
first_index [] v i default = default
first_index (t ∷ ts) v i default = if str_eq t v then i else first_index ts v (i + 1) default

abbrev pub choice_of : Option (List ℕ) → List (List ℕ) → ℕ → ℕ
choice_of none ts default = default
choice_of (some v) ts default = first_index ts v 0 default

-- Texts without line breaks, which cgic leaves as they are.
abbrev pub OneLine : List ℕ → Type 0
OneLine [] = Unit
OneLine (c ∷ s) = (13 < c) × OneLine s

abbrev pub is_there : Option (List ℕ) → Bool
is_there none = false
is_there (some v) = true

-- What cgic documents of its calls, where `form` are the values that were sent: the index of the value
-- among the choices, the text of a field that fits, and whether a box is there.
pub record Reads (cgi : Cgi) (form : List ℕ → Option (List ℕ)) : Type 0 where
  pub select :
      (name : List ℕ) (ts : List (List ℕ)) (default : ℕ)
      → cgi.select_single name ts default ≡ choice_of (form name) ts default
  pub string :
      (name v : List ℕ) (max : ℕ)
      → form name ≡ some v
      → OneLine v
      → length v < max
      → cgi.form_string name max ≡ v
  pub checked : (name : List ℕ) → cgi.checkbox name ≡ is_there (form name)
