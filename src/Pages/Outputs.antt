-- ===== src/Pages/Outputs.antt =====
-- The page of the four outputs: web/src/gpio_set/gpio_set.c.
use itertk.Base.{ℕ, ◌<◌, ◌≡◌, refl, Option, List, [], ◌∷◌, arith, codes, get_or, set, replicate}
use itertk.Conf.{ConfigGpio}
use itertk.Conf.Users.{CmdCode, code_number}
use itertk.Wire.{Step}
use itertk.Itslib.{Page}
use itertk.Itslib.Settings.{its_conf_gpio_query, its_conf_gpio_set}
use itertk.Pages.{Cgi, Alert, View, Reading, SettingsPage, Runs, cgi_main, if_clicked}
use itertk.Pages.Controls.{Control, sent_value, unchanged, choice_of, Reads}
use itertk.Pages.Each.{each_same}
use itertk.Pages.Port.{indices}

-- `str` of the page
abbrev pub level_texts : List (List ℕ)
level_texts = codes "0" ∷ codes "1" ∷ []

-- `show_output1` to `show_output4`; the outputs lie behind the three switches of the alarms.
unfoldable pub show_outputs : ConfigGpio → List (List ℕ × Control)
show_outputs con_gpio =
    (codes "output1", indices level_texts (get_or con_gpio.chars 3 0))
    ∷ (codes "output2", indices level_texts (get_or con_gpio.chars 4 0))
    ∷ (codes "output3", indices level_texts (get_or con_gpio.chars 5 0))
    ∷ (codes "output4", indices level_texts (get_or con_gpio.chars 6 0))
    ∷ []

unfoldable pub read_outputs : Cgi → ConfigGpio → ConfigGpio
read_outputs cgi con_gpio =
    let output : List ℕ → ℕ = λ name. cgi.select_single name level_texts 0 in
    let c1 = set con_gpio.chars 3 (output (codes "output1")) in
    let c2 = set c1 4 (output (codes "output2")) in
    let c3 = set c2 5 (output (codes "output3")) in
    record con_gpio { chars = set c3 6 (output (codes "output4")) }

abbrev pub zero_gpio : ConfigGpio
zero_gpio = record { alarm = replicate 3 0; chars = replicate 37 0 }

unfoldable pub outputs_page : Page → SettingsPage ConfigGpio
unfolding its_conf_gpio_query its_conf_gpio_set
outputs_page page = record {
  query = λ p name c. its_conf_gpio_query p name;
  set = its_conf_gpio_set;
  set_ok = CmdCode.gpio_set_ok;
  layout = page.abi.gpio;
  start = zero_gpio;
  cleared = zero_gpio;
}

-- The result of the setting is not kept: the alert of a failure shows the code of the query.
abbrev pub with_query_code : Alert → Alert
unfolding code_number
with_query_code (Alert.submit_failed n) = Alert.submit_failed (code_number CmdCode.query_ok)
with_query_code other = other

abbrev pub with_query_codes : List Alert → List Alert
with_query_codes [] = []
with_query_codes (a ∷ alerts) = with_query_code a ∷ with_query_codes alerts

unfoldable pub outputs_main : Option (List ℕ) → Runs → Cgi → Step (View ConfigGpio)
unfolding cgi_main outputs_page read_outputs
outputs_main session runs cgi =
    elim (cgi_main (outputs_page runs.first) session runs
      (if_clicked cgi (codes "setting") (λ c. Reading.accepted (read_outputs cgi c)))) [
        | Step.pending ↦ Step.pending
        | Step.fault ↦ Step.fault
        | Step.done v ↦ Step.done (record v { alerts = with_query_codes v.alerts })
      ]

level-back : (n : ℕ) → n < 2 → choice_of (sent_value (indices level_texts n)) level_texts 0 ≡ n
level-back n h =
    each_same (λ k. choice_of (sent_value (indices level_texts k)) level_texts 0) (0 ∷ 1 ∷ []) n
      (ground arith) refl

-- The page's form, sent back as it is shown, leaves the outputs and all around them as they are.
pub read_outputs-show_outputs :
    (cgi : Cgi) (alarm rest : List ℕ) (a b c o1 o2 o3 o4 : ℕ)
    → let con_gpio : ConfigGpio = record {
      alarm = alarm;
      chars = a ∷ b ∷ c ∷ o1 ∷ o2 ∷ o3 ∷ o4 ∷ rest;
    } in
      Reads cgi (unchanged (show_outputs con_gpio))
      → o1 < 2
      → o2 < 2
      → o3 < 2
      → o4 < 2
      → let con_gpio : ConfigGpio = record {
        alarm = alarm;
        chars = a ∷ b ∷ c ∷ o1 ∷ o2 ∷ o3 ∷ o4 ∷ rest;
      } in
        read_outputs cgi con_gpio ≡ con_gpio
unfolding read_outputs show_outputs
read_outputs-show_outputs cgi alarm rest a b c o1 o2 o3 o4 r h1 h2 h3 h4 =
    rw
      (
        r.select (codes "output1") level_texts 0,
        r.select (codes "output2") level_texts 0,
        r.select (codes "output3") level_texts 0,
        r.select (codes "output4") level_texts 0,
        level-back o1 h1,
        level-back o2 h2,
        level-back o3 h3,
        level-back o4 h4,
      )
      refl
