-- ===== src/Web/Store.antt =====
-- What the settings commands promise: the configuration is a store of settings under keys.
use itertk.Base.{
  ℕ, ◌+◌, [], ◌∷◌, Option, none, some, ◌≢◌, ◌∙◌, ap, ◌≡◌, refl, fun_ext, List, ◌++◌, ◌==◌,
  if◌then◌else◌, ◌⊎◌, inl, inr, length,
}
use itertk.Conf.{ConfiData, ConfigSys, ConfigNet, ConfigVlan, ConfigServer, ConfigGpio}
use itertk.Conf.Users.{CmdCode}
use itertk.Client.{Client, Event}
use itertk.Client.Outputs.{drive, output_pin}
use itertk.Wire.{Step, Action, After}
use itertk.Wire.Packet.{Abi, Layout}
use itertk.Web.{Web, Board, change_conf, save_conf}
use itertk.Web.Set.{
  sys_sysinfo_set, sys_netinfo_set, sys_vlan_set, sys_server_set, sys_gpio_set, store_sys,
  store_net, store_vlan, store_server, store_gpio, drive_outputs, output_of, net_reset,
  receive_object,
}
use itertk.Web.Receiving.{receive_object-After}

pub data Key : Type 0 where
  sys net vlan server gpio : Key

pub data Setting : Type 0 where
  sys_is : ConfigSys → Setting
  net_is : ConfigNet → Setting
  vlan_is : ConfigVlan → Setting
  server_is : ConfigServer → Setting
  gpio_is : ConfigGpio → Setting

abbrev pub key_of : Setting → Key
key_of (sys_is v) = sys
key_of (net_is v) = net
key_of (vlan_is v) = vlan
key_of (server_is v) = server
key_of (gpio_is v) = gpio

abbrev key_number : Key → ℕ
key_number sys = 0
key_number net = 1
key_number vlan = 2
key_number server = 3
key_number gpio = 4

-- a store of settings, changed at one key
abbrev pub update : (Key → Setting) → Setting → Key → Setting
update f s k = if key_number k == key_number (key_of s) then s else f k

-- the configuration as such a store
abbrev pub view : ConfiData → Key → Setting
view conf sys = sys_is conf.con_sys
view conf net = net_is conf.con_net
view conf vlan = vlan_is conf.con_vlan
view conf server = server_is conf.con_server
view conf gpio = gpio_is conf.con_gpio

-- the setting that the bytes of a packet are
abbrev pub setting_of : Abi → Key → List ℕ → Setting
setting_of abi sys bytes = sys_is (abi.sys.load bytes)
setting_of abi net bytes = net_is (abi.net.load bytes)
setting_of abi vlan bytes = vlan_is (abi.vlan.load bytes)
setting_of abi server bytes = server_is (abi.server.load bytes)
setting_of abi gpio bytes = gpio_is (abi.gpio.load bytes)

abbrev pub size_of : Abi → Key → ℕ
size_of abi sys = abi.sys.size
size_of abi net = abi.net.size
size_of abi vlan = abi.vlan.size
size_of abi server = abi.server.size
size_of abi gpio = abi.gpio.size

-- the command for a key, and the code that says it was done
abbrev pub set_command : Board → Key → Action Web CmdCode
set_command b sys = sys_sysinfo_set b
set_command b net = sys_netinfo_set b
set_command b vlan = sys_vlan_set b
set_command b server = sys_server_set b
set_command b gpio = sys_gpio_set b

abbrev pub ok_code : Key → CmdCode
ok_code sys = CmdCode.sys_set_ok
ok_code net = CmdCode.net_set_ok
ok_code vlan = CmdCode.vlan_set_ok
ok_code server = CmdCode.server_set_ok
ok_code gpio = CmdCode.gpio_set_ok

every : (P : Key → Type 0) → P sys → P net → P vlan → P server → P gpio → (k : Key) → P k
every P a b c d e sys = a
every P a b c d e net = b
every P a b c d e vlan = c
every P a b c d e server = d
every P a b c d e gpio = e

view-sys :
    (v : ConfigSys) (conf : ConfiData) → view (store_sys v conf) ≡ update (view conf) (sys_is v)
unfolding store_sys
view-sys v conf = fun_ext (
    every (λ k. view (store_sys v conf) k ≡ update (view conf) (sys_is v) k) refl refl refl refl
      refl)

view-net :
    (v : ConfigNet) (conf : ConfiData) → view (store_net v conf) ≡ update (view conf) (net_is v)
unfolding store_net
view-net v conf = fun_ext (
    every (λ k. view (store_net v conf) k ≡ update (view conf) (net_is v) k) refl refl refl refl
      refl)

view-vlan :
    (v : ConfigVlan) (conf : ConfiData) → view (store_vlan v conf) ≡ update (view conf) (vlan_is v)
unfolding store_vlan
view-vlan v conf = fun_ext (
    every (λ k. view (store_vlan v conf) k ≡ update (view conf) (vlan_is v) k) refl refl refl refl
      refl)

view-server :
    (v : ConfigServer) (conf : ConfiData)
    → view (store_server v conf) ≡ update (view conf) (server_is v)
unfolding store_server
view-server v conf = fun_ext (
    every (λ k. view (store_server v conf) k ≡ update (view conf) (server_is v) k) refl refl refl
      refl refl)

view-gpio :
    (v : ConfigGpio) (conf : ConfiData) → view (store_gpio v conf) ≡ update (view conf) (gpio_is v)
unfolding store_gpio
view-gpio v conf = fun_ext (
    every (λ k. view (store_gpio v conf) k ≡ update (view conf) (gpio_is v) k) refl refl refl refl
      refl)

-- Driving pins leaves the configuration.
drive_outputs-conf : (seq : ℕ) (vs : List ℕ) (c : Client) → (drive_outputs seq vs c).conf ≡ c.conf
unfolding drive_outputs
drive_outputs-conf seq [] c = refl
drive_outputs-conf seq (v ∷ vs) c =
    drive_outputs-conf (seq + 1) vs (drive (output_pin seq) v c) ∙ drive-conf (output_pin seq) v c
  where
    drive-conf : (pin : Option ℕ) (v : ℕ) (c : Client) → (drive pin v c).conf ≡ c.conf
    drive-conf none v c = refl
    drive-conf (some pin) v c = refl

-- the settings that `config_net_set` has been called with behind a command
abbrev net_sets : Board → Key → List ℕ → List ConfigNet → List ConfigNet
net_sets b net bytes before = b.abi.net.load bytes ∷ before
net_sets b other bytes before = before

-- A settings command has stored the setting that it received whole, under its key, with the rest of
-- the packets left, and saved the configuration last; the network's settings, and no others, are also
-- given to `config_net_set`. Or it answers another code and has changed nothing but the connection.
pub record Stored (b : Board) (k : Key) (w w' : Web) : Type 0 where
  pub payload : List ℕ
  pub size : length payload ≡ size_of b.abi k
  pub kept : payload ++ w'.conn.inbox ≡ w.conn.inbox
  pub refined : view w'.client.conf ≡ update (view w.client.conf) (setting_of b.abi k payload)
  pub before : List Event
  pub saved : w'.client.log ≡ Event.saved w'.client.conf ∷ before
  pub sets : w'.net_set ≡ net_sets b k payload w.net_set

abbrev pub SetDone : Board → Key → Web → CmdCode → Web → Type 0
SetDone b k w code w' =
    ((code ≡ ok_code k) × Stored b k w w')
    ⊎ ((code ≢ ok_code k) × (w' ≡ record w { conn = w'.conn }))

-- A command that stores its object and saves the configuration, for another key than the network's.
set_plain-SetDone :
    {A : Type 0} (b : Board) (k : Key) (layout : Layout A) (failed : CmdCode)
    (change : A → ConfiData → ConfiData) (w : Web)
    → failed ≢ ok_code k
    → layout.size ≡ size_of b.abi k
    → ((got : List ℕ)
        → view (change (layout.load got) w.client.conf)
          ≡ update (view w.client.conf) (setting_of b.abi k got))
    → ((got : List ℕ) (before : List ConfigNet) → before ≡ net_sets b k got before)
    → After (SetDone b k w) (
        receive_object layout failed
          (λ v w. Step.done (ok_code k, save_conf (change_conf (change v) w)))
          w)
set_plain-SetDone b k layout failed change w other size refines no_net =
    receive_object-After layout failed
      (λ v w. Step.done (ok_code k, save_conf (change_conf (change v) w))) w (SetDone b k w)
      (λ got c e s. inl (
        refl,
        record {
          payload = got;
          size = s ∙ size;
          kept = e;
          refined = refines got;
          before = w.client.log;
          saved = refl;
          sets = no_net got w.net_set;
        },
      ))
      (λ c. inr (other, refl))

-- The five commands that set the system's, the network's, the VLAN's, the alarm server's and the
-- outputs' settings refine the update of an abstract store: whatever the connection does, a command
-- that answers with its code of success has changed the store at its own key only, to the setting
-- whose bytes it received whole, has saved the configuration that it left, and has called
-- config_net_set for the network's settings and no others; and one that answers another code has
-- changed nothing but the connection, and has not called config_net_set.
pub set_command-SetDone :
    (b : Board) (k : Key) (w : Web) → After (SetDone b k w) (set_command b k w)
unfolding sys_sysinfo_set sys_netinfo_set sys_vlan_set sys_server_set sys_gpio_set
set_command-SetDone b sys w =
    set_plain-SetDone b sys b.abi.sys CmdCode.sys_set_failed store_sys w
      (λ (e : CmdCode.sys_set_failed ≡ CmdCode.sys_set_ok). cc) refl
      (λ got. view-sys (b.abi.sys.load got) w.client.conf) (λ got before. refl)
set_command-SetDone b net w =
    receive_object-After b.abi.net CmdCode.net_set_failed
      (λ v w. Step.done (CmdCode.net_set_ok, net_reset (save_conf (change_conf (store_net v) w)))) w
      (SetDone b net w)
      (λ got c e s. inl (
        refl,
        record {
          payload = got;
          size = s;
          kept = e;
          refined = view-net (b.abi.net.load got) w.client.conf;
          before = w.client.log;
          saved = refl;
          sets = refl;
        },
      ))
      (λ c. inr ((λ (e : CmdCode.net_set_failed ≡ CmdCode.net_set_ok). cc), refl))
set_command-SetDone b vlan w =
    set_plain-SetDone b vlan b.abi.vlan CmdCode.vlan_set_failed store_vlan w
      (λ (e : CmdCode.vlan_set_failed ≡ CmdCode.vlan_set_ok). cc) refl
      (λ got. view-vlan (b.abi.vlan.load got) w.client.conf) (λ got before. refl)
set_command-SetDone b server w =
    set_plain-SetDone b server b.abi.server CmdCode.server_set_failed store_server w
      (λ (e : CmdCode.server_set_failed ≡ CmdCode.server_set_ok). cc) refl
      (λ got. view-server (b.abi.server.load got) w.client.conf) (λ got before. refl)
set_command-SetDone b gpio w =
    receive_object-After b.abi.gpio CmdCode.net_set_failed
      (λ v w.
        let stored = change_conf (store_gpio v) w in
        let driven = record stored { client = drive_outputs 1 (output_of v) stored.client } in
        Step.done (CmdCode.gpio_set_ok, save_conf driven))
      w (SetDone b gpio w)
      (λ got c e s. inl (
        refl,
        record {
          payload = got;
          size = s;
          kept = e;
          refined =
              ap view (
                drive_outputs-conf 1 (output_of (b.abi.gpio.load got))
                  (change_conf (store_gpio (b.abi.gpio.load got)) w).client)
              ∙ view-gpio (b.abi.gpio.load got) w.client.conf;
          before =
              (drive_outputs 1 (output_of (b.abi.gpio.load got))
                (change_conf (store_gpio (b.abi.gpio.load got)) w).client).log;
          saved = refl;
          sets = refl;
        },
      ))
      (λ c. inr ((λ (e : CmdCode.net_set_failed ≡ CmdCode.gpio_set_ok). cc), refl))
