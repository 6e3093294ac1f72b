-- ===== src/Web/Rights.antt =====
-- Who may change the configuration by CONF_SET.
use itertk.Base.{
  ℕ, ◌≡◌, refl, ◌∙◌, ap, Bool, false, Option, none, some, List, [], ◌==◌, get_elem?, Bool-cases,
  Option-cases, inl, inr,
}
use itertk.Conf.{ConfiData, ConfigLimit, UsrInfo, ConfigCom, ConfigMode}
use itertk.Conf.Users.{CmdCode, get_usr_id, code_number}
use itertk.Conf.Defaults.{usr_root}
use itertk.Client.Link.{is_open}
use itertk.Wire.{Action, NetConn, ◌>>=◌, pure, After}
use itertk.Wire.Packet.{Itsip, ItsCmd, Layout}
use itertk.Wire.Send.{net_conn_send}
use itertk.Web.{Web, Board, user_of, data_at, allowed, send_result, result_head}
use itertk.Web.Set.{
  sys_conf_set, conf_com_set, conf_mode_set, conf_limit_set, put_com, put_mode, put_limit,
  receive_object,
}
use itertk.Web.Command.{web_cmd_proc, acknowledge, on_cmd, its_cmd_of}
use itertk.Web.Receiving.{receive_object-After, bind-After, lift_conn-After}

abbrev is_root : Option UsrInfo → Bool
is_root none = false
is_root (some usr) = usr.usr_auth == usr_root

abbrev may_modify : ConfiData → List ℕ → Option ConfigLimit → Bool
may_modify conf user none = false
may_modify conf user (some limit) = allowed limit limit.modify conf user

-- The user whom the head names has neither the right to modify the port that it names, nor root's
-- authority. A port or a user that is not in its table gives neither.
pub record Denied (head : Itsip) (conf : ConfiData) : Type 0 where
  pub no_right : may_modify conf (user_of head) (get_elem? conf.con_lim (data_at head 1)) ≡ false
  pub not_root : is_root (get_elem? conf.con_usr (get_usr_id conf.con_usr (user_of head))) ≡ false

abbrev pub Untouched : {A : Type 0} → Web → A → Web → Type 0
Untouched w a w' = w' ≡ record w { conn = w'.conn }

-- Without the right the object that was received is dropped, or a table is read behind its end.
put_com-Untouched :
    (head : Itsip) (v : ConfigCom) (w : Web)
    → Denied head w.client.conf
    → After (Untouched w) (put_com head v w)
unfolding put_com
put_com-Untouched head v w d =
    elim (Option-cases (get_elem? w.client.conf.con_lim (data_at head 1))) [
      | inl none_there ↦ rw none_there tt
      | inr (limit, e) ↦
          let n : allowed limit limit.modify w.client.conf (user_of head) ≡ false =
            rw e at d.no_right in
          rw (e, n) refl
    ]

put_mode-Untouched :
    (head : Itsip) (v : ConfigMode) (w : Web)
    → Denied head w.client.conf
    → After (Untouched w) (put_mode head v w)
unfolding put_mode
put_mode-Untouched head v w d =
    elim (Option-cases (get_elem? w.client.conf.con_lim (data_at head 1))) [
      | inl none_there ↦ rw none_there tt
      | inr (limit, e) ↦
          let n : allowed limit limit.modify w.client.conf (user_of head) ≡ false =
            rw e at d.no_right in
          rw (e, n) refl
    ]

put_limit-Untouched :
    (head : Itsip) (v : ConfigLimit) (w : Web)
    → Denied head w.client.conf
    → After (Untouched w) (put_limit head v w)
unfolding put_limit
put_limit-Untouched head v w d =
    let users = w.client.conf.con_usr in
    elim (Option-cases (get_elem? users (get_usr_id users (user_of head)))) [
      | inl unknown ↦ rw unknown tt
      | inr (usr, e) ↦
          let n : (usr.usr_auth == usr_root) ≡ false = rw e at d.not_root in rw (e, n) refl
    ]

-- A received object with such a continuation.
dropped :
    {A : Type 0} (layout : Layout A) (k : A → Action Web CmdCode) (w : Web)
    → ((v : A) (c : NetConn)
        → After (Untouched (record w { conn = c })) (k v (record w { conn = c })))
    → After (Untouched w) (receive_object layout CmdCode.recv_failed k w)
dropped layout k w h =
    receive_object-After layout CmdCode.recv_failed k w (Untouched w)
      (λ got c e s. h (layout.load got) c) (λ c. refl)

sys_conf_set-Untouched :
    (b : Board) (head : Itsip) (w : Web)
    → Denied head w.client.conf
    → After (Untouched w) (sys_conf_set b head w)
unfolding sys_conf_set conf_com_set conf_mode_set conf_limit_set
sys_conf_set-Untouched b head w d = elim (Bool-cases (data_at head 0 == 0)) [
  | inl port ↦ rw port (
      dropped b.abi.port (put_com head) w
        (λ v c. put_com-Untouched head v (record w { conn = c }) d))
  | inr not_port ↦ elim (Bool-cases (data_at head 0 == 1)) [
    | inl mode ↦
        rw (not_port, mode)
          (dropped b.abi.mode (put_mode head) w
            (λ v c. put_mode-Untouched head v (record w { conn = c }) d))
    | inr not_mode ↦ elim (Bool-cases (data_at head 0 == 2)) [
      | inl limit ↦
          rw (not_port, not_mode, limit)
            (dropped b.abi.limit (put_limit head) w
              (λ v c. put_limit-Untouched head v (record w { conn = c }) d))
      | inr other ↦ rw (not_port, not_mode, other) refl
    ]
  ]
]

-- Sending an answer changes the connection only.
pub acknowledge-Untouched :
    (b : Board) (cmd : ItsCmd) (m : Action Web CmdCode) (w : Web)
    → After (Untouched w) (m w)
    → After (Untouched w) (acknowledge b cmd m w)
unfolding acknowledge send_result
acknowledge-Untouched b cmd m w h =
    bind-After (Untouched w) (Untouched w) (m w)
      (λ code. send_result b cmd (code_number code) >>= λ _. pure code) h
      (λ code t e.
        bind-After (Untouched t) (Untouched w) (send_result b cmd (code_number code) t)
          (λ _. pure code)
          (lift_conn-After
            (net_conn_send (b.abi.head.store (result_head cmd 0 (code_number code) b.uninit_head))
              [] b.memory t.conn)
            t)
          (λ a u g. g ∙ ap (λ (v : Web). record v { conn = u.conn }) e))

-- When a call of web_cmd_proc for a CONF_SET packet returns, and its user has neither the right to modify
-- the port that it names nor root's authority, everything but the connection is as it was, whatever the
-- packet carries and however the connection behaves: no setting, pin, saved file or flag of the client
-- changes, and config_net_set is not called. A user or a port that is not in its table counts as having
-- no right; a call that reads the table behind its end for it counts as one that does not return, as
-- does one that still waits.
pub conf_set_without_right :
    (b : Board) (head : Itsip) (w : Web)
    → head.itsip_cmd ≡ 0xa3
    → Denied head w.client.conf
    → After (Untouched w) (web_cmd_proc b head w)
unfolding web_cmd_proc its_cmd_of on_cmd acknowledge send_result
conf_set_without_right b head w e d = elim (Bool-cases (is_open w.conn.client_conn)) [
  | inr shut ↦ rw shut refl
  | inl live ↦ elim (Bool-cases (head.itsip_head == 0xff)) [
    | inr no_head ↦ rw (live, no_head) refl
    | inl is_head ↦
        rw (live, is_head, e)
          (bind-After (Untouched w) (Untouched w)
            (acknowledge b ItsCmd.conf_set (sys_conf_set b head) w) (λ _. pure tt)
            (acknowledge-Untouched b ItsCmd.conf_set (sys_conf_set b head) w
              (sys_conf_set-Untouched b head w d))
            (λ a t h. h))
  ]
]
