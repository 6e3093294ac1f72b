-- ===== src/Client/Outputs/Driving.antt =====
-- What SET_IO stores, and which pins it drives.
use itertk.Base.{◌≤◌, ◌<◌, ◌≡◌, refl, false, ◌&&◌, none, some, ◌∷◌, ◌++◌, Buf, arith, ltb, ◌==◌}
use itertk.Conf.{ConfigSensor}
use itertk.Client.{Client, Env, Event, config_save}
use itertk.Client.Outputs.{set_io_out}
use itertk.Client.Sensors.Entries.{Fits, entries}
use itertk.Client.Outputs.Stores.{
  driven, groups, set_outputs-Stored, entries-groups, set_outputs-fault,
}

-- With local arrays of 8 bytes, SET_IO with at most 8 groups drives the pins of its groups in their order, stores number and
-- attribute of each group as an entry of the class of outputs, and saves that configuration. An empty
-- command empties the class: the guard against it never holds.
pub set_io_drives :
    (env : Env) (cmd : Buf) (c : Client)
    → Fits env.uninit
    → cmd 4 ≤ 8
    → (t : ConfigSensor) × (c' : Client) × (set_io_out env cmd c ≡ some c')
      × (c'.conf ≡ (let conf = c.conf in record conf { sensor_io_out = t }))
      × (c'.log ≡ Event.saved c'.conf ∷ (driven (cmd 4) 5 cmd ++ c.log))
      × (t.type ≡ 2)
      × (t.num ≡ cmd 4)
      × (entries t.seq_num t.attr (cmd 4) 0 ≡ groups (cmd 4) 5 cmd)
unfolding set_io_out
set_io_drives env cmd c f le =
    let local = env.uninit in
    let s = record local { type = 2; num = cmd 4 } in
    let (t, e, w) =
      set_outputs-Stored (cmd 4) 0 0 cmd s c f.seq_len f.attr_len refl (omega arith) in
    let conf = c.conf in
    let never : cmd 4 == 0 && ltb 4 (cmd 4) ≡ false = ground arith in
    let c1 = record c {
      log = driven (cmd 4) 5 cmd ++ c.log;
      conf = record conf { sensor_io_out = t };
    } in
    (
      t,
      config_save c1,
      rw (never, e) refl,
      refl,
      refl,
      w.type_kept,
      w.num_kept,
      entries-groups (cmd 4) 0 5 t.seq_num t.attr cmd w.seq_at w.attr_at,
    )

-- SET_IO with more than 8 groups writes past the arrays of its local class.
pub set_io_overrun :
    (env : Env) (cmd : Buf) (c : Client) → Fits env.uninit → 8 < cmd 4 → set_io_out env cmd c ≡ none
unfolding set_io_out
set_io_overrun env cmd c f big =
    let local = env.uninit in
    let s = record local { type = 2; num = cmd 4 } in
    let never : cmd 4 == 0 && ltb 4 (cmd 4) ≡ false = ground arith in
    rw
      (
        never,
        set_outputs-fault (cmd 4) 0 0 cmd s c f.seq_len f.attr_len (omega arith) (omega arith),
      )
      refl
