-- ===== src/Client/Sensors/Overload.antt =====
-- SET_DEVICE_ATTR with more entries than a class has.
use itertk.Base.{◌+◌, ◌<◌, ◌≡◌, refl, true, false, none, some, ◌∷◌, Buf, store, arith, ltb, ◌==◌}
use itertk.Client.{Client, config_save, Event}
use itertk.Client.Frame.{make_ack_head}
use itertk.Client.Sensors.{
  get_all_sensor_buf, make_ack_get_device_attr, set_one_sensor_buf, set_alarmin_device_attr,
  make_ack_set_device_attr,
}
use itertk.Client.Sensors.Entries.{Fits}
use itertk.Client.Sensors.Text.{get_one_sensor_buf-Piece, get_one_sensor_buf-fault}
use itertk.Client.Sensors.Answers.{SensorsFit}

-- A count above 8 is refused by `set_one_sensor_buf` after it was stored, and the caller keeps the
-- class: the saved configuration no longer fits, and the answers to SET_DEVICE_ATTR and
-- GET_DEVICE_ATTR read past the arrays, if the other classes fit.
pub set_device_attr_overload :
    (cmd b : Buf) (c : Client)
    → SensorsFit c.conf
    → 8 < cmd 4
    → (c' : Client) × (set_alarmin_device_attr cmd c ≡ some c')
      × (c'.log ≡ Event.saved c'.conf ∷ c.log)
      × (¬ Fits c'.conf.sensor_io_in)
      × (make_ack_set_device_attr c'.conf b ≡ none)
      × (make_ack_get_device_attr c'.conf b ≡ none)
unfolding set_alarmin_device_attr set_one_sensor_buf make_ack_set_device_attr
    make_ack_get_device_attr get_all_sensor_buf
set_device_attr_overload cmd b c f big =
    let conf = c.conf in
    let s = conf.sensor_io_in in
    let s' = record s { num = cmd 4 } in
    let conf' = record conf { sensor_io_in = s' } in
    let nonzero : (cmd 4 == 0) ≡ false = ground arith in
    let over : ltb 8 (cmd 4) ≡ true = ground arith in
    let (r1, e1, p1) =
      get_one_sensor_buf-Piece conf.sensor_uart 5 (store (make_ack_head b 0x02) 4 4) f.uart in
    (
      config_save (record c { conf = conf' }),
      rw (nonzero, over),
      refl,
      (λ fits. omega (arith, fits.num_le)),
      rw (get_one_sensor_buf-fault s' 0 (λ _. 0) f.io_in.seq_len f.io_in.attr_len big),
      rw e1 (rw (get_one_sensor_buf-fault s' (5 + r1.0) r1.1 f.io_in.seq_len f.io_in.attr_len big)),
    )
