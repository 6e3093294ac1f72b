-- ===== src/Mode/Delivery.antt =====
-- Which connections get the data of a serial port.
use itertk.Base.{
  ℕ, ◌≡◌, refl, ap, ◌∙◌, false, Option, List, [], ◌∷◌, ◌++◌, append_assoc, Bool-cases, inl, inr,
}
use itertk.Conf.{ConfigSession}
use itertk.Mode.{ModeConfig, closed, not_in_use, in_use, take_socket, send_com_data_to_net, tcp_srv}

-- The targets before a connection is accepted, and after: the new one stands among the old ones.
pub record Joins (old new : List (Option ℕ)) (s : Option ℕ) : Type 0 where
  pub before : List (Option ℕ)
  pub after : List (Option ℕ)
  pub was : old ≡ before ++ after
  pub now : new ≡ before ++ (s ∷ after)

in_use-take_socket :
    (new : Option ℕ) (ss : List (Option ℕ))
    → not_in_use new ≡ false
    → (take_socket new ss).1 ≡ []
    → Joins (in_use ss) (in_use (take_socket new ss).0) new
unfolding take_socket
in_use-take_socket new [] live e = absurd (let f : closed new ∷ [] ≡ [] = e in cc)
in_use-take_socket new (s ∷ ss) live e = elim (Bool-cases (not_in_use s)) [
  | inl free ↦ rw (free, live) (record { before = []; after = in_use ss; was = refl; now = refl })
  | inr taken ↦
      let j = in_use-take_socket new ss live (rw taken at e) in
      rw (taken, taken)
        (record {
          before = s ∷ j.before;
          after = j.after;
          was = ap (λ l. s ∷ l) j.was;
          now = ap (λ l. s ∷ l) j.now;
        })
]

-- A connection that a server session accepts, and does not close for want of an entry, gets the data of
-- the serial port from then on; every connection that got them before still does, in the same order,
-- and so do the other sessions of the port.
pub accepted_gets_data :
    (session : ConfigSession) (md : ModeConfig) (others : List (ConfigSession × ModeConfig))
    (new : Option ℕ)
    → session.protocol ≡ tcp_srv
    → not_in_use new ≡ false
    → (take_socket new md.sfd).1 ≡ []
    → Joins
        (send_com_data_to_net ((session, md) ∷ others))
        (send_com_data_to_net ((session, record md { sfd = (take_socket new md.sfd).0 }) ∷ others))
        new
unfolding send_com_data_to_net
accepted_gets_data session md others new p live e =
    let j = in_use-take_socket new md.sfd live e in
    let rest = send_com_data_to_net others in
    rw p (record {
      before = j.before;
      after = j.after ++ rest;
      was = ap (λ l. l ++ rest) j.was ∙ append_assoc j.before j.after rest;
      now = ap (λ l. l ++ rest) j.now ∙ append_assoc j.before (new ∷ j.after) rest;
    })
