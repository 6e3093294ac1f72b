-- ===== src/Wire/Packet.antt =====
-- The packet of nc600-2.0/inc/itsip.h, and how the objects behind its head lie in memory.
use itertk.Base.{
  ℕ, ◌+◌, ◌≡◌, ◌≢◌, refl, ap, false, List, [], ◌∷◌, ◌++◌, ◌==◌, if◌then◌else◌, ==-false,
}
use itertk.Conf.{
  ConfigSys, ConfigNet, ConfigVlan, ConfigCom, ConfigMode, ConfigLimit, ConfigGpio, ConfigServer,
  UsrInfo,
}
use itertk.Conf.Users.{Extdat}

-- `ITSIP`; `itsip_user` and `itsip_data` are 24 bytes each.
pub record Itsip : Type 0 where
  pub itsip_head : ℕ
  pub itsip_cmd : ℕ
  pub itsip_ver : ℕ
  pub itsip_thl : ℕ
  pub itsip_extlen : ℕ
  pub itsip_dev_t : ℕ
  pub itsip_rsvd : ℕ
  pub itsip_user : List ℕ
  pub itsip_data : List ℕ

-- The commands of `enum ITS_CMD` that the server knows.
pub data ItsCmd : Type 0 where
  login sysinfo_query conf_query conf_set user_set user_query sysinfo_set : ItsCmd
  netinfo_query netinfo_set vlan_query vlan_set factory_set : ItsCmd
  server_query server_set gpio_query gpio_set : ItsCmd

unfoldable pub its_id : ItsCmd → ℕ
its_id ItsCmd.login = 0xa0
its_id ItsCmd.sysinfo_query = 0xa1
its_id ItsCmd.conf_query = 0xa2
its_id ItsCmd.conf_set = 0xa3
its_id ItsCmd.user_set = 0xa5
its_id ItsCmd.user_query = 0xae
its_id ItsCmd.sysinfo_set = 0xaf
its_id ItsCmd.netinfo_query = 0xc0
its_id ItsCmd.netinfo_set = 0xc1
its_id ItsCmd.vlan_query = 0xc2
its_id ItsCmd.vlan_set = 0xc3
its_id ItsCmd.factory_set = 0xc4
its_id ItsCmd.server_query = 0xc5
its_id ItsCmd.server_set = 0xc6
its_id ItsCmd.gpio_query = 0xc7
its_id ItsCmd.gpio_set = 0xc8

-- the answer's number: each `ITS_ACK_...` stands 16 above its command
unfoldable pub its_ack : ItsCmd → ℕ
unfolding its_id
its_ack c = its_id c + 0x10

abbrev pub its_head : ℕ
its_head = 0xff

-- `ITSIP_VERSION`, and the length of a head that the packets state
abbrev pub itsip_version : ℕ
itsip_version = 1

abbrev pub itsip_thlen : ℕ
itsip_thlen = 8

-- `itsip_pack` as all callers use it, with no data; the rest of the head keeps what it held.
unfoldable pub itsip_pack : ℕ → ℕ → Itsip → Itsip
itsip_pack cmd extlen pak = record pak {
  itsip_head = its_head;
  itsip_cmd = cmd;
  itsip_ver = itsip_version;
  itsip_thl = itsip_thlen;
  itsip_extlen = extlen;
  itsip_dev_t = 0;
}

-- How the compiler lays an object out: its size, its bytes, and the object that some bytes are.
pub record Layout (A : Type 0) : Type 0 where
  pub size : ℕ
  pub store : A → List ℕ
  pub load : List ℕ → A

pub record Abi : Type 0 where
  pub head : Layout Itsip
  pub sys : Layout ConfigSys
  pub net : Layout ConfigNet
  pub vlan : Layout ConfigVlan
  pub port : Layout ConfigCom
  pub mode : Layout ConfigMode
  pub limit : Layout ConfigLimit
  pub gpio : Layout ConfigGpio
  pub server : Layout ConfigServer
  pub users : Layout (List UsrInfo)
  pub extdat : Layout Extdat

-- The string that starts a run of bytes. Without a final NUL it is the whole run, which is longer
-- than any string that it is compared with.
unfoldable pub c_string : List ℕ → List ℕ
c_string [] = []
c_string (b ∷ bs) = let rest = c_string bs in if b == 0 then [] else b ∷ rest

abbrev pub NoNul : List ℕ → Type 0
NoNul [] = Unit
NoNul (b ∷ bs) = (b ≢ 0) × NoNul bs

-- A string is read back up to its NUL.
pub c_string-append : (s rest : List ℕ) → NoNul s → c_string (s ++ (0 ∷ rest)) ≡ s
unfolding c_string
c_string-append [] rest h = refl
c_string-append (b ∷ s) rest h =
    let e : (b == 0) ≡ false = ==-false b 0 h.0 in
    rw e (ap (λ l. b ∷ l) (c_string-append s rest h.1))
