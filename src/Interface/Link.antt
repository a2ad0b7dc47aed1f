-- ===== src/Interface/Link.antt =====
-- libnetwork-daemon/src/interface/mod.rs and wifi/link.rs: the parameters of a logical interface.
use Prim.Native.String.{String}
use network_daemon.Prelude.{ℕ, List}

pub data WlanMode : Type 0 where
  sta host_ap adhoc : WlanMode

pub data RegDomain : Type 0 where
  fcc fcc3 fcc4 japan etsi etsi2 etsi3 apac apac2 apac3 korea taiwan row unrestricted : RegDomain
  sr9 xr9 gz901 xc900m : RegDomain

-- `CountryCode`, in lower case; a code that is a word of the language has `_code` added.
pub data CountryCode : Type 0 where
  al dz ar am au at_code az bh bd by be bz bo br bn bg ca cl cn co cr hr cy cz : CountryCode
  dk do_code ec eg sv ee fi fr f2 ge de gr gt hn hk hu is in_code id ir ie il it jm : CountryCode
  jp j1 j2 j3 j4 j5 jo kz kp kr k2 kw lv lb li lt lu mo mk my mt mx mc ma : CountryCode
  np nl nz no_code om pk pa pe ph pl pt pr qa ro ru sa sg sk si za es lk se ch : CountryCode
  sy tw th tt_code tn tr ua ae gb us uy uz ve vn ye zw : CountryCode

pub record WlanLinkOptions : Type 0 where
  pub regdomain : RegDomain
  pub region : CountryCode
  pub mode : WlanMode

-- `WlanLinkOptions::default`.
abbrev pub default_wlan : WlanLinkOptions
default_wlan = record { regdomain = RegDomain.fcc; region = CountryCode.us; mode = WlanMode.sta }

pub data LaggProtocol : Type 0 where
  failover lacp loadbalance roundrobin broadcast unset : LaggProtocol

pub data LinkOptions : Type 0 where
  wlan : String → WlanLinkOptions → LinkOptions
  bridge : List String → LinkOptions
  lagg : LaggProtocol → List String → LinkOptions
  vlan : String → ℕ → LinkOptions

pub data Modification {ℓ} (T : Type ℓ) : Type ℓ where
  append : T → Modification T
  remove : T → Modification T
  replace : T → Modification T
  clear : Modification T
  no_change : Modification T
