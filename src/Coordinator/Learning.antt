-- ===== src/Coordinator/Learning.antt =====
-- What an update of a coordinator may ask of the switch, and what it may learn from it.
use hass_tplink_easy_smart.Base.{Bool, false, String, ◌≡◌, ◌≢◌, Option, none, some}
use hass_tplink_easy_smart.Core.Session.Monad.{Event, sent, get_request}
use hass_tplink_easy_smart.Core.Session.Login.{Credentials}
use hass_tplink_easy_smart.Core.Session.Calls.Trace.{Extends, IsLogin}
use hass_tplink_easy_smart.Coordinator.State.{Coordinator}

-- What is known of an optional part is kept, or found out once.
pub data Learned : Option Bool → Option Bool → Type 0 where
  kept : {known : Option Bool} → Learned known known
  found : (b : Bool) → Learned none (some b)

pub Learned-trans : {a b c : Option Bool} → Learned a b → Learned b c → Learned a c
Learned-trans kept y = y
Learned-trans (found b) kept = found b

pub Learned-false : {a b : Option Bool} → Learned a b → b ≢ some false → a ≢ some false
Learned-false kept h = h
Learned-false (found b) h = λ e. cc

-- `Learned`, for every optional part.
pub record Learns {F : Type 0} (s t : Coordinator F) : Type 0 where
  pub led : Learned s.led.supported t.led.supported
  pub port_statistics : Learned s.port_statistics.supported t.port_statistics.supported
  pub igmp : Learned s.igmp.supported t.igmp.supported
  pub loop_prevention : Learned s.loop_prevention.supported t.loop_prevention.supported
  pub cable_diagnostics : Learned s.cable_diagnostics.supported t.cable_diagnostics.supported
  pub qos : Learned s.qos.supported t.qos.supported
  pub lag : Learned s.lag.supported t.lag.supported
  pub mtu_vlan : Learned s.mtu_vlan.supported t.mtu_vlan.supported
  pub port_vlan : Learned s.port_vlan.supported t.port_vlan.supported
  pub vlan_8021q : Learned s.vlan_8021q.supported t.vlan_8021q.supported
  pub pvid : Learned s.pvid.supported t.pvid.supported

-- The pages that an update reads: those of optional parts only if they are not ruled out.
pub data Wanted {F : Type 0} (s : Coordinator F) : String → Type 0 where
  system_page : Wanted s "SystemInfoRpm.htm"
  ports_page : Wanted s "PortSettingRpm.htm"
  poe_page : Wanted s "PoeConfigRpm.htm"
  led_page : s.led.supported ≢ some false → Wanted s "TurnOnLEDRpm.htm"
  statistics_page : s.port_statistics.supported ≢ some false → Wanted s "PortStatisticsRpm.htm"
  igmp_page : s.igmp.supported ≢ some false → Wanted s "IgmpSnoopingRpm.htm"
  loop_page : s.loop_prevention.supported ≢ some false → Wanted s "LoopPreventionRpm.htm"
  cable_page : s.cable_diagnostics.supported ≢ some false → Wanted s "CableDiagRpm.htm"
  qos_page : s.qos.supported ≢ some false → Wanted s "QosBasicRpm.htm"
  lag_page : s.lag.supported ≢ some false → Wanted s "PortTrunkRpm.htm"
  mtu_page : s.mtu_vlan.supported ≢ some false → Wanted s "VlanMtuRpm.htm"
  port_vlan_page : s.port_vlan.supported ≢ some false → Wanted s "VlanPortBasicRpm.htm"
  vlan_8021q_page : s.vlan_8021q.supported ≢ some false → Wanted s "Vlan8021QRpm.htm"
  pvid_page : s.pvid.supported ≢ some false → Wanted s "Vlan8021QPvidRpm.htm"

-- A login, or the read of a wanted page.
pub data Asked {F : Type 0} (account : Credentials) (s : Coordinator F) (e : Event) : Type 0 where
  login : IsLogin account e → Asked account s e
  page : (p : String) → Wanted s p → e ≡ sent (get_request p) → Asked account s e

pub record IsRefresh {F : Type 0} (account : Credentials) (s t : Coordinator F) : Type 0 where
  pub learns : Learns s t
  pub reads : Extends (Asked account s) s.api.session t.api.session

-- What an update leaves of the other parts is left as it was.
abbrev pub learns :
    {F : Type 0} {s t : Coordinator F}
    → Learned s.led.supported t.led.supported
    → Learned s.port_statistics.supported t.port_statistics.supported
    → Learned s.igmp.supported t.igmp.supported
    → Learned s.loop_prevention.supported t.loop_prevention.supported
    → Learned s.cable_diagnostics.supported t.cable_diagnostics.supported
    → Learned s.qos.supported t.qos.supported
    → Learned s.lag.supported t.lag.supported
    → Learned s.mtu_vlan.supported t.mtu_vlan.supported
    → Learned s.port_vlan.supported t.port_vlan.supported
    → Learned s.vlan_8021q.supported t.vlan_8021q.supported
    → Learned s.pvid.supported t.pvid.supported
    → Learns s t
learns a b c d e f g h i j k = record {
  led = a;
  port_statistics = b;
  igmp = c;
  loop_prevention = d;
  cable_diagnostics = e;
  qos = f;
  lag = g;
  mtu_vlan = h;
  port_vlan = i;
  vlan_8021q = j;
  pvid = k;
}

module _ {F : Type 0} where
  pub Learns-trans : {s t u : Coordinator F} → Learns s t → Learns t u → Learns s u
  Learns-trans x y =
      learns (Learned-trans x.led y.led) (Learned-trans x.port_statistics y.port_statistics)
        (Learned-trans x.igmp y.igmp) (Learned-trans x.loop_prevention y.loop_prevention)
        (Learned-trans x.cable_diagnostics y.cable_diagnostics) (Learned-trans x.qos y.qos)
        (Learned-trans x.lag y.lag) (Learned-trans x.mtu_vlan y.mtu_vlan)
        (Learned-trans x.port_vlan y.port_vlan) (Learned-trans x.vlan_8021q y.vlan_8021q)
        (Learned-trans x.pvid y.pvid)

  pub Wanted-earlier : {s t : Coordinator F} {p : String} → Learns s t → Wanted t p → Wanted s p
  Wanted-earlier x system_page = system_page
  Wanted-earlier x ports_page = ports_page
  Wanted-earlier x poe_page = poe_page
  Wanted-earlier x (led_page h) = led_page (Learned-false x.led h)
  Wanted-earlier x (statistics_page h) = statistics_page (Learned-false x.port_statistics h)
  Wanted-earlier x (igmp_page h) = igmp_page (Learned-false x.igmp h)
  Wanted-earlier x (loop_page h) = loop_page (Learned-false x.loop_prevention h)
  Wanted-earlier x (cable_page h) = cable_page (Learned-false x.cable_diagnostics h)
  Wanted-earlier x (qos_page h) = qos_page (Learned-false x.qos h)
  Wanted-earlier x (lag_page h) = lag_page (Learned-false x.lag h)
  Wanted-earlier x (mtu_page h) = mtu_page (Learned-false x.mtu_vlan h)
  Wanted-earlier x (port_vlan_page h) = port_vlan_page (Learned-false x.port_vlan h)
  Wanted-earlier x (vlan_8021q_page h) = vlan_8021q_page (Learned-false x.vlan_8021q h)
  Wanted-earlier x (pvid_page h) = pvid_page (Learned-false x.pvid h)

  pub Asked-earlier :
      {account : Credentials} {s t : Coordinator F} (e : Event)
      → Learns s t
      → Asked account t e
      → Asked account s e
  Asked-earlier e x (login l) = login l
  Asked-earlier e x (page p w same) = page p (Wanted-earlier x w) same

  pub Learns-refl : (s : Coordinator F) → Learns s s
  Learns-refl s = learns kept kept kept kept kept kept kept kept kept kept kept
