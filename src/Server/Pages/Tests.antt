-- ===== src/Server/Pages/Tests.antt =====
-- The network and firewall pages at concrete readings.
use porcelain.Prelude.{ℕ, ◌<◌, true, false, [], ◌∷◌, none, ◌≡◌, ◌↔◌, All}
use porcelain.Text.{codes}
use porcelain.Text.Sort.{listed, IsSorted, IsDistinct}
use porcelain.Dbus.NetworkManager.{Device}
use porcelain.Dbus.Firewalld.{ZoneSummary}
use porcelain.Server.Pages.{NetworkPageData, FirewallPageData, page_of_devices, page_of_summary}
use porcelain.Server.Pages.Laws.{page_of_devices-enabled_iff, offered, page_of_summary-services}

abbrev device : ℕ → Device
device state = record {
  path = codes "/dev/1";
  interface = codes "eth0";
  device_type = 1;
  state = state;
  state_reason = 0;
  hw_address = [];
}

abbrev network_page : NetworkPageData
network_page = record { detail = []; status_badge = none; enabled = false; devices = [] }

page_of_devices-enabled_iff_example :
    ((page_of_devices network_page (device 100 ∷ device 20 ∷ [])).enabled ≡ true)
    ↔ All (λ d. 20 < d.state) (device 100 ∷ device 20 ∷ [])
page_of_devices-enabled_iff_example =
    page_of_devices-enabled_iff network_page (device 100 ∷ device 20 ∷ [])

abbrev firewall_page : FirewallPageData
firewall_page = record {
  detail = [];
  status_badge = none;
  default_zone = [];
  zones = [];
  all_known_services = [];
}

abbrev two_zones : ZoneSummary
two_zones = record {
  default_zone = codes "home";
  zones = codes "home" ∷ codes "work" ∷ [];
  services_by_zone =
      (codes "home", codes "ssh" ∷ codes "dns" ∷ []) ∷ (codes "work", codes "ssh" ∷ []) ∷ [];
  interfaces_by_zone = [];
}

page_of_summary-services_example :
    IsSorted (page_of_summary firewall_page two_zones).all_known_services
    × IsDistinct (page_of_summary firewall_page two_zones).all_known_services
    × (listed (codes "ssh") (page_of_summary firewall_page two_zones).all_known_services
        ≡ offered (codes "ssh") two_zones two_zones.zones)
page_of_summary-services_example = page_of_summary-services firewall_page two_zones (codes "ssh")
