-- ===== src/Server/Pages/Laws.antt =====
-- internal/server/router.go: what the network and firewall pages say of what was read.
use porcelain.Prelude.{
  ◌<◌, Bool, true, false, ◌||◌, List, [], ◌∷◌, ◌++◌, if◌then◌else◌, ◌≡◌, ◌↔◌, inl, inr, refl, arith,
  leb, All, Bool-cases, ap, sym, ◌∙◌, length, or_false,
}
use porcelain.Text.{Text, codes, ◌==◌}
use porcelain.Text.Decimal.{decimal}
use porcelain.Text.Affix.{eq_sound}
use porcelain.Text.Sort.{
  listed, IsSorted, sort_texts-IsSorted, IsDistinct, sort_texts-IsDistinct, listed-sort_texts,
}
use porcelain.Dbus.NetworkManager.{Device}
use porcelain.Dbus.Firewalld.{ZoneSummary}
use porcelain.Server.Pages.{
  NetworkPageData, FirewallPageData, shown_device, add_devices, page_of_devices, sorted_entry,
  add_known, known_services, page_of_summary,
}

add_devices_lem :
    (ds : List Device) (page : NetworkPageData)
    → ((add_devices page ds).enabled ≡ true) ↔ ((page.enabled ≡ true) × All (λ d. 20 < d.state) ds)
unfolding add_devices
add_devices_lem [] page = ((λ e. (e, tt)), λ (e, _). e)
add_devices_lem (d ∷ ds) page =
    let ih = add_devices_lem ds (record page {
      devices = page.devices ++ shown_device d ∷ [];
      enabled = if leb d.state 20 then false else page.enabled;
    }) in
    ground (arith, ih.0, ih.1)

-- The page says that networking is on exactly if every device is in a state above 20, the number of
-- "unavailable"; a host without devices counts as on.
pub page_of_devices-enabled_iff :
    (page : NetworkPageData) (ds : List Device)
    → ((page_of_devices page ds).enabled ≡ true) ↔ All (λ d. 20 < d.state) ds
unfolding page_of_devices
page_of_devices-enabled_iff page ds =
    let lem = add_devices_lem ds (record page {
      enabled = true;
      detail = decimal (length ds) ++ codes " interfaces detected";
    }) in
    (λ e. (lem.0 e).1, λ h. lem.1 (refl, h))

-- Whether some zone of a list has a service.
abbrev pub offered : Text → ZoneSummary → List Text → Bool
offered k s [] = false
offered k s (z ∷ zs) = listed k (sorted_entry z s.services_by_zone) || offered k s zs

listed-add_known :
    (k : Text) (ss known : List Text)
    → listed k (add_known ss known) ≡ listed k ss || listed k known
unfolding add_known listed
listed-add_known k [] known = refl
listed-add_known k (s ∷ ss) known =
    let ih = listed-add_known k ss (if listed s known then known else s ∷ known) in
    let same : s == k ≡ true → listed k known ≡ listed s known =
      λ e. ap (λ t. listed t known) (sym (eq_sound s k e)) in
    ground (arith, ih, same)

listed-known_services :
    (k : Text) (s : ZoneSummary) (zs known : List Text)
    → listed k (known_services s zs known) ≡ offered k s zs || listed k known
unfolding known_services
listed-known_services k s [] known = refl
listed-known_services k s (z ∷ zs) known =
    let names = sorted_entry z s.services_by_zone in
    let ih = listed-known_services k s zs (add_known names known) in
    ground (arith, ih, listed-add_known k names known)

add_known-IsDistinct : (ss known : List Text) → IsDistinct known → IsDistinct (add_known ss known)
unfolding add_known
add_known-IsDistinct [] known h = h
add_known-IsDistinct (s ∷ ss) known h = elim (Bool-cases (listed s known)) [
  | inl e ↦ rw e (add_known-IsDistinct ss known h)
  | inr e ↦ rw e (add_known-IsDistinct ss (s ∷ known) (e, h))
]

known_services-IsDistinct :
    (s : ZoneSummary) (zs known : List Text)
    → IsDistinct known
    → IsDistinct (known_services s zs known)
unfolding known_services
known_services-IsDistinct s [] known h = h
known_services-IsDistinct s (z ∷ zs) known h =
    known_services-IsDistinct s zs _
      (add_known-IsDistinct (sorted_entry z s.services_by_zone) known h)

-- The services that the firewall page offers are in order, each once, and they are exactly those
-- of the zones on the page.
pub page_of_summary-services :
    (page : FirewallPageData) (s : ZoneSummary) (k : Text)
    → IsSorted (page_of_summary page s).all_known_services
      × IsDistinct (page_of_summary page s).all_known_services
      × (listed k (page_of_summary page s).all_known_services ≡ offered k s s.zones)
unfolding page_of_summary listed
page_of_summary-services page s k =
    let known = known_services s s.zones [] in
    (
      sort_texts-IsSorted known,
      sort_texts-IsDistinct known (known_services-IsDistinct s s.zones [] tt),
      listed-sort_texts k known
          ∙ listed-known_services k s s.zones []
          ∙ or_false (offered k s s.zones),
    )
