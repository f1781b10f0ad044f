-- ===== src/Diagnostics/Laws.antt =====
-- internal/modules/diagnostics: the counts of services agree with the list of services.
use porcelain.Prelude.{
  ℕ, ◌+◌, List, [], ◌∷◌, ◌++◌, if◌then◌else◌, ◌≡◌, refl, arith, length, length-append, Option-cases,
  Result-cases, inl, inr,
}
use porcelain.Text.{codes, ◌==◌}
use porcelain.Host.{Host, World}
use porcelain.Dbus.{Bus, Calls}
use porcelain.Dbus.Systemd.{SystemdUnit, list_units}
use porcelain.Diagnostics.{
  ServiceSummary, Snapshot, Module, Machine, count_unit, count_units, blank_snapshot,
  finish_capture, capture, usable_client,
}

-- The services of a list that are active.
unfoldable pub count_active : List ServiceSummary → ℕ
count_active [] = 0
count_active (s ∷ ss) = (if s.active then 1 else 0) + count_active ss

count_active-append :
    (ss ts : List ServiceSummary) → count_active (ss ++ ts) ≡ count_active ss + count_active ts
unfolding count_active
count_active-append [] ts = omega arith
count_active-append (s ∷ ss) ts = ground (arith, count_active-append ss ts)

-- The two counts of a snapshot are those of its list.
abbrev pub IsCounted : Snapshot → Type 0
IsCounted snap =
    (snap.total_services ≡ length snap.services)
    × (snap.running_services ≡ count_active snap.services)

count_unit-IsCounted :
    (snap : Snapshot) (u : SystemdUnit) → IsCounted snap → IsCounted (count_unit snap u)
unfolding count_unit count_active
count_unit-IsCounted snap u (total, running) =
    let summary : ServiceSummary = record {
      name = u.name;
      description = u.description;
      active = u.active_state == codes "active";
      status = u.active_state;
    } in
    let longer = length-append snap.services (summary ∷ []) in
    let more = count_active-append snap.services (summary ∷ []) in
    ground (arith, total, running, longer, more)

count_units-IsCounted :
    (us : List SystemdUnit) (snap : Snapshot) → IsCounted snap → IsCounted (count_units snap us)
unfolding count_units
count_units-IsCounted [] snap h = h
count_units-IsCounted (u ∷ us) snap h =
    count_units-IsCounted us (count_unit snap u) (count_unit-IsCounted snap u h)

-- Whatever systemd answers, and without it, a snapshot counts as many services as it lists, and as
-- many running services as it lists active ones.
pub capture-IsCounted :
    (host : Host) (bus : Bus) (machine : Machine) (m : Module) (calls : Calls) (w : World)
    → IsCounted (capture host bus machine m calls w).snapshot
unfolding capture blank_snapshot finish_capture count_active
capture-IsCounted host bus machine m calls w = elim (Option-cases (usable_client m)) [
  | inl e ↦ rw (capture, e) (refl, refl)
  | inr (client, e) ↦ elim (Result-cases (list_units bus client calls).0) [
    | inl (_, failed) ↦ rw (capture, e, failed) (refl, refl)
    | inr (us, listed) ↦
        rw (capture, e, listed) (count_units-IsCounted us (blank_snapshot machine) (refl, refl))
  ]
]
