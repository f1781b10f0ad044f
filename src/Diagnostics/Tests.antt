-- ===== src/Diagnostics/Tests.antt =====
-- A capture on a toy host, and its theorem.
use porcelain.Prelude.{List, [], ◌∷◌, none, some, ok, length}
use porcelain.Text.{Text, codes}
use porcelain.Host.{Host}
use porcelain.Dbus.{Bus, Value, string_value, rows_body, new_client}
use porcelain.Diagnostics.{systemd, Module, Machine, capture}
use porcelain.Diagnostics.Laws.{IsCounted, capture-IsCounted}

abbrev quiet : Host
quiet = record { run = λ w c. record { output = []; failure = none }; now = λ w. length w }

-- A row of `ListUnits`.
abbrev row : Text → Text → List Value
row name state =
    string_value name
    ∷ string_value []
    ∷ string_value (codes "loaded")
    ∷ string_value state
    ∷ string_value []
    ∷ string_value []
    ∷ string_value []
    ∷ string_value []
    ∷ string_value []
    ∷ string_value []
    ∷ []

abbrev bus : Bus
bus = record {
  answer = λ calls c. ok (
      rows_body (
        row (codes "sshd.service") (codes "active")
        ∷ row (codes "boot.mount") (codes "active")
        ∷ row (codes "nfs.service") (codes "failed")
        ∷ []));
  mismatch = [];
}

abbrev diagnostics : Module
diagnostics = record { client = some new_client; mode = systemd; note = []; cached = none }

abbrev machine : Machine
machine = record {
  hostname = codes "tower";
  goos = codes "linux";
  goarch = codes "amd64";
  uptime = 60;
}

capture-IsCounted_example : IsCounted (capture quiet bus machine diagnostics [] []).snapshot
capture-IsCounted_example = capture-IsCounted quiet bus machine diagnostics [] []
