-- ===== src/Server/Listen/Tests.antt =====
-- The listener of a process with the identifier 42.
use porcelain.Prelude.{true, ok, err, ◌≡◌, refl}
use porcelain.Text.{Text, codes}
use porcelain.Config.{ServerConfig}
use porcelain.Server.Listen.{Sockets, other_process, activated_listener, listen_on}

abbrev started_for : Text → Sockets
started_for pid = record {
  Listener = Text;
  pid = 42;
  listen_pid = pid;
  listen_fds = codes "1";
  file_listener = λ fd. ok (codes "inherited");
  listen = λ address. ok address;
}

abbrev activating : ServerConfig
activating = record { address = codes ":8443"; enable_socket_activation = true }

inherits : listen_on (started_for (codes "42")) activating ≡ ok (codes "inherited")
unfolding listen_on
inherits = refl

refuses_other_process : activated_listener (started_for (codes "41")) ≡ err other_process
unfolding activated_listener
refuses_other_process = refl

falls_back : listen_on (started_for (codes "41")) activating ≡ ok (codes ":8443")
unfolding listen_on
falls_back = refl
