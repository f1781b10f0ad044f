-- ===== src/Server/Listen.antt =====
-- internal/server/socket_activation.go: the listener that systemd hands over, or one of its own. The
-- environment, the identifier of the process and the calls that make a listener are parameters.
mod Tests
use porcelain.Prelude.{
  ℕ, Bool, true, false, ◌||◌, Option, none, some, Result, ok, err, if◌then◌else◌, eqb, ltb, is_nil,
}
use porcelain.Text.{Text, codes}
use porcelain.Text.Number.{atoi}
use porcelain.Config.{ServerConfig}

pub data ListenError : Type 0 where
  not_present other_process no_listeners : ListenError
  not_converted : Text → ListenError

-- `file_listener` makes a listener of a file descriptor, `listen` one of an address.
pub record Sockets : Type 1 where
  pub Listener : Type 0
  pub pid : ℕ
  pub listen_pid : Text
  pub listen_fds : Text
  pub file_listener : ℕ → Result Text Listener
  pub listen : Text → Result Text Listener

-- A number below zero is refused like a text that is no number: no process has it, and it is less
-- than one listener.
module _ (sockets : Sockets) where
  open sockets use {Listener, pid, listen_pid, listen_fds, file_listener, listen}

  unfoldable pub is_this_process : Bool
  unfolding atoi
  is_this_process = elim (atoi listen_pid) [ none ↦ false | some n ↦ eqb n pid ]

  unfoldable pub has_listeners : Bool
  unfolding atoi
  has_listeners = elim (atoi listen_fds) [ none ↦ false | some n ↦ ltb 0 n ]

  unfoldable pub activated_listener : Result ListenError Listener
  unfolding is_this_process has_listeners
  activated_listener =
      if is_nil listen_pid || is_nil listen_fds
      then err not_present
      else if is_this_process
      then (if has_listeners
          then elim (file_listener 3) [ err e ↦ err (not_converted e) | ok listener ↦ ok listener ]
          else err no_listeners)
      else err other_process

  -- `Listen`: any error of the activation is dropped.
  unfoldable pub listen_on : ServerConfig → Result Text Listener
  unfolding activated_listener
  listen_on cfg =
      let own = listen cfg.address in
      if cfg.enable_socket_activation
      then elim activated_listener [ ok listener ↦ ok listener | err _ ↦ own ]
      else own
