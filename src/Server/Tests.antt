-- ===== src/Server/Tests.antt =====
-- Runs of the servers of minet/src/components, and the theorems at concrete inputs.
use minet_core.Prelude.{ℕ, ◌+◌, ◌-◌, true, false, ◌≡◌, refl, some, none, arith}
use minet_core.Prelude.Int.{ℤ, pos, negsuc}
use minet_core.Net.{Calls, open_socket}
use minet_core.Net.Opens.{one, new, Counts, open_socket-opens}
use minet_core.Server.{EpollCalls, create, start_async}
use minet_core.Server.Config.{Json, load_server_config, Usable, load_server_config-Usable}
use minet_core.Server.Opens.{CountsEpoll, Ready, start_async-Ready}

-- A kernel that counts descriptors, gives 3 for every socket and 4 for every epoll, and has no
-- room to listen.
abbrev Kernel : Type 0
Kernel = ℤ → ℕ

abbrev opened : Kernel → ℤ → Kernel
opened k fd x = k x + one fd x

abbrev closed : Kernel → ℤ → Kernel
closed k fd x = k x - one fd x

abbrev full : Calls Kernel
full = record {
  socket = λ k. (pos 3, opened k (pos 3));
  set_reuse = λ k fd. (pos 0, k);
  bind = λ k fd port. (pos 0, k);
  listen = λ k fd n. (negsuc 0, k);
  get_flags = λ k fd. (pos 0, k);
  set_nonblock = λ k fd flag. (pos 0, k);
  accept = λ k fd. (negsuc 0, k);
  close = λ k fd. (pos 0, closed k fd);
}

abbrev at_start : Kernel
at_start x = 0

full-Counts : Counts full (λ k x. k x)
full-Counts = record {
  socket_opens = λ k x. refl;
  socket_positive = λ k e. cc;
  set_reuse_keeps = λ k fd x. refl;
  bind_keeps = λ k fd port x. refl;
  listen_keeps = λ k fd n x. refl;
  get_flags_keeps = λ k fd x. refl;
  set_nonblock_keeps = λ k fd flag x. refl;
  close_closes = λ k fd x. refl;
}

open_socket-opens_example :
    (open_socket full at_start 80 false).1 (pos 3)
    ≡ at_start (pos 3) + new (open_socket full at_start 80 false).0 (pos 3)
open_socket-opens_example =
    open_socket-opens full (λ k x. k x) full-Counts at_start 80 false (pos 3)

abbrev roomy : Calls Kernel
roomy = record full { listen = λ k fd n. (pos 0, k) }

roomy-Counts : Counts roomy (λ k x. k x)
roomy-Counts = record {
  socket_opens = λ k x. refl;
  socket_positive = λ k e. cc;
  set_reuse_keeps = λ k fd x. refl;
  bind_keeps = λ k fd port x. refl;
  listen_keeps = λ k fd n x. refl;
  get_flags_keeps = λ k fd x. refl;
  set_nonblock_keeps = λ k fd flag x. refl;
  close_closes = λ k fd x. refl;
}

-- The epoll is opened, and then cannot monitor.
abbrev no_monitor : EpollCalls Kernel
no_monitor = record {
  create = λ k. (pos 4, opened k (pos 4));
  monitor = λ k e fd. (negsuc 0, k);
  unmonitor = λ k e fd. (pos 0, k);
  wait = λ k e n. (none, k);
}

no_monitor-CountsEpoll : CountsEpoll no_monitor (λ k x. k x)
no_monitor-CountsEpoll = record {
  create_opens = λ k x. refl;
  create_positive = λ k e. cc;
  monitor_keeps = λ k e fd x. refl;
}

start_async-Ready_example :
    Ready roomy no_monitor
      (λ k x. k x)
      roomy-Counts
      no_monitor-CountsEpoll
      at_start
      (start_async roomy no_monitor (create 80 true) at_start)
start_async-Ready_example =
    start_async-Ready roomy no_monitor (λ k x. k x) roomy-Counts no_monitor-CountsEpoll at_start
      (create 80 true) at_start (record { holds = λ x. refl; stopped = λ e. (refl, refl) })

-- A configuration that is empty.
abbrev empty : Json Unit
empty = record {
  text = λ c key default. some default;
  int = λ c key default. some default;
  unsigned = λ c key default. some default;
}

load_server_config-Usable_example : Usable (load_server_config empty 8 tt)
load_server_config-Usable_example = load_server_config-Usable empty 8 tt (omega arith)
