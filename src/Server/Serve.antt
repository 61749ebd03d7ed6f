-- ===== src/Server/Serve.antt =====
-- main of lab5-src/main.c and the loops of lab5-src/server.c that accept connections. What getopt and
-- accept give in turn, and if fork and waitpid succeed, are parameters; a connection is the bytes that
-- come in by it, and is `none` where accept_connection returns NULL.
pub mod Served
use cs.Common.{
  ℤ, pos, negsuc, ℕ, suc, ◌+◌, Bool, true, false, List, [], ◌∷◌, Option, none, some, length,
}
use cs.Server.Directory.{Info, Stat, Sent, sent}
use cs.Server.Respond.{Found, Handled, answered, handle}

-- concurrency_mode
pub data ConcurrencyMode : Type 0 where
  e_no_concurrency e_fork_per_request e_thread_per_request e_thread_pool : ConcurrencyMode

-- What getopt returns; any other letter is unknown.
pub data Flag : Type 0 where
  flag_h flag_f flag_t : Flag
  flag_p : (optarg : List ℕ) → Flag
  unknown : Flag

-- The mode and the number of threads, or what main returns behind the usage.
pub data Chosen : Type 0 where
  mode_chosen : ConcurrencyMode → (num_threads : ℕ) → Chosen
  returns : ℤ → Chosen

-- DEFAULT_PORT
abbrev pub default_port : ℕ
default_port = 8888

-- What handle made of the connections so far, and if the server still runs.
pub record Service : Type 0 where
  pub handled : List Handled
  pub is_running : Bool

abbrev pub one_more_handled : Handled → Service → Service
one_more_handled r s = record s { handled = r ∷ s.handled }

abbrev pub stopped_by : Handled → Service
stopped_by r = record { handled = r ∷ []; is_running = false }

module _ (files : List ℕ → Found) (stat : List ℕ → Stat) (readdir : List ℕ → Option (List (List ℕ)))
    (qsort : List Info → List Info) (atoi : List ℕ → ℕ) where
  -- The loop over the options.
  unfoldable pub choose_mode : List Flag → ConcurrencyMode → (num_threads : ℕ) → Chosen
  choose_mode [] mode n = mode_chosen mode n
  choose_mode (flag_h ∷ flags) mode n = returns (pos 0)
  choose_mode (flag_f ∷ flags) e_no_concurrency n = choose_mode flags e_fork_per_request n
  choose_mode (flag_t ∷ flags) e_no_concurrency n = choose_mode flags e_thread_per_request n
  choose_mode (flag_p optarg ∷ flags) e_no_concurrency n =
      choose_mode flags e_thread_pool (atoi optarg)
  choose_mode (unknown ∷ flags) mode n = returns (pos 1)
  choose_mode (flag ∷ flags) mode n = returns (negsuc 0)

  -- handle at a connection: a null pointer is a fault. A round more than there are bytes is enough.
  abbrev pub handle_connection : Option (List ℕ) → Handled
  handle_connection none = Handled.fault
  handle_connection (some incoming) =
      handle files stat readdir qsort atoi (length incoming + 1) incoming

  -- A fault ends the process that it is in.
  abbrev pub served : Handled → Service → Service
  served (answered (sent text)) s = one_more_handled (answered (sent text)) s
  served r s = stopped_by r

  unfoldable pub run_linear_server : List (Option (List ℕ)) → Service
  run_linear_server [] = record { handled = []; is_running = true }
  run_linear_server (socket ∷ sockets) =
      served (handle_connection socket) (run_linear_server sockets)

  -- A child handles the connection, and the parent waits for it.
  abbrev pub served_by_child : Option Bool → Handled → Service → Service
  served_by_child none r s = s
  served_by_child (some true) r s = one_more_handled r s
  served_by_child (some false) r s = stopped_by r

  -- `forks` tells of each fork if it succeeds, and then if waitpid does.
  unfoldable pub run_forking_server :
      (forks : ℕ → Option Bool) → (i : ℕ) → List (Option (List ℕ)) → Service
  run_forking_server forks i [] = record { handled = []; is_running = true }
  run_forking_server forks i (socket ∷ sockets) =
      served_by_child (forks i) (handle_connection socket)
        (run_forking_server forks (suc i) sockets)

  -- run_threaded_server and run_thread_pool_server return at once.
  abbrev pub nothing_served : Service
  nothing_served = record { handled = []; is_running = false }

  abbrev pub run_server :
      (forks : ℕ → Option Bool) → ConcurrencyMode → List (Option (List ℕ)) → Service
  run_server forks e_no_concurrency sockets = run_linear_server sockets
  run_server forks e_fork_per_request sockets = run_forking_server forks 0 sockets
  run_server forks e_thread_per_request sockets = nothing_served
  run_server forks e_thread_pool sockets = nothing_served

  -- main, with a port and the acceptor that create_socket_acceptor makes for it, if any. Without
  -- arguments it prints the usage.
  pub data MainResult : Type 0 where
    serves : Service → MainResult
    ends : ℤ → MainResult

  abbrev pub port_number : Option (List ℕ) → ℕ
  port_number none = default_port
  port_number (some arg) = atoi arg

  abbrev pub accepted :
      Option (List (Option (List ℕ))) → (List (Option (List ℕ)) → Service) → MainResult
  accepted none run = ends (pos 1)
  accepted (some sockets) run = serves (run sockets)

  abbrev pub start_server :
      (forks : ℕ → Option Bool)
      → (acceptor : ℕ → Option (List (Option (List ℕ)))) → (port : Option (List ℕ)) → Chosen
      → MainResult
  start_server forks acceptor port (returns status) = ends status
  start_server forks acceptor port (mode_chosen mode num_threads) =
      accepted (acceptor (port_number port)) (run_server forks mode)

  unfoldable pub server_main :
      (forks : ℕ → Option Bool)
      → (acceptor : ℕ → Option (List (Option (List ℕ)))) → (has_arguments : Bool) → List Flag
      → (port : Option (List ℕ)) → MainResult
  server_main forks acceptor false flags port = ends (pos 0)
  server_main forks acceptor true flags port =
      start_server forks acceptor port (choose_mode flags e_no_concurrency 0)
