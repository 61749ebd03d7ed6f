-- ===== src/Server/Serve/Served.antt =====
-- What the loops of lab5-src/server.c make of connections.
use cs.Common.{ℕ, suc, ◌≡◌, refl, sym, ap, ◌∙◌, Bool, true, List, [], ◌∷◌, Option, some, All}
use cs.Server.Directory.{Info, Stat, sent}
use cs.Server.Respond.{Found, Handled, answered}
use cs.Server.Serve.{one_more_handled, handle_connection, run_linear_server, run_forking_server}

module _ (files : List ℕ → Found) (stat : List ℕ → Stat) (readdir : List ℕ → Option (List (List ℕ)))
    (qsort : List Info → List Info) (atoi : List ℕ → ℕ) where
  abbrev pub handled_all : List (Option (List ℕ)) → List Handled
  handled_all [] = []
  handled_all (socket ∷ sockets) =
      handle_connection files stat readdir qsort atoi socket ∷ handled_all sockets

  -- The forking server handles every connection by itself, whatever the others come to.
  pub run_forking_server-all :
      (forks : ℕ → Option Bool) (i : ℕ) (sockets : List (Option (List ℕ)))
      → ((j : ℕ) → forks j ≡ some true)
      → run_forking_server files stat readdir qsort atoi forks i sockets
        ≡ record { handled = handled_all sockets; is_running = true }
  unfolding run_forking_server
  run_forking_server-all forks i [] h = refl
  run_forking_server-all forks i (socket ∷ sockets) h = rw (h i) (
      ap (one_more_handled (handle_connection files stat readdir qsort atoi socket))
        (run_forking_server-all forks (suc i) sockets h))

  -- The connection gets its response.
  abbrev pub IsAnswered : Option (List ℕ) → Type 0
  IsAnswered socket =
      (text : List ℕ) × (handle_connection files stat readdir qsort atoi socket
        ≡ answered (sent text))

  -- So does the linear server, if none of them is a fault.
  pub run_linear_server-all :
      (sockets : List (Option (List ℕ)))
      → All IsAnswered sockets
      → run_linear_server files stat readdir qsort atoi sockets
        ≡ record { handled = handled_all sockets; is_running = true }
  unfolding run_linear_server
  run_linear_server-all [] h = refl
  run_linear_server-all (socket ∷ sockets) h =
      let (text, e) = h.0 in
      rw e (ap (one_more_handled (answered (sent text))) (run_linear_server-all sockets h.1))

  -- Where every connection gets its response and every fork and wait succeeds, the server that forks
  -- and the one that does not handle the same connections, in the same way and order.
  pub run_servers-same :
      (forks : ℕ → Option Bool) (sockets : List (Option (List ℕ)))
      → ((j : ℕ) → forks j ≡ some true)
      → All IsAnswered sockets
      → run_linear_server files stat readdir qsort atoi sockets
        ≡ run_forking_server files stat readdir qsort atoi forks 0 sockets
  run_servers-same forks sockets h answers =
      run_linear_server-all sockets answers ∙ sym (run_forking_server-all forks 0 sockets h)
