-- ===== src/Examples/Calls.antt =====
-- Queries on single connections and in a pool.
use esskyuehl.Prelude.{◌≡◌, refl, true, false, [], ◌∷◌, none, some, inl, arith}
use esskyuehl.State.{Conn, World, mysql, init, update}
use esskyuehl.Query.{next_id, query}
use esskyuehl.Query.Accept.{Accepted, Refused, query-Accepted, query-Refused}
use esskyuehl.Events.{connect_handler, fd_handler, next_step, rebalance, run, call_complete_step}
use esskyuehl.Events.Fifo.{text, Holds, Issued, next_step-Issued}
use esskyuehl.Events.Rebalance.Queues.{Outcome, rebalance-Balanced}
use esskyuehl.Events.Termination.{Calm}
use esskyuehl.Events.Termination.Runs.{run-none}
use esskyuehl.Events.Delivery.{Silent, HandedOut, call_complete-HandedOut}
use esskyuehl.Events.Members.{KeepsCount}
use esskyuehl.Events.Drain.{Smooth, Drained, story, sent}
use esskyuehl.Events.Drain.Working.{numbered, ask_all}
use esskyuehl.Events.Drain.Queries.{IsIdle, ask_all-Drained}
use esskyuehl.Examples.{quiet, failing, ready, busy, waiting, alone, in_pool, second}

calm : Calm quiet
calm = record {
  connect_calls = λ cb p w. omega arith;
  result_calls = λ cb r p w. omega arith;
  connect_stays = λ cb p w h. h;
  result_stays = λ cb r p w h. h;
}

silent : Silent quiet
silent = record {
  no_delivery = λ cb r p w n. refl;
  same_id = λ cb r p w. refl;
  same_more = λ cb r p w n. refl;
}

keeps : KeepsCount quiet
keeps = record { counts = λ cb p w h. h; connected = λ cb p w h. h }

waits : Holds waiting (text (b'r' ∷ []) 6 ∷ [])
waits = record { funcs = refl; params = refl; ids = refl }

waits_in_pool : Holds (in_pool waiting) (text (b'r' ∷ []) 6 ∷ [])
waits_in_pool = record { funcs = refl; params = refl; ids = refl }

-- The running query 5, with a callback.
abbrev awaited : World
awaited = record (alone busy) { query_callbacks = update (λ n. none) 5 (some 1) }

call_complete-HandedOut_example : HandedOut 5 5 awaited (call_complete_step quiet awaited).0
call_complete-HandedOut_example = call_complete-HandedOut quiet silent awaited 5 refl

run-none_example : (run quiet 6 connect_handler (alone waiting)).1 ≡ none
run-none_example = run-none quiet 6 connect_handler (alone waiting) calm (inl refl) (omega arith)

rebalance-Balanced_example :
    Outcome (second ready) (rebalance (second ready)) ((text (b'r' ∷ []) 6 ∷ []) ∷ []) [] []
rebalance-Balanced_example =
    rebalance-Balanced (second ready) ((text (b'r' ∷ []) 6 ∷ []) ∷ []) [] [] (waits_in_pool, tt) tt
      (record { funcs = refl; params = refl; ids = refl })

next_step-Issued_example : Issued (b'r' ∷ []) 6 [] none [] (next_step quiet (alone waiting)).0
next_step-Issued_example = next_step-Issued quiet (b'r' ∷ []) 6 [] (alone waiting) waits

-- A connection to MySQL whose query still runs.
abbrev to_mysql : Conn
to_mysql = record waiting { kind = mysql; database_hook = true }

query_id_seven : (query quiet none (some (b's' ∷ [])) (alone ready)).1 ≡ 7
unfolding query
query_id_seven = refl

query-Accepted_example :
    ((query quiet none (some (b's' ∷ [])) (alone ready)).1 ≡ next_id 6)
    × Accepted
        (next_id 6)
        none
        (b's' ∷ [])
        (alone ready)
        (query quiet none (some (b's' ∷ [])) (alone ready)).0
query-Accepted_example =
    query-Accepted quiet none (b's' ∷ []) (alone ready) (λ e. ground (arith, query_id_seven, e))

query_refused_zero : (query failing none (some (b's' ∷ [])) (alone ready)).1 ≡ 0
unfolding query
query_refused_zero = refl

query-Refused_example :
    Refused (alone ready) (query failing none (some (b's' ∷ [])) (alone ready)).0
query-Refused_example =
    query-Refused failing none (b's' ∷ []) (alone ready) (omega arith) query_refused_zero

-- The second member of the pool, whose connection is being set up.
abbrev coming : Conn
coming = record ready { connected = false; current = init }

smooth : Smooth quiet
smooth = record {
  at_once = λ h. refl;
  no_error = λ h. refl;
  same_e = λ cb r p w. refl;
  same_trace = λ cb r p w. refl;
}

ready-IsIdle : IsIdle (alone ready)
ready-IsIdle = record {
  is_up = refl;
  has_db = refl;
  is_current = refl;
  waits = record { funcs = refl; params = refl; ids = refl };
  alone = refl;
}

ask_all-Drained_example :
    Drained
      (story (next_id 6) (numbered (next_id 6) ((b's' ∷ []) ∷ [])) (sent (b'q' ∷ []) ∷ []))
      (fd_handler quiet 6 (ask_all quiet ((b'q' ∷ []) ∷ (b's' ∷ []) ∷ []) (alone ready)))
ask_all-Drained_example =
    ask_all-Drained quiet smooth (b'q' ∷ []) ((b's' ∷ []) ∷ []) 6 (alone ready) ready-IsIdle
      (omega arith)
