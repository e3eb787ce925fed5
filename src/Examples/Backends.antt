-- ===== src/Examples/Backends.antt =====
-- The backends' answers, and what queries come to by them.
use esskyuehl.Prelude.{◌≡◌, refl, List, [], ◌∷◌, none, some, arith}
use esskyuehl.State.{Env, wants_both}
use esskyuehl.Query.{query, next_id}
use esskyuehl.Events.{event_error, fd_handler}
use esskyuehl.Sqlite.Connection.Asking.{Stepping, IsOpen, Answered, end_thread, end_thread-Answered}
use esskyuehl.Sqlite.{
  Cell, text_cell, integer_cell, null_cell, Answer, busy, done, row, ValueType, Work, out, query_cb,
  thread_over,
}
use esskyuehl.Sqlite.Steps.{Delivers, ends, waits, comes, at_work, busies, query_cb-busies}
use esskyuehl.Postgresql.{Messages, error_get}
use esskyuehl.Postgresql.Errors.{query-error_get}
use esskyuehl.Examples.{quiet, failing, ready, alone}

-- A member that takes any cell.
abbrev take_any : ValueType → ValueType → Cell → Cell
take_any m t c = c

-- A row, a busy answer, another row and the end.
abbrev steps : List Answer
steps = row (integer_cell 1 ∷ []) ∷ busy ∷ row (text_cell [] ∷ []) ∷ done ∷ []

abbrev step_rows : List (List Cell)
step_rows = (integer_cell 1 ∷ []) ∷ (text_cell [] ∷ []) ∷ []

steps_Deliver : Delivers 0 steps step_rows
steps_Deliver = comes (omega arith) (waits (omega arith) (comes (omega arith) (ends (omega arith))))

abbrev idle_work : Work Cell
idle_work = at_work null_cell take_any 1 0 none

query_cb-busies_example :
    (query_cb null_cell take_any 1 0 (busies null_cell take_any 1 0 999 steps) idle_work
      ≡ some (out null_cell take_any 1 0 idle_work))
    × (thread_over null_cell take_any 1 0 (out null_cell take_any 1 0 idle_work) ≡ event_error)
query_cb-busies_example = query_cb-busies null_cell take_any 1 0 999 steps idle_work refl refl

abbrev messages : Messages
messages = record { of_connection = some []; of_result = none; of_status = some (b'e' ∷ []) }

query-error_get_example : (query failing none (some (b'q' ∷ [])) (alone ready)).1 ≡ 0
unfolding error_get
query-error_get_example =
    query-error_get failing (λ h. messages) none (some (b'q' ∷ [])) (alone ready) (λ h. refl)
      (λ h. refl) refl

-- A backend that steps statements in threads.
abbrev stepping : Env
stepping = record quiet { io = λ h. wants_both; fd_get = λ h. none }

stepping-Stepping : Stepping stepping
stepping-Stepping = record { in_thread = λ h. refl; no_error = λ h. refl }

ready-IsOpen : IsOpen (alone ready)
ready-IsOpen = record {
  is_up = refl;
  has_db = refl;
  is_at_rest = refl;
  is_alone = refl;
  is_empty = record { funcs = refl; params = refl; ids = refl };
  no_job = refl;
  no_fdh = refl;
  no_timer = refl;
}

end_thread-Answered_example :
    ((query stepping (some 3) (some (b'q' ∷ [])) (alone ready)).1 ≡ next_id 6)
    × Answered
        (some 3)
        (b'q' ∷ [])
        2
        (query stepping (some 3) (some (b'q' ∷ [])) (alone ready))
        (fd_handler stepping 1 (query stepping (some 3) (some (b'q' ∷ [])) (alone ready)).0)
        (end_thread null_cell take_any 1 0 stepping 2
          (query_cb null_cell take_any 1 0 steps (at_work null_cell take_any 1 0 none))
          (fd_handler stepping 1 (query stepping (some 3) (some (b'q' ∷ [])) (alone ready)).0).0)
end_thread-Answered_example =
    end_thread-Answered null_cell take_any 1 0 stepping (some 3) (b'q' ∷ []) (alone ready) 0 steps
      step_rows stepping-Stepping ready-IsOpen refl steps_Deliver
