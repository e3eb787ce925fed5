-- ===== src/Sqlite/Connection/Again.antt =====
-- `esql_reconnect_handler` with the hooks of this backend.
use esskyuehl.Prelude.{
  ℕ, suc, [], ◌≡◌, refl, ap, Bool, true, false, not, ◌∷◌, none, arith, if◌then◌else◌,
}
use esskyuehl.State.{
  World, Env, Io, idle, on_conn, on_pool, connect_event, backend_connect, event_add,
  disconnect_event,
}
use esskyuehl.Connect.{post}
use esskyuehl.Events.{reconnect_handler, after_reconnect}
use esskyuehl.Sqlite.Connection.{Handles, disconnect, connect_cb, open_thread}
use esskyuehl.Sqlite.Connection
use esskyuehl.Sqlite.Connection.Opening.{Threaded, open_thread-arrived}
use esskyuehl.Events.Fifo.{Holds}

-- What the handler leaves where the backend has no database handle yet.
abbrev gave_up : World → World
gave_up w = post disconnect_event (record w {
  e = record (w.e) { reconnect_timer = false; db = false };
  acts = backend_connect ∷ w.acts;
})

reconnect_handler-gave_up :
    (env : Env) (w : World) → Threaded env → reconnect_handler env w ≡ gave_up w
unfolding reconnect_handler
reconnect_handler-gave_up env w t =
    ap
      (λ (r : Io × Bool).
        let u = record w {
          e = record (w.e) { reconnect_timer = false; db = r.1 };
          acts = backend_connect ∷ w.acts;
        } in
        if not r.1 then post disconnect_event u else after_reconnect env r.0 u)
      (t.starts (backend_connect ∷ w.acts))

-- `esql_reconnect_handler` on a lost SQLite connection of its own with nothing that waits and no
-- connect callback, where the handle is set by the thread only after the handler's test for it: the
-- handler posts a disconnect event and leaves the object unconnected, but the thread that it
-- started goes on: when that has opened a database, the object is connected and idle and a connect
-- event is the last call made. The file name that the thread opens is NULL, since
-- `esql_sqlite_disconnect` gave it up and the handler calls no `setup`.
pub reconnect_handler-Threaded :
    (env : Env) (w : World) (b : Handles) (fuel : ℕ)
    → Threaded env
    → b.db ≡ true
    → w.e.connected ≡ false
    → w.e.pool_member ≡ false
    → w.e.connect_cb ≡ none
    → Holds w.e []
    → let v = reconnect_handler env w in
      let r = open_thread env (suc (suc fuel)) true v in
      (v.acts ≡ event_add disconnect_event on_conn ∷ backend_connect ∷ w.acts)
      × (v.e.connected ≡ false)
      × (r.0.acts ≡ event_add connect_event on_conn ∷ v.acts)
      × (r.0.e.connected ≡ true)
      × (r.0.e.current ≡ idle)
      × (r.1 ≡ none)
      × ((Connection.connect true (disconnect b)).0.conn_str ≡ none)
reconnect_handler-Threaded env w b fuel t d c a n h =
    rw (reconnect_handler-gave_up env w t, open_thread-arrived env t (gave_up w) fuel a n held)
      (
        ap
            (λ (m : Bool).
              event_add disconnect_event (if m then on_pool else on_conn)
              ∷ backend_connect
              ∷ w.acts)
            a,
        c,
        unfold connect_cb in
            ap
              (λ (m : Bool).
                event_add connect_event (if m then on_pool else on_conn) ∷ (gave_up w).acts)
              a,
        refl,
        refl,
        refl,
        unfold Connection.connect disconnect in ground arith,
      )
  where
    held : Holds (gave_up w).e []
    held = record { funcs = h.funcs; params = h.params; ids = h.ids }
