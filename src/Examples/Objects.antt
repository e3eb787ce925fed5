-- ===== src/Examples/Objects.antt =====
-- Objects of the library: connections, pools, results and row layouts.
use esskyuehl.Prelude.{
  pos, negsuc, ℕ, ◌≡◌, refl, true, false, List, [], ◌∷◌, ◌++◌, none, some, arith, All, length,
}
use esskyuehl.State.{sqlite, Conn, World, members, connect_event, event_add, on_pool}
use esskyuehl.Object.{free_pool}
use esskyuehl.Object.Library.{
  Answers, EventTypes, Lib, init, shutdown, stopped, used, shutdown-init,
}
use esskyuehl.Object.Getters.{pool, connect_timeout_get}
use esskyuehl.Query.{query}
use esskyuehl.Pool.{blank_pool, pool_query, pool_connect_timeout_set}
use esskyuehl.Pool.Settings.{TimesOut, pool_connect_timeout_set-get}
use esskyuehl.Pool.Free.{pool_free, left_dead, pool_free-left_dead, pool_free-post}
use esskyuehl.Pool.Idle.{Chosen}
use esskyuehl.Pool.Asking.{pool_query-Chosen}
use esskyuehl.Connect.{post}
use esskyuehl.Result.{Result, RowIterator, row_iterator_new, row_iterator_free}
use esskyuehl.Result.Freeing.{of_pool, unrefs_freeing, rows_of, asked_of, unrefs_freeing-rows}
use esskyuehl.Result.References.{Yields, row_iterator_lem}
use esskyuehl.Desc.{Desc, module_desc_get}
use esskyuehl.Desc.Layout.{Fit, module_desc_get-Fit}
use esskyuehl.Examples.{quiet, ready, waiting, in_pool, second}

abbrev up_pool : World
up_pool = record (second ready) { ep = record blank_pool { size = 2; connected = true } }

pool_query-Chosen_example :
    (xs : List Conn) × (c d : Conn) × (ys : List Conn) × (members up_pool ≡ xs ++ c ∷ ys)
    × Chosen 0 (members up_pool) (length xs)
    × (pool_query quiet none (some (b'q' ∷ [])) up_pool
        ≡ query quiet none (some (b'q' ∷ [])) (record up_pool { before = xs; e = c; after = ys }))
    × (members (pool_query quiet none (some (b'q' ∷ [])) up_pool).0 ≡ xs ++ d ∷ ys)
pool_query-Chosen_example = pool_query-Chosen quiet none (b'q' ∷ []) up_pool refl

abbrev all_well : Answers
all_well = record {
  eina_ok = true;
  log_ok = true;
  ecore_ok = true;
  mempool_ok = true;
  modules_ok = true;
  found = sqlite ∷ [];
  new_types = record { error_type = 21; result_type = 22; connect_type = 23; disconnect_type = 24 };
}

-- The types of events before the first init.
abbrev no_types : EventTypes
no_types = record { error_type = 0; result_type = 0; connect_type = 0; disconnect_type = 0 }

abbrev in_use : Lib
in_use = (init all_well (stopped (pos 0) no_types)).0

shutdown-init_example :
    ((shutdown (used ((1, 2) ∷ []) ((1, 3) ∷ []) (init all_well (stopped (pos 0) no_types)).0)).0
      ≡ stopped (pos 0) all_well.new_types)
    × ((shutdown (init all_well in_use).0).0 ≡ in_use)
unfolding init
shutdown-init_example =
    shutdown-init all_well no_types ((1, 2) ∷ []) ((1, 3) ∷ []) 0 in_use refl refl

-- Two rows of one column, with two references.
abbrev rows : Result ℕ
rows = record {
  rows = (1 ∷ []) ∷ (2 ∷ []) ∷ [];
  row_count = 2;
  names = some ((b'a' ∷ []) ∷ []);
  refcount = 2;
}

unrefs_freeing-rows_example :
    ((unrefs_freeing 2 (of_pool ready (waiting ∷ [])) false (some rows, [])).0 ≡ none)
    × (rows_of (unrefs_freeing 2 (of_pool ready (waiting ∷ [])) false (some rows, [])).1
        ≡ (1 ∷ []) ∷ (2 ∷ []) ∷ [])
    × (asked_of (unrefs_freeing 2 (of_pool ready (waiting ∷ [])) false (some rows, [])).1
        ≡ ready ∷ [])
    × ((unrefs_freeing 1 (of_pool ready (waiting ∷ [])) false (some rows, [])).1 ≡ [])
unrefs_freeing-rows_example =
    unrefs_freeing-rows 1 false (of_pool ready (waiting ∷ [])) ready rows refl refl

row_iterator_lem_example :
    (it : RowIterator ℕ) × (row_iterator_new rows ≡ some it)
    × Yields rows.rows it
    × (row_iterator_free it ≡ some rows)
row_iterator_lem_example = row_iterator_lem rows (λ e. cc) (omega arith)

module_desc_get-Fit_example :
    (d : Desc) × (module_desc_get (4 ∷ 16 ∷ []) ≡ some d) × Fit d.members (4 ∷ 16 ∷ []) d.size
module_desc_get-Fit_example =
    module_desc_get-Fit 4 (16 ∷ []) (omega arith, (omega arith, tt)) (omega arith)

pool_free-left_dead_example :
    (pool_free quiet true (second ready)).0 ≡ left_dead (in_pool waiting ∷ (second ready).e ∷ [])
pool_free-left_dead_example = pool_free-left_dead quiet true (second ready)

pool_free-post_example :
    ((post connect_event (second ready)).acts ≡ event_add connect_event on_pool ∷ [])
    × ((free_pool (post connect_event (second ready)).ep).1 ≡ true)
    × (us : List Conn) × (vs : List Conn) × ((pool_free quiet true
          (post connect_event (second ready))).0
        ≡ us ++ record ((post connect_event (second ready)).e) { dead = true } ∷ vs)
pool_free-post_example =
    pool_free-post quiet true connect_event (second ready) refl refl (omega arith)

pool_connect_timeout_set-get_example :
    (connect_timeout_get (some (pool (pool_connect_timeout_set (negsuc 4) (second ready)).ep))
      ≡ some (negsuc 4))
    × All (TimesOut (negsuc 4)) (members (pool_connect_timeout_set (negsuc 4) (second ready)))
pool_connect_timeout_set-get_example = pool_connect_timeout_set-get (negsuc 4) (second ready)
