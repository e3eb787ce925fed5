-- ===== src/Examples/Models.antt =====
-- A model over a SQLite connection, and its tables.
use esskyuehl.Prelude.{◌≡◌, refl, List, [], ◌∷◌, ◌++◌, none, some, Bytes, codes, length}
use esskyuehl.State.{Conn, sqlite}
use esskyuehl.Object.{blank}
use esskyuehl.Model.{Masks, Model, table_add}
use esskyuehl.Model.Announced.{Op, loads, unloads, comes_up, Heard, apply_ops, apply_ops-announced}
use esskyuehl.Model.Tables.{table_add-create_text}
use esskyuehl.Examples.{quiet, ready, alone}

abbrev masks : Masks
masks = record {
  unloaded = 0;
  error = 1;
  loaded_properties = 2;
  loaded_children = 4;
  loaded = 6;
  loading_properties = 8;
  loading_children = 16;
  loading = 24;
}

abbrev model_of : Conn → Model
model_of c = record {
  world = alone c;
  self = 11;
  properties_list = [];
  children = 0;
  addr = codes "f.db";
  user = [];
  password = [];
  database_name = some (codes "d");
  table_name = none;
  row_name = [];
  row_type = [];
  status = 0;
  announced = [];
}

abbrev unloaded_model : Model
unloaded_model = model_of (record blank { kind = sqlite; database = some (codes "d") })

abbrev open_model : Model
open_model = model_of (record ready { database = some (codes "d") })

table_add-create_text_example :
    (sent_text : Bytes) × (rest : Bytes) × ((table_add masks quiet
        (some (codes "t"))
        (codes "r")
        (codes "INT")
        open_model).0.world.e.cur_query
      ≡ some sent_text)
    × (codes "CREATE TABLE " ++ codes "t" ≡ sent_text ++ rest)
    × (length rest ≡ 14)
table_add-create_text_example =
    table_add-create_text masks quiet (codes "t") (codes "r") (codes "INT") open_model (λ h. refl)
      refl refl refl refl (λ e. cc)

-- A model that is loaded, connected, asked to load again and unloaded.
abbrev story_ops : List Op
story_ops = loads ∷ comes_up ∷ loads ∷ unloads ∷ []

apply_ops-announced_example : Heard 0 (apply_ops masks quiet story_ops unloaded_model)
apply_ops-announced_example = apply_ops-announced masks quiet story_ops unloaded_model refl
