-- ===== src/Examples/Modules.antt =====
-- A directory of modules.
use esskyuehl.Prelude.{◌≡◌, ◌||◌, refl, true, false, List, [], ◌∷◌, some, arith, codes}
use esskyuehl.State.{World, EsqlType, mysql, sqlite, is_no_type}
use esskyuehl.Object.{type_set, same_type}
use esskyuehl.Object.Modules.{
  ModuleFile, AllNamed, file_name, check_all, offered, type_set-check_all,
}

abbrev files : List ModuleFile
files =
    record { path = codes "/l/sqlite.so"; loads = true; symbol = some sqlite }
    ∷ record { path = codes "/l/mysql.la"; loads = true; symbol = some mysql }
    ∷ []

named : AllNamed files
unfolding file_name
named = ((codes "sqlite.so", refl, omega arith), ((codes "mysql.la", refl, omega arith), tt))

type_set-check_all_example :
    (modules : List EsqlType) × (check_all (codes ".so") files [] ≡ some modules)
    × ((type : EsqlType) (w : World)
        → is_no_type type ≡ false
        → (type_set modules type w).1
          ≡ (offered (codes ".so") type files || same_type w.e.kind type))
type_set-check_all_example = type_set-check_all (codes ".so") files refl named

found : check_all (codes ".so") files [] ≡ some (sqlite ∷ [])
unfolding check_all
found = refl
