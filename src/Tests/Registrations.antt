-- ===== src/Tests/Registrations.antt =====
-- A connection that takes functions and modules, and refuses collations.
use sqlite3_ext.Prelude.{ℕ, ◌≡◌, refl, true, false, [], ◌∷◌, some, Text}
use sqlite3_ext.Version.{Build, supports}
use sqlite3_ext.Function.Options.{default}
use sqlite3_ext.Vtab.Modules.{Module, eponymous_new}
use sqlite3_ext.Function.Registration.{
  RegisterApi, create_scalar_function_object, create_aggregate_function, create_collation,
  create_module,
}
use sqlite3_ext.Function.Registration.Ownership.{
  Fate, taken, dropped, settled_by, Destroys, create-settled,
}

abbrev register_api : RegisterApi Fate ℕ
register_api = record {
  create_function_v2 = λ n o k t s. (0, taken s);
  create_function = λ n o k t s. (0, taken s);
  remove_function = λ n k s. (0, s);
  create_window_function = λ n o k t s. (0, taken s);
  create_collation_v2 = λ n t s. (21, s);
  collation_needed = λ t s. (0, s);
  create_module_v2 = λ n m t s. (0, taken s);
  overload_function = λ n k s. (0, s);
  errmsg = λ s. [];
  to_str = some;
  drop_box = λ t s. dropped s;
}

register_api-Destroys : Destroys register_api (λ s. s)
register_api-Destroys = record {
  function_v2 = λ n o k t s. (refl, refl);
  window_function = λ n o k t s. (refl, refl);
  module_v2 = λ n m t s. (refl, refl);
  collation_v2 = λ n t s. (refl, refl);
  box = λ t s. refl;
}

abbrev modern_build : Build
modern_build = record { modern = true; version = 3038005 }

abbrev boxed : Fate
boxed = record { drops = 0; held = false }

abbrev module_of : Module
module_of = eponymous_new modern_build

abbrev f_name : Text
f_name = 102 ∷ []

create-settled_example :
    let f = create_scalar_function_object register_api modern_build f_name default 7 boxed in
    let a = create_aggregate_function register_api modern_build f_name default 7 boxed in
    let c = create_collation register_api f_name 7 boxed in
    let v = create_module register_api f_name module_of 7 boxed in
    (f.1 ≡ settled_by f.0 boxed)
    × (a.1 ≡ settled_by a.0 boxed)
    × (c.1 ≡ settled_by c.0 boxed)
    × (v.1 ≡ settled_by v.0 boxed)
unfolding supports
create-settled_example =
    create-settled register_api (λ s. s) register_api-Destroys modern_build f_name f_name default
      module_of 7 boxed refl refl
