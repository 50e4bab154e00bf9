-- ===== src/Linking/Guards.antt =====
-- The calls of newer functions in the crate, each in the arm of a version guard: the version, and the
-- members of sqlite3_api_routines that the arm calls.
use Prim.Native.String.{String}
use sqlite3_ext.Prelude.{ℕ, List, [], ◌∷◌}

pub record Guard : Type 0 where
  pub version : ℕ
  pub calls : List String

abbrev guard : ℕ → String → Guard
guard v n = record { version = v; calls = n ∷ [] }

abbrev malloc_guard : Guard
malloc_guard = guard 3008007 "malloc64"

abbrev bind_blob_guard : Guard
bind_blob_guard = guard 3008007 "bind_blob64"

abbrev bind_str_guard : Guard
bind_str_guard = guard 3008007 "bind_text64"

abbrev pub bind_slice_guard : Guard
bind_slice_guard = guard 3008007 "bind_blob64"

abbrev bind_pointer_guard : Guard
bind_pointer_guard = guard 3020000 "bind_pointer"

abbrev result_static_str_guard : Guard
result_static_str_guard = guard 3008007 "result_text64"

abbrev result_string_guard : Guard
result_string_guard = guard 3008007 "result_text64"

abbrev result_blob_guard : Guard
result_blob_guard = guard 3008007 "result_blob64"

abbrev result_slice_guard : Guard
result_slice_guard = guard 3008007 "result_blob64"

abbrev result_subtype_guard : Guard
result_subtype_guard = guard 3009000 "result_subtype"

abbrev result_pointer_guard : Guard
result_pointer_guard = guard 3020000 "result_pointer"

abbrev create_scalar_guard : Guard
create_scalar_guard = guard 3007003 "create_function_v2"

abbrev create_legacy_guard : Guard
create_legacy_guard = guard 3007003 "create_function_v2"

abbrev create_window_guard : Guard
create_window_guard = guard 3025000 "create_window_function"

abbrev prepare_guard : Guard
prepare_guard = guard 3020000 "prepare_v3"

abbrev changes_guard : Guard
changes_guard = guard 3037000 "changes64"

abbrev vtab_constraint_guard : Guard
vtab_constraint_guard = guard 3007007 "vtab_config"

abbrev vtab_risk_guard : Guard
vtab_risk_guard = guard 3031000 "vtab_config"

abbrev vtab_conflict_guard : Guard
vtab_conflict_guard = guard 3007007 "vtab_on_conflict"

abbrev vtab_nochange_guard : Guard
vtab_nochange_guard = guard 3022000 "vtab_nochange"

abbrev vtab_distinct_guard : Guard
vtab_distinct_guard = guard 3038000 "vtab_distinct"

abbrev vtab_rhs_guard : Guard
vtab_rhs_guard = guard 3038000 "vtab_rhs_value"

abbrev vtab_collation_guard : Guard
vtab_collation_guard = guard 3022000 "vtab_collation"

abbrev vtab_in_test_guard : Guard
vtab_in_test_guard = guard 3038000 "vtab_in"

abbrev vtab_in_set_guard : Guard
vtab_in_set_guard = guard 3038000 "vtab_in"

abbrev in_first_guard : Guard
in_first_guard = guard 3038000 "vtab_in_first"

abbrev in_next_guard : Guard
in_next_guard = guard 3038000 "vtab_in_next"

abbrev from_bind_guard : Guard
from_bind_guard = guard 3028000 "value_frombind"

abbrev value_nochange_guard : Guard
value_nochange_guard = guard 3022000 "value_nochange"

abbrev value_pointer_guard : Guard
value_pointer_guard = guard 3020000 "value_pointer"

abbrev value_subtype_guard : Guard
value_subtype_guard = guard 3009000 "value_subtype"

abbrev load_extension_guard : Guard
load_extension_guard = guard 3008007 "load_extension"

abbrev defensive_guard : Guard
defensive_guard = guard 3026000 "db_config"

abbrev was_enabled_guard : Guard
was_enabled_guard = guard 3013000 "db_config"

abbrev restore_guard : Guard
restore_guard = guard 3013000 "db_config"

abbrev sourceid_guard : Guard
sourceid_guard = guard 3021000 "sourceid"

abbrev stricmp_guard : Guard
stricmp_guard = guard 3006017 "strnicmp"

abbrev strlike_guard : Guard
strlike_guard = guard 3010000 "strlike"

abbrev auto_extension_guard : Guard
auto_extension_guard = guard 3008007 "auto_extension"

abbrev reset_auto_guard : Guard
reset_auto_guard = guard 3008007 "reset_auto_extension"

abbrev cancel_auto_guard : Guard
cancel_auto_guard = guard 3008007 "cancel_auto_extension"

abbrev pub errstr_display_guard : Guard
errstr_display_guard = guard 3007015 "errstr"

abbrev errstr_debug_guard : Guard
errstr_debug_guard = guard 3007015 "errstr"

abbrev pub strglob_guard : Guard
strglob_guard = guard 3007017 "strglob"

abbrev pub guards : List Guard
guards =
    malloc_guard ∷ bind_blob_guard ∷ bind_str_guard ∷ bind_slice_guard ∷ bind_pointer_guard
    ∷ result_static_str_guard ∷ result_string_guard ∷ result_blob_guard ∷ result_slice_guard
    ∷ result_subtype_guard ∷ result_pointer_guard ∷ create_scalar_guard ∷ create_legacy_guard
    ∷ create_window_guard ∷ prepare_guard ∷ changes_guard ∷ vtab_constraint_guard ∷ vtab_risk_guard
    ∷ vtab_conflict_guard ∷ vtab_nochange_guard ∷ vtab_distinct_guard ∷ vtab_rhs_guard
    ∷ vtab_collation_guard ∷ vtab_in_test_guard ∷ vtab_in_set_guard ∷ in_first_guard ∷ in_next_guard
    ∷ from_bind_guard ∷ value_nochange_guard ∷ value_pointer_guard ∷ value_subtype_guard
    ∷ load_extension_guard ∷ defensive_guard ∷ was_enabled_guard ∷ restore_guard ∷ sourceid_guard
    ∷ stricmp_guard ∷ strlike_guard ∷ auto_extension_guard ∷ reset_auto_guard ∷ cancel_auto_guard
    ∷ []
