-- ===== src/Linking/Header/Functions.antt =====
-- src/ffi/sqlite3.h: the functions that its sections declare, on functions, values and results.
use sqlite3_ext.Prelude.{List, [], ◌∷◌}
use sqlite3_ext.Linking.{
  Routine, routine, db, stmt, context, value, chars, bytes, void, int, unsigned_int, unsigned_char,
  int64, uint64, double, callback, ptr,
}

abbrev pub reset_a_prepared_statement_object : List Routine
reset_a_prepared_statement_object = routine "sqlite3_reset" int (stmt ∷ []) ∷ []

abbrev pub create_or_redefine_sql_functions : List Routine
create_or_redefine_sql_functions =
    routine "sqlite3_create_function" int
      (db ∷ chars ∷ int ∷ int ∷ bytes ∷ callback ∷ callback ∷ callback ∷ [])
    ∷ routine "sqlite3_create_function16" int
        (db ∷ bytes ∷ int ∷ int ∷ bytes ∷ callback ∷ callback ∷ callback ∷ [])
    ∷ routine "sqlite3_create_function_v2" int
        (db ∷ chars ∷ int ∷ int ∷ bytes ∷ callback ∷ callback ∷ callback ∷ callback ∷ [])
    ∷ routine "sqlite3_create_window_function" int
        (db ∷ chars ∷ int ∷ int ∷ bytes ∷ callback ∷ callback ∷ callback ∷ callback ∷ callback ∷ [])
    ∷ []

abbrev pub deprecated_functions : List Routine
deprecated_functions =
    routine "sqlite3_aggregate_count" int (context ∷ [])
    ∷ routine "sqlite3_expired" int (stmt ∷ [])
    ∷ routine "sqlite3_transfer_bindings" int (stmt ∷ stmt ∷ [])
    ∷ routine "sqlite3_global_recover" int []
    ∷ routine "sqlite3_thread_cleanup" void []
    ∷ routine "sqlite3_memory_alarm" int (callback ∷ bytes ∷ int64 ∷ [])
    ∷ []

abbrev pub obtaining_sql_values : List Routine
obtaining_sql_values =
    routine "sqlite3_value_blob" bytes (value ∷ [])
    ∷ routine "sqlite3_value_double" double (value ∷ [])
    ∷ routine "sqlite3_value_int" int (value ∷ [])
    ∷ routine "sqlite3_value_int64" int64 (value ∷ [])
    ∷ routine "sqlite3_value_pointer" bytes (value ∷ chars ∷ [])
    ∷ routine "sqlite3_value_text" (ptr "unsigned char") (value ∷ [])
    ∷ routine "sqlite3_value_text16" bytes (value ∷ [])
    ∷ routine "sqlite3_value_text16le" bytes (value ∷ [])
    ∷ routine "sqlite3_value_text16be" bytes (value ∷ [])
    ∷ routine "sqlite3_value_bytes" int (value ∷ [])
    ∷ routine "sqlite3_value_bytes16" int (value ∷ [])
    ∷ routine "sqlite3_value_type" int (value ∷ [])
    ∷ routine "sqlite3_value_numeric_type" int (value ∷ [])
    ∷ routine "sqlite3_value_nochange" int (value ∷ [])
    ∷ routine "sqlite3_value_frombind" int (value ∷ [])
    ∷ []

abbrev pub finding_the_subtype_of_sql_values : List Routine
finding_the_subtype_of_sql_values = routine "sqlite3_value_subtype" unsigned_int (value ∷ []) ∷ []

abbrev pub copy_and_free_sql_values : List Routine
copy_and_free_sql_values =
    routine "sqlite3_value_dup" value (value ∷ [])
    ∷ routine "sqlite3_value_free" void (value ∷ [])
    ∷ []

abbrev pub obtain_aggregate_function_context : List Routine
obtain_aggregate_function_context =
    routine "sqlite3_aggregate_context" bytes (context ∷ int ∷ []) ∷ []

abbrev pub user_data_for_functions : List Routine
user_data_for_functions = routine "sqlite3_user_data" bytes (context ∷ []) ∷ []

abbrev pub database_connection_for_functions : List Routine
database_connection_for_functions = routine "sqlite3_context_db_handle" db (context ∷ []) ∷ []

abbrev pub function_auxiliary_data : List Routine
function_auxiliary_data =
    routine "sqlite3_get_auxdata" bytes (context ∷ int ∷ [])
    ∷ routine "sqlite3_set_auxdata" void (context ∷ int ∷ bytes ∷ callback ∷ [])
    ∷ []

abbrev pub setting_the_result_of_an_sql_function : List Routine
setting_the_result_of_an_sql_function =
    routine "sqlite3_result_blob" void (context ∷ bytes ∷ int ∷ callback ∷ [])
    ∷ routine "sqlite3_result_blob64" void (context ∷ bytes ∷ uint64 ∷ callback ∷ [])
    ∷ routine "sqlite3_result_double" void (context ∷ double ∷ [])
    ∷ routine "sqlite3_result_error" void (context ∷ chars ∷ int ∷ [])
    ∷ routine "sqlite3_result_error16" void (context ∷ bytes ∷ int ∷ [])
    ∷ routine "sqlite3_result_error_toobig" void (context ∷ [])
    ∷ routine "sqlite3_result_error_nomem" void (context ∷ [])
    ∷ routine "sqlite3_result_error_code" void (context ∷ int ∷ [])
    ∷ routine "sqlite3_result_int" void (context ∷ int ∷ [])
    ∷ routine "sqlite3_result_int64" void (context ∷ int64 ∷ [])
    ∷ routine "sqlite3_result_null" void (context ∷ [])
    ∷ routine "sqlite3_result_text" void (context ∷ chars ∷ int ∷ callback ∷ [])
    ∷ routine "sqlite3_result_text64" void
        (context ∷ chars ∷ uint64 ∷ callback ∷ unsigned_char ∷ [])
    ∷ routine "sqlite3_result_text16" void (context ∷ bytes ∷ int ∷ callback ∷ [])
    ∷ routine "sqlite3_result_text16le" void (context ∷ bytes ∷ int ∷ callback ∷ [])
    ∷ routine "sqlite3_result_text16be" void (context ∷ bytes ∷ int ∷ callback ∷ [])
    ∷ routine "sqlite3_result_value" void (context ∷ value ∷ [])
    ∷ routine "sqlite3_result_pointer" void (context ∷ bytes ∷ chars ∷ callback ∷ [])
    ∷ routine "sqlite3_result_zeroblob" void (context ∷ int ∷ [])
    ∷ routine "sqlite3_result_zeroblob64" int (context ∷ uint64 ∷ [])
    ∷ []

abbrev pub setting_the_subtype_of_an_sql_function : List Routine
setting_the_subtype_of_an_sql_function =
    routine "sqlite3_result_subtype" void (context ∷ unsigned_int ∷ []) ∷ []
