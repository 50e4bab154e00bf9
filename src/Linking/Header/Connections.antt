-- ===== src/Linking/Header/Connections.antt =====
-- src/ffi/sqlite3.h: the functions that its sections declare, on the library and its connections.
use sqlite3_ext.Prelude.{List, [], ◌∷◌}
use sqlite3_ext.Linking.{
  Routine, routine, variadic, db, chars, bytes, void, int, int64, callback, ptr,
}

abbrev pub run_time_library_version_numbers : List Routine
run_time_library_version_numbers =
    routine "sqlite3_libversion" chars []
    ∷ routine "sqlite3_sourceid" chars []
    ∷ routine "sqlite3_libversion_number" int []
    ∷ []

abbrev pub run_time_library_compilation_options_diagnostics : List Routine
run_time_library_compilation_options_diagnostics =
    routine "sqlite3_compileoption_used" int (chars ∷ [])
    ∷ routine "sqlite3_compileoption_get" chars (int ∷ [])
    ∷ []

abbrev pub test_to_see_if_the_library_is_threadsafe : List Routine
test_to_see_if_the_library_is_threadsafe = routine "sqlite3_threadsafe" int [] ∷ []

abbrev pub closing_a_database_connection : List Routine
closing_a_database_connection =
    routine "sqlite3_close" int (db ∷ []) ∷ routine "sqlite3_close_v2" int (db ∷ []) ∷ []

abbrev pub one_step_query_execution_interface : List Routine
one_step_query_execution_interface =
    routine "sqlite3_exec" int (db ∷ chars ∷ callback ∷ bytes ∷ ptr "char*" ∷ []) ∷ []

abbrev pub initialize_the_sqlite_library : List Routine
initialize_the_sqlite_library =
    routine "sqlite3_initialize" int []
    ∷ routine "sqlite3_shutdown" int []
    ∷ routine "sqlite3_os_init" int []
    ∷ routine "sqlite3_os_end" int []
    ∷ []

abbrev pub configuring_the_sqlite_library : List Routine
configuring_the_sqlite_library = variadic "sqlite3_config" int (int ∷ []) ∷ []

abbrev pub configure_database_connections : List Routine
configure_database_connections = variadic "sqlite3_db_config" int (db ∷ int ∷ []) ∷ []

abbrev pub enable_or_disable_extended_result_codes : List Routine
enable_or_disable_extended_result_codes =
    routine "sqlite3_extended_result_codes" int (db ∷ int ∷ []) ∷ []

abbrev pub last_insert_rowid : List Routine
last_insert_rowid = routine "sqlite3_last_insert_rowid" int64 (db ∷ []) ∷ []

abbrev pub set_the_last_insert_rowid_value : List Routine
set_the_last_insert_rowid_value =
    routine "sqlite3_set_last_insert_rowid" void (db ∷ int64 ∷ []) ∷ []

abbrev pub count_the_number_of_rows_modified : List Routine
count_the_number_of_rows_modified =
    routine "sqlite3_changes" int (db ∷ []) ∷ routine "sqlite3_changes64" int64 (db ∷ []) ∷ []

abbrev pub total_number_of_rows_modified : List Routine
total_number_of_rows_modified =
    routine "sqlite3_total_changes" int (db ∷ [])
    ∷ routine "sqlite3_total_changes64" int64 (db ∷ [])
    ∷ []

abbrev pub interrupt_a_long_running_query : List Routine
interrupt_a_long_running_query = routine "sqlite3_interrupt" void (db ∷ []) ∷ []

abbrev pub determine_if_an_sql_statement_is_complete : List Routine
determine_if_an_sql_statement_is_complete =
    routine "sqlite3_complete" int (chars ∷ []) ∷ routine "sqlite3_complete16" int (bytes ∷ []) ∷ []
