-- ===== src/Linking/Header/Opening.antt =====
-- src/ffi/sqlite3.h: the functions that its sections declare, on memory, authorization, tracing, opening, errors.
use sqlite3_ext.Prelude.{List, [], ◌∷◌}
use sqlite3_ext.Linking.{
  Routine, routine, variadic, db, chars, bytes, void, int, unsigned_int, int64, uint64, va_list,
  callback, ptr,
}

abbrev pub register_a_callback_to_handle_sqlite_busy_errors : List Routine
register_a_callback_to_handle_sqlite_busy_errors =
    routine "sqlite3_busy_handler" int (db ∷ callback ∷ bytes ∷ []) ∷ []

abbrev pub set_a_busy_timeout : List Routine
set_a_busy_timeout = routine "sqlite3_busy_timeout" int (db ∷ int ∷ []) ∷ []

abbrev pub convenience_routines_for_running_queries : List Routine
convenience_routines_for_running_queries =
    routine "sqlite3_get_table" int
      (db ∷ chars ∷ ptr "char**" ∷ ptr "int" ∷ ptr "int" ∷ ptr "char*" ∷ [])
    ∷ routine "sqlite3_free_table" void (ptr "char*" ∷ [])
    ∷ []

abbrev pub formatted_string_printing_functions : List Routine
formatted_string_printing_functions =
    variadic "sqlite3_mprintf" chars (chars ∷ [])
    ∷ routine "sqlite3_vmprintf" chars (chars ∷ va_list ∷ [])
    ∷ variadic "sqlite3_snprintf" chars (int ∷ chars ∷ chars ∷ [])
    ∷ routine "sqlite3_vsnprintf" chars (int ∷ chars ∷ chars ∷ va_list ∷ [])
    ∷ []

abbrev pub memory_allocation_subsystem : List Routine
memory_allocation_subsystem =
    routine "sqlite3_malloc" bytes (int ∷ [])
    ∷ routine "sqlite3_malloc64" bytes (uint64 ∷ [])
    ∷ routine "sqlite3_realloc" bytes (bytes ∷ int ∷ [])
    ∷ routine "sqlite3_realloc64" bytes (bytes ∷ uint64 ∷ [])
    ∷ routine "sqlite3_free" void (bytes ∷ [])
    ∷ routine "sqlite3_msize" uint64 (bytes ∷ [])
    ∷ []

abbrev pub memory_allocator_statistics : List Routine
memory_allocator_statistics =
    routine "sqlite3_memory_used" int64 []
    ∷ routine "sqlite3_memory_highwater" int64 (int ∷ [])
    ∷ []

abbrev pub pseudo_random_number_generator : List Routine
pseudo_random_number_generator = routine "sqlite3_randomness" void (int ∷ bytes ∷ []) ∷ []

abbrev pub compile_time_authorization_callbacks : List Routine
compile_time_authorization_callbacks =
    routine "sqlite3_set_authorizer" int (db ∷ callback ∷ bytes ∷ []) ∷ []

abbrev pub tracing_and_profiling_functions : List Routine
tracing_and_profiling_functions =
    routine "sqlite3_trace" bytes (db ∷ callback ∷ bytes ∷ [])
    ∷ routine "sqlite3_profile" bytes (db ∷ callback ∷ bytes ∷ [])
    ∷ []

abbrev pub sql_trace_hook : List Routine
sql_trace_hook = routine "sqlite3_trace_v2" int (db ∷ unsigned_int ∷ callback ∷ bytes ∷ []) ∷ []

abbrev pub query_progress_callbacks : List Routine
query_progress_callbacks =
    routine "sqlite3_progress_handler" void (db ∷ int ∷ callback ∷ bytes ∷ []) ∷ []

abbrev pub opening_a_new_database_connection : List Routine
opening_a_new_database_connection =
    routine "sqlite3_open" int (chars ∷ ptr "sqlite3*" ∷ [])
    ∷ routine "sqlite3_open16" int (bytes ∷ ptr "sqlite3*" ∷ [])
    ∷ routine "sqlite3_open_v2" int (chars ∷ ptr "sqlite3*" ∷ int ∷ chars ∷ [])
    ∷ []

abbrev pub obtain_values_for_uri_parameters : List Routine
obtain_values_for_uri_parameters =
    routine "sqlite3_uri_parameter" chars (chars ∷ chars ∷ [])
    ∷ routine "sqlite3_uri_boolean" int (chars ∷ chars ∷ int ∷ [])
    ∷ routine "sqlite3_uri_int64" int64 (chars ∷ chars ∷ int64 ∷ [])
    ∷ routine "sqlite3_uri_key" chars (chars ∷ int ∷ [])
    ∷ []

abbrev pub translate_filenames : List Routine
translate_filenames =
    routine "sqlite3_filename_database" chars (chars ∷ [])
    ∷ routine "sqlite3_filename_journal" chars (chars ∷ [])
    ∷ routine "sqlite3_filename_wal" chars (chars ∷ [])
    ∷ []

abbrev pub database_file_corresponding_to_a_journal : List Routine
database_file_corresponding_to_a_journal =
    routine "sqlite3_database_file_object" (ptr "sqlite3_file") (chars ∷ []) ∷ []

abbrev pub create_and_destroy_vfs_filenames : List Routine
create_and_destroy_vfs_filenames =
    routine "sqlite3_create_filename" chars (chars ∷ chars ∷ chars ∷ int ∷ ptr "char*" ∷ [])
    ∷ routine "sqlite3_free_filename" void (chars ∷ [])
    ∷ []

abbrev pub error_codes_and_messages : List Routine
error_codes_and_messages =
    routine "sqlite3_errcode" int (db ∷ [])
    ∷ routine "sqlite3_extended_errcode" int (db ∷ [])
    ∷ routine "sqlite3_errmsg" chars (db ∷ [])
    ∷ routine "sqlite3_errmsg16" bytes (db ∷ [])
    ∷ routine "sqlite3_errstr" chars (int ∷ [])
    ∷ routine "sqlite3_error_offset" int (db ∷ [])
    ∷ []

abbrev pub run_time_limits : List Routine
run_time_limits = routine "sqlite3_limit" int (db ∷ int ∷ int ∷ []) ∷ []
