-- ===== src/Linking/Header/Databases.antt =====
-- src/ffi/sqlite3.h: the functions that its sections declare, on collations, hooks, limits and extensions.
use sqlite3_ext.Prelude.{List, [], ◌∷◌}
use sqlite3_ext.Linking.{
  Routine, routine, db, stmt, chars, bytes, void, int, unsigned_int, int64, callback, ptr,
}

abbrev pub define_new_collating_sequences : List Routine
define_new_collating_sequences =
    routine "sqlite3_create_collation" int (db ∷ chars ∷ int ∷ bytes ∷ callback ∷ [])
    ∷ routine "sqlite3_create_collation_v2" int
        (db ∷ chars ∷ int ∷ bytes ∷ callback ∷ callback ∷ [])
    ∷ routine "sqlite3_create_collation16" int (db ∷ bytes ∷ int ∷ bytes ∷ callback ∷ [])
    ∷ []

abbrev pub collation_needed_callbacks : List Routine
collation_needed_callbacks =
    routine "sqlite3_collation_needed" int (db ∷ bytes ∷ callback ∷ [])
    ∷ routine "sqlite3_collation_needed16" int (db ∷ bytes ∷ callback ∷ [])
    ∷ []

abbrev pub collation_needed_callbacks_activate_cerod : List Routine
collation_needed_callbacks_activate_cerod = routine "sqlite3_activate_cerod" void (chars ∷ []) ∷ []

abbrev pub suspend_execution_for_a_short_time : List Routine
suspend_execution_for_a_short_time = routine "sqlite3_sleep" int (int ∷ []) ∷ []

abbrev pub win32_specific_interface : List Routine
win32_specific_interface =
    routine "sqlite3_win32_set_directory" int (unsigned_int ∷ bytes ∷ [])
    ∷ routine "sqlite3_win32_set_directory8" int (unsigned_int ∷ chars ∷ [])
    ∷ routine "sqlite3_win32_set_directory16" int (unsigned_int ∷ bytes ∷ [])
    ∷ []

abbrev pub test_for_auto_commit_mode : List Routine
test_for_auto_commit_mode = routine "sqlite3_get_autocommit" int (db ∷ []) ∷ []

abbrev pub find_the_database_handle_of_a_prepared_statement : List Routine
find_the_database_handle_of_a_prepared_statement = routine "sqlite3_db_handle" db (stmt ∷ []) ∷ []

abbrev pub return_the_filename_for_a_database_connection : List Routine
return_the_filename_for_a_database_connection =
    routine "sqlite3_db_filename" chars (db ∷ chars ∷ []) ∷ []

abbrev pub determine_if_a_database_is_read_only : List Routine
determine_if_a_database_is_read_only = routine "sqlite3_db_readonly" int (db ∷ chars ∷ []) ∷ []

abbrev pub determine_the_transaction_state_of_a_database : List Routine
determine_the_transaction_state_of_a_database =
    routine "sqlite3_txn_state" int (db ∷ chars ∷ []) ∷ []

abbrev pub find_the_next_prepared_statement : List Routine
find_the_next_prepared_statement = routine "sqlite3_next_stmt" stmt (db ∷ stmt ∷ []) ∷ []

abbrev pub commit_and_rollback_notification_callbacks : List Routine
commit_and_rollback_notification_callbacks =
    routine "sqlite3_commit_hook" bytes (db ∷ callback ∷ bytes ∷ [])
    ∷ routine "sqlite3_rollback_hook" bytes (db ∷ callback ∷ bytes ∷ [])
    ∷ []

abbrev pub autovacuum_compaction_amount_callback : List Routine
autovacuum_compaction_amount_callback =
    routine "sqlite3_autovacuum_pages" int (db ∷ callback ∷ bytes ∷ callback ∷ []) ∷ []

abbrev pub data_change_notification_callbacks : List Routine
data_change_notification_callbacks =
    routine "sqlite3_update_hook" bytes (db ∷ callback ∷ bytes ∷ []) ∷ []

abbrev pub enable_or_disable_shared_pager_cache : List Routine
enable_or_disable_shared_pager_cache = routine "sqlite3_enable_shared_cache" int (int ∷ []) ∷ []

abbrev pub attempt_to_free_heap_memory : List Routine
attempt_to_free_heap_memory = routine "sqlite3_release_memory" int (int ∷ []) ∷ []

abbrev pub free_memory_used_by_a_database_connection : List Routine
free_memory_used_by_a_database_connection = routine "sqlite3_db_release_memory" int (db ∷ []) ∷ []

abbrev pub impose_a_limit_on_heap_size : List Routine
impose_a_limit_on_heap_size =
    routine "sqlite3_soft_heap_limit64" int64 (int64 ∷ [])
    ∷ routine "sqlite3_hard_heap_limit64" int64 (int64 ∷ [])
    ∷ []

abbrev pub deprecated_soft_heap_limit_interface : List Routine
deprecated_soft_heap_limit_interface = routine "sqlite3_soft_heap_limit" void (int ∷ []) ∷ []

abbrev pub extract_metadata_about_a_column_of_a_table : List Routine
extract_metadata_about_a_column_of_a_table =
    routine "sqlite3_table_column_metadata" int (
      db
      ∷ chars
      ∷ chars
      ∷ chars
      ∷ ptr "char*"
      ∷ ptr "char*"
      ∷ ptr "int"
      ∷ ptr "int"
      ∷ ptr "int"
      ∷ [])
    ∷ []

abbrev pub load_an_extension : List Routine
load_an_extension =
    routine "sqlite3_load_extension" int (db ∷ chars ∷ chars ∷ ptr "char*" ∷ []) ∷ []

abbrev pub enable_or_disable_extension_loading : List Routine
enable_or_disable_extension_loading =
    routine "sqlite3_enable_load_extension" int (db ∷ int ∷ []) ∷ []

abbrev pub automatically_load_statically_linked_extensions : List Routine
automatically_load_statically_linked_extensions =
    routine "sqlite3_auto_extension" int (callback ∷ []) ∷ []

abbrev pub cancel_automatic_extension_loading : List Routine
cancel_automatic_extension_loading =
    routine "sqlite3_cancel_auto_extension" int (callback ∷ []) ∷ []

abbrev pub reset_automatic_extension_loading : List Routine
reset_automatic_extension_loading = routine "sqlite3_reset_auto_extension" void [] ∷ []
