-- ===== src/Linking/Macros.antt =====
-- src/ffi/sqlite3ext.h: the macros by which a C extension calls SQLite: each replaces the name of a
-- function by a member of the structure.
use Prim.Native.String.{String}
use sqlite3_ext.Prelude.{List, [], ◌∷◌, ◌++◌}

abbrev macros_from_aggregate_context : List (String × String)
macros_from_aggregate_context =
    ("sqlite3_aggregate_context", "aggregate_context")
    ∷ ("sqlite3_aggregate_count", "aggregate_count")
    ∷ ("sqlite3_bind_blob", "bind_blob")
    ∷ ("sqlite3_bind_double", "bind_double")
    ∷ ("sqlite3_bind_int", "bind_int")
    ∷ ("sqlite3_bind_int64", "bind_int64")
    ∷ ("sqlite3_bind_null", "bind_null")
    ∷ ("sqlite3_bind_parameter_count", "bind_parameter_count")
    ∷ ("sqlite3_bind_parameter_index", "bind_parameter_index")
    ∷ ("sqlite3_bind_parameter_name", "bind_parameter_name")
    ∷ ("sqlite3_bind_text", "bind_text")
    ∷ ("sqlite3_bind_text16", "bind_text16")
    ∷ ("sqlite3_bind_value", "bind_value")
    ∷ ("sqlite3_busy_handler", "busy_handler")
    ∷ ("sqlite3_busy_timeout", "busy_timeout")
    ∷ ("sqlite3_changes", "changes")
    ∷ ("sqlite3_close", "close")
    ∷ ("sqlite3_collation_needed", "collation_needed")
    ∷ ("sqlite3_collation_needed16", "collation_needed16")
    ∷ ("sqlite3_column_blob", "column_blob")
    ∷ ("sqlite3_column_bytes", "column_bytes")
    ∷ ("sqlite3_column_bytes16", "column_bytes16")
    ∷ ("sqlite3_column_count", "column_count")
    ∷ ("sqlite3_column_database_name", "column_database_name")
    ∷ ("sqlite3_column_database_name16", "column_database_name16")
    ∷ ("sqlite3_column_decltype", "column_decltype")
    ∷ ("sqlite3_column_decltype16", "column_decltype16")
    ∷ ("sqlite3_column_double", "column_double")
    ∷ ("sqlite3_column_int", "column_int")
    ∷ ("sqlite3_column_int64", "column_int64")
    ∷ ("sqlite3_column_name", "column_name")
    ∷ ("sqlite3_column_name16", "column_name16")
    ∷ ("sqlite3_column_origin_name", "column_origin_name")
    ∷ ("sqlite3_column_origin_name16", "column_origin_name16")
    ∷ ("sqlite3_column_table_name", "column_table_name")
    ∷ ("sqlite3_column_table_name16", "column_table_name16")
    ∷ ("sqlite3_column_text", "column_text")
    ∷ ("sqlite3_column_text16", "column_text16")
    ∷ ("sqlite3_column_type", "column_type")
    ∷ ("sqlite3_column_value", "column_value")
    ∷ ("sqlite3_commit_hook", "commit_hook")
    ∷ ("sqlite3_complete", "complete")
    ∷ ("sqlite3_complete16", "complete16")
    ∷ ("sqlite3_create_collation", "create_collation")
    ∷ ("sqlite3_create_collation16", "create_collation16")
    ∷ ("sqlite3_create_function", "create_function")
    ∷ ("sqlite3_create_function16", "create_function16")
    ∷ ("sqlite3_create_module", "create_module")
    ∷ ("sqlite3_create_module_v2", "create_module_v2")
    ∷ ("sqlite3_data_count", "data_count")
    ∷ []

abbrev macros_from_db_handle : List (String × String)
macros_from_db_handle =
    ("sqlite3_db_handle", "db_handle")
    ∷ ("sqlite3_declare_vtab", "declare_vtab")
    ∷ ("sqlite3_enable_shared_cache", "enable_shared_cache")
    ∷ ("sqlite3_errcode", "errcode")
    ∷ ("sqlite3_errmsg", "errmsg")
    ∷ ("sqlite3_errmsg16", "errmsg16")
    ∷ ("sqlite3_exec", "exec")
    ∷ ("sqlite3_expired", "expired")
    ∷ ("sqlite3_finalize", "finalize")
    ∷ ("sqlite3_free", "free")
    ∷ ("sqlite3_free_table", "free_table")
    ∷ ("sqlite3_get_autocommit", "get_autocommit")
    ∷ ("sqlite3_get_auxdata", "get_auxdata")
    ∷ ("sqlite3_get_table", "get_table")
    ∷ ("sqlite3_global_recover", "global_recover")
    ∷ ("sqlite3_interrupt", "interruptx")
    ∷ ("sqlite3_last_insert_rowid", "last_insert_rowid")
    ∷ ("sqlite3_libversion", "libversion")
    ∷ ("sqlite3_libversion_number", "libversion_number")
    ∷ ("sqlite3_malloc", "malloc")
    ∷ ("sqlite3_mprintf", "mprintf")
    ∷ ("sqlite3_open", "open")
    ∷ ("sqlite3_open16", "open16")
    ∷ ("sqlite3_prepare", "prepare")
    ∷ ("sqlite3_prepare16", "prepare16")
    ∷ ("sqlite3_prepare_v2", "prepare_v2")
    ∷ ("sqlite3_prepare16_v2", "prepare16_v2")
    ∷ ("sqlite3_profile", "profile")
    ∷ ("sqlite3_progress_handler", "progress_handler")
    ∷ ("sqlite3_realloc", "realloc")
    ∷ ("sqlite3_reset", "reset")
    ∷ ("sqlite3_result_blob", "result_blob")
    ∷ ("sqlite3_result_double", "result_double")
    ∷ ("sqlite3_result_error", "result_error")
    ∷ ("sqlite3_result_error16", "result_error16")
    ∷ ("sqlite3_result_int", "result_int")
    ∷ ("sqlite3_result_int64", "result_int64")
    ∷ ("sqlite3_result_null", "result_null")
    ∷ ("sqlite3_result_text", "result_text")
    ∷ ("sqlite3_result_text16", "result_text16")
    ∷ ("sqlite3_result_text16be", "result_text16be")
    ∷ ("sqlite3_result_text16le", "result_text16le")
    ∷ ("sqlite3_result_value", "result_value")
    ∷ ("sqlite3_rollback_hook", "rollback_hook")
    ∷ ("sqlite3_set_authorizer", "set_authorizer")
    ∷ ("sqlite3_set_auxdata", "set_auxdata")
    ∷ ("sqlite3_snprintf", "xsnprintf")
    ∷ ("sqlite3_step", "step")
    ∷ ("sqlite3_table_column_metadata", "table_column_metadata")
    ∷ ("sqlite3_thread_cleanup", "thread_cleanup")
    ∷ ("sqlite3_total_changes", "total_changes")
    ∷ ("sqlite3_trace", "trace")
    ∷ ("sqlite3_transfer_bindings", "transfer_bindings")
    ∷ ("sqlite3_update_hook", "update_hook")
    ∷ ("sqlite3_user_data", "user_data")
    ∷ ("sqlite3_value_blob", "value_blob")
    ∷ ("sqlite3_value_bytes", "value_bytes")
    ∷ ("sqlite3_value_bytes16", "value_bytes16")
    ∷ ("sqlite3_value_double", "value_double")
    ∷ ("sqlite3_value_int", "value_int")
    ∷ ("sqlite3_value_int64", "value_int64")
    ∷ ("sqlite3_value_numeric_type", "value_numeric_type")
    ∷ ("sqlite3_value_text", "value_text")
    ∷ ("sqlite3_value_text16", "value_text16")
    ∷ ("sqlite3_value_text16be", "value_text16be")
    ∷ ("sqlite3_value_text16le", "value_text16le")
    ∷ ("sqlite3_value_type", "value_type")
    ∷ ("sqlite3_vmprintf", "vmprintf")
    ∷ ("sqlite3_vsnprintf", "xvsnprintf")
    ∷ []

abbrev macros_from_overload_function : List (String × String)
macros_from_overload_function =
    ("sqlite3_overload_function", "overload_function")
    ∷ ("sqlite3_prepare_v2", "prepare_v2")
    ∷ ("sqlite3_prepare16_v2", "prepare16_v2")
    ∷ ("sqlite3_clear_bindings", "clear_bindings")
    ∷ ("sqlite3_bind_zeroblob", "bind_zeroblob")
    ∷ ("sqlite3_blob_bytes", "blob_bytes")
    ∷ ("sqlite3_blob_close", "blob_close")
    ∷ ("sqlite3_blob_open", "blob_open")
    ∷ ("sqlite3_blob_read", "blob_read")
    ∷ ("sqlite3_blob_write", "blob_write")
    ∷ ("sqlite3_create_collation_v2", "create_collation_v2")
    ∷ ("sqlite3_file_control", "file_control")
    ∷ ("sqlite3_memory_highwater", "memory_highwater")
    ∷ ("sqlite3_memory_used", "memory_used")
    ∷ ("sqlite3_mutex_alloc", "mutex_alloc")
    ∷ ("sqlite3_mutex_enter", "mutex_enter")
    ∷ ("sqlite3_mutex_free", "mutex_free")
    ∷ ("sqlite3_mutex_leave", "mutex_leave")
    ∷ ("sqlite3_mutex_try", "mutex_try")
    ∷ ("sqlite3_open_v2", "open_v2")
    ∷ ("sqlite3_release_memory", "release_memory")
    ∷ ("sqlite3_result_error_nomem", "result_error_nomem")
    ∷ ("sqlite3_result_error_toobig", "result_error_toobig")
    ∷ ("sqlite3_sleep", "sleep")
    ∷ ("sqlite3_soft_heap_limit", "soft_heap_limit")
    ∷ ("sqlite3_vfs_find", "vfs_find")
    ∷ ("sqlite3_vfs_register", "vfs_register")
    ∷ ("sqlite3_vfs_unregister", "vfs_unregister")
    ∷ ("sqlite3_threadsafe", "xthreadsafe")
    ∷ ("sqlite3_result_zeroblob", "result_zeroblob")
    ∷ ("sqlite3_result_error_code", "result_error_code")
    ∷ ("sqlite3_test_control", "test_control")
    ∷ ("sqlite3_randomness", "randomness")
    ∷ ("sqlite3_context_db_handle", "context_db_handle")
    ∷ ("sqlite3_extended_result_codes", "extended_result_codes")
    ∷ ("sqlite3_limit", "limit")
    ∷ ("sqlite3_next_stmt", "next_stmt")
    ∷ ("sqlite3_sql", "sql")
    ∷ ("sqlite3_status", "status")
    ∷ ("sqlite3_backup_finish", "backup_finish")
    ∷ ("sqlite3_backup_init", "backup_init")
    ∷ ("sqlite3_backup_pagecount", "backup_pagecount")
    ∷ ("sqlite3_backup_remaining", "backup_remaining")
    ∷ ("sqlite3_backup_step", "backup_step")
    ∷ ("sqlite3_compileoption_get", "compileoption_get")
    ∷ ("sqlite3_compileoption_used", "compileoption_used")
    ∷ ("sqlite3_create_function_v2", "create_function_v2")
    ∷ ("sqlite3_db_config", "db_config")
    ∷ ("sqlite3_db_mutex", "db_mutex")
    ∷ ("sqlite3_db_status", "db_status")
    ∷ ("sqlite3_extended_errcode", "extended_errcode")
    ∷ ("sqlite3_log", "log")
    ∷ ("sqlite3_soft_heap_limit64", "soft_heap_limit64")
    ∷ ("sqlite3_sourceid", "sourceid")
    ∷ ("sqlite3_stmt_status", "stmt_status")
    ∷ ("sqlite3_strnicmp", "strnicmp")
    ∷ ("sqlite3_unlock_notify", "unlock_notify")
    ∷ ("sqlite3_wal_autocheckpoint", "wal_autocheckpoint")
    ∷ ("sqlite3_wal_checkpoint", "wal_checkpoint")
    ∷ ("sqlite3_wal_hook", "wal_hook")
    ∷ ("sqlite3_blob_reopen", "blob_reopen")
    ∷ ("sqlite3_vtab_config", "vtab_config")
    ∷ ("sqlite3_vtab_on_conflict", "vtab_on_conflict")
    ∷ []

abbrev macros_from_close_v2 : List (String × String)
macros_from_close_v2 =
    ("sqlite3_close_v2", "close_v2")
    ∷ ("sqlite3_db_filename", "db_filename")
    ∷ ("sqlite3_db_readonly", "db_readonly")
    ∷ ("sqlite3_db_release_memory", "db_release_memory")
    ∷ ("sqlite3_errstr", "errstr")
    ∷ ("sqlite3_stmt_busy", "stmt_busy")
    ∷ ("sqlite3_stmt_readonly", "stmt_readonly")
    ∷ ("sqlite3_stricmp", "stricmp")
    ∷ ("sqlite3_uri_boolean", "uri_boolean")
    ∷ ("sqlite3_uri_int64", "uri_int64")
    ∷ ("sqlite3_uri_parameter", "uri_parameter")
    ∷ ("sqlite3_uri_vsnprintf", "xvsnprintf")
    ∷ ("sqlite3_wal_checkpoint_v2", "wal_checkpoint_v2")
    ∷ ("sqlite3_auto_extension", "auto_extension")
    ∷ ("sqlite3_bind_blob64", "bind_blob64")
    ∷ ("sqlite3_bind_text64", "bind_text64")
    ∷ ("sqlite3_cancel_auto_extension", "cancel_auto_extension")
    ∷ ("sqlite3_load_extension", "load_extension")
    ∷ ("sqlite3_malloc64", "malloc64")
    ∷ ("sqlite3_msize", "msize")
    ∷ ("sqlite3_realloc64", "realloc64")
    ∷ ("sqlite3_reset_auto_extension", "reset_auto_extension")
    ∷ ("sqlite3_result_blob64", "result_blob64")
    ∷ ("sqlite3_result_text64", "result_text64")
    ∷ ("sqlite3_strglob", "strglob")
    ∷ ("sqlite3_value_dup", "value_dup")
    ∷ ("sqlite3_value_free", "value_free")
    ∷ ("sqlite3_result_zeroblob64", "result_zeroblob64")
    ∷ ("sqlite3_bind_zeroblob64", "bind_zeroblob64")
    ∷ ("sqlite3_value_subtype", "value_subtype")
    ∷ ("sqlite3_result_subtype", "result_subtype")
    ∷ ("sqlite3_status64", "status64")
    ∷ ("sqlite3_strlike", "strlike")
    ∷ ("sqlite3_db_cacheflush", "db_cacheflush")
    ∷ ("sqlite3_system_errno", "system_errno")
    ∷ ("sqlite3_trace_v2", "trace_v2")
    ∷ ("sqlite3_expanded_sql", "expanded_sql")
    ∷ ("sqlite3_set_last_insert_rowid", "set_last_insert_rowid")
    ∷ []

abbrev macros_from_prepare_v3 : List (String × String)
macros_from_prepare_v3 =
    ("sqlite3_prepare_v3", "prepare_v3")
    ∷ ("sqlite3_prepare16_v3", "prepare16_v3")
    ∷ ("sqlite3_bind_pointer", "bind_pointer")
    ∷ ("sqlite3_result_pointer", "result_pointer")
    ∷ ("sqlite3_value_pointer", "value_pointer")
    ∷ ("sqlite3_vtab_nochange", "vtab_nochange")
    ∷ ("sqlite3_value_nochange", "value_nochange")
    ∷ ("sqlite3_vtab_collation", "vtab_collation")
    ∷ ("sqlite3_keyword_count", "keyword_count")
    ∷ ("sqlite3_keyword_name", "keyword_name")
    ∷ ("sqlite3_keyword_check", "keyword_check")
    ∷ ("sqlite3_str_new", "str_new")
    ∷ ("sqlite3_str_finish", "str_finish")
    ∷ ("sqlite3_str_appendf", "str_appendf")
    ∷ ("sqlite3_str_vappendf", "str_vappendf")
    ∷ ("sqlite3_str_append", "str_append")
    ∷ ("sqlite3_str_appendall", "str_appendall")
    ∷ ("sqlite3_str_appendchar", "str_appendchar")
    ∷ ("sqlite3_str_reset", "str_reset")
    ∷ ("sqlite3_str_errcode", "str_errcode")
    ∷ ("sqlite3_str_length", "str_length")
    ∷ ("sqlite3_str_value", "str_value")
    ∷ ("sqlite3_create_window_function", "create_window_function")
    ∷ ("sqlite3_normalized_sql", "normalized_sql")
    ∷ ("sqlite3_stmt_isexplain", "stmt_isexplain")
    ∷ ("sqlite3_value_frombind", "value_frombind")
    ∷ ("sqlite3_drop_modules", "drop_modules")
    ∷ ("sqlite3_hard_heap_limit64", "hard_heap_limit64")
    ∷ ("sqlite3_uri_key", "uri_key")
    ∷ ("sqlite3_filename_database", "filename_database")
    ∷ ("sqlite3_filename_journal", "filename_journal")
    ∷ ("sqlite3_filename_wal", "filename_wal")
    ∷ ("sqlite3_create_filename", "create_filename")
    ∷ ("sqlite3_free_filename", "free_filename")
    ∷ ("sqlite3_database_file_object", "database_file_object")
    ∷ ("sqlite3_txn_state", "txn_state")
    ∷ ("sqlite3_changes64", "changes64")
    ∷ ("sqlite3_total_changes64", "total_changes64")
    ∷ ("sqlite3_autovacuum_pages", "autovacuum_pages")
    ∷ ("sqlite3_error_offset", "error_offset")
    ∷ ("sqlite3_vtab_rhs_value", "vtab_rhs_value")
    ∷ ("sqlite3_vtab_distinct", "vtab_distinct")
    ∷ ("sqlite3_vtab_in", "vtab_in")
    ∷ ("sqlite3_vtab_in_first", "vtab_in_first")
    ∷ ("sqlite3_vtab_in_next", "vtab_in_next")
    ∷ []

unfoldable pub macros : List (String × String)
macros =
    (macros_from_aggregate_context
      ++ (macros_from_db_handle
          ++ (macros_from_overload_function ++ (macros_from_close_v2 ++ macros_from_prepare_v3))))
