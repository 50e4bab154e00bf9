-- ===== src/Linking/Api/Early.antt =====
-- src/ffi/sqlite3ext.h: the members of sqlite3_api_routines up to vtab_on_conflict.
use sqlite3_ext.Prelude.{List, [], ◌∷◌}
use sqlite3_ext.Linking.{
  Routine, routine, variadic, db, stmt, context, chars, bytes, void, int, int64, callback, ptr,
}

abbrev pub added_at_some_time : List Routine
added_at_some_time = routine "overload_function" int (db ∷ chars ∷ int ∷ []) ∷ []

abbrev pub added_by_3_3_13 : List Routine
added_by_3_3_13 =
    routine "prepare_v2" int (db ∷ chars ∷ int ∷ ptr "sqlite3_stmt*" ∷ ptr "char*" ∷ [])
    ∷ routine "prepare16_v2" int (db ∷ bytes ∷ int ∷ ptr "sqlite3_stmt*" ∷ ptr "void*" ∷ [])
    ∷ routine "clear_bindings" int (stmt ∷ [])
    ∷ []

abbrev pub added_by_3_4_1 : List Routine
added_by_3_4_1 =
    routine "create_module_v2" int (db ∷ chars ∷ ptr "sqlite3_module" ∷ bytes ∷ callback ∷ []) ∷ []

abbrev pub added_by_3_5_0 : List Routine
added_by_3_5_0 =
    routine "bind_zeroblob" int (stmt ∷ int ∷ int ∷ [])
    ∷ routine "blob_bytes" int (ptr "sqlite3_blob" ∷ [])
    ∷ routine "blob_close" int (ptr "sqlite3_blob" ∷ [])
    ∷ routine "blob_open" int (db ∷ chars ∷ chars ∷ chars ∷ int64 ∷ int ∷ ptr "sqlite3_blob*" ∷ [])
    ∷ routine "blob_read" int (ptr "sqlite3_blob" ∷ bytes ∷ int ∷ int ∷ [])
    ∷ routine "blob_write" int (ptr "sqlite3_blob" ∷ bytes ∷ int ∷ int ∷ [])
    ∷ routine "create_collation_v2" int (db ∷ chars ∷ int ∷ bytes ∷ callback ∷ callback ∷ [])
    ∷ routine "file_control" int (db ∷ chars ∷ int ∷ bytes ∷ [])
    ∷ routine "memory_highwater" int64 (int ∷ [])
    ∷ routine "memory_used" int64 []
    ∷ routine "mutex_alloc" (ptr "sqlite3_mutex") (int ∷ [])
    ∷ routine "mutex_enter" void (ptr "sqlite3_mutex" ∷ [])
    ∷ routine "mutex_free" void (ptr "sqlite3_mutex" ∷ [])
    ∷ routine "mutex_leave" void (ptr "sqlite3_mutex" ∷ [])
    ∷ routine "mutex_try" int (ptr "sqlite3_mutex" ∷ [])
    ∷ routine "open_v2" int (chars ∷ ptr "sqlite3*" ∷ int ∷ chars ∷ [])
    ∷ routine "release_memory" int (int ∷ [])
    ∷ routine "result_error_nomem" void (context ∷ [])
    ∷ routine "result_error_toobig" void (context ∷ [])
    ∷ routine "sleep" int (int ∷ [])
    ∷ routine "soft_heap_limit" void (int ∷ [])
    ∷ routine "vfs_find" (ptr "sqlite3_vfs") (chars ∷ [])
    ∷ routine "vfs_register" int (ptr "sqlite3_vfs" ∷ int ∷ [])
    ∷ routine "vfs_unregister" int (ptr "sqlite3_vfs" ∷ [])
    ∷ routine "xthreadsafe" int []
    ∷ routine "result_zeroblob" void (context ∷ int ∷ [])
    ∷ routine "result_error_code" void (context ∷ int ∷ [])
    ∷ variadic "test_control" int (int ∷ [])
    ∷ routine "randomness" void (int ∷ bytes ∷ [])
    ∷ routine "context_db_handle" db (context ∷ [])
    ∷ routine "extended_result_codes" int (db ∷ int ∷ [])
    ∷ routine "limit" int (db ∷ int ∷ int ∷ [])
    ∷ routine "next_stmt" stmt (db ∷ stmt ∷ [])
    ∷ routine "sql" chars (stmt ∷ [])
    ∷ routine "status" int (int ∷ ptr "int" ∷ ptr "int" ∷ int ∷ [])
    ∷ []

abbrev pub backup_finish_to_vtab_on_conflict : List Routine
backup_finish_to_vtab_on_conflict =
    routine "backup_finish" int (ptr "sqlite3_backup" ∷ [])
    ∷ routine "backup_init" (ptr "sqlite3_backup") (db ∷ chars ∷ db ∷ chars ∷ [])
    ∷ routine "backup_pagecount" int (ptr "sqlite3_backup" ∷ [])
    ∷ routine "backup_remaining" int (ptr "sqlite3_backup" ∷ [])
    ∷ routine "backup_step" int (ptr "sqlite3_backup" ∷ int ∷ [])
    ∷ routine "compileoption_get" chars (int ∷ [])
    ∷ routine "compileoption_used" int (chars ∷ [])
    ∷ routine "create_function_v2" int
        (db ∷ chars ∷ int ∷ int ∷ bytes ∷ callback ∷ callback ∷ callback ∷ callback ∷ [])
    ∷ variadic "db_config" int (db ∷ int ∷ [])
    ∷ routine "db_mutex" (ptr "sqlite3_mutex") (db ∷ [])
    ∷ routine "db_status" int (db ∷ int ∷ ptr "int" ∷ ptr "int" ∷ int ∷ [])
    ∷ routine "extended_errcode" int (db ∷ [])
    ∷ variadic "log" void (int ∷ chars ∷ [])
    ∷ routine "soft_heap_limit64" int64 (int64 ∷ [])
    ∷ routine "sourceid" chars []
    ∷ routine "stmt_status" int (stmt ∷ int ∷ int ∷ [])
    ∷ routine "strnicmp" int (chars ∷ chars ∷ int ∷ [])
    ∷ routine "unlock_notify" int (db ∷ callback ∷ bytes ∷ [])
    ∷ routine "wal_autocheckpoint" int (db ∷ int ∷ [])
    ∷ routine "wal_checkpoint" int (db ∷ chars ∷ [])
    ∷ routine "wal_hook" bytes (db ∷ callback ∷ bytes ∷ [])
    ∷ routine "blob_reopen" int (ptr "sqlite3_blob" ∷ int64 ∷ [])
    ∷ variadic "vtab_config" int (db ∷ int ∷ [])
    ∷ routine "vtab_on_conflict" int (db ∷ [])
    ∷ []
