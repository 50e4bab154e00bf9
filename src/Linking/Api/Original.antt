-- ===== src/Linking/Api/Original.antt =====
-- src/ffi/sqlite3ext.h: the first members of sqlite3_api_routines, before any comment on a version.
use sqlite3_ext.Prelude.{List, [], ◌∷◌}
use sqlite3_ext.Linking.{
  Routine, routine, variadic, db, stmt, context, value, chars, bytes, void, int, int64, double,
  va_list, callback, ptr,
}

abbrev pub aggregate_context_to_create_function16 : List Routine
aggregate_context_to_create_function16 =
    routine "aggregate_context" bytes (context ∷ int ∷ [])
    ∷ routine "aggregate_count" int (context ∷ [])
    ∷ routine "bind_blob" int (stmt ∷ int ∷ bytes ∷ int ∷ callback ∷ [])
    ∷ routine "bind_double" int (stmt ∷ int ∷ double ∷ [])
    ∷ routine "bind_int" int (stmt ∷ int ∷ int ∷ [])
    ∷ routine "bind_int64" int (stmt ∷ int ∷ int64 ∷ [])
    ∷ routine "bind_null" int (stmt ∷ int ∷ [])
    ∷ routine "bind_parameter_count" int (stmt ∷ [])
    ∷ routine "bind_parameter_index" int (stmt ∷ chars ∷ [])
    ∷ routine "bind_parameter_name" chars (stmt ∷ int ∷ [])
    ∷ routine "bind_text" int (stmt ∷ int ∷ chars ∷ int ∷ callback ∷ [])
    ∷ routine "bind_text16" int (stmt ∷ int ∷ bytes ∷ int ∷ callback ∷ [])
    ∷ routine "bind_value" int (stmt ∷ int ∷ value ∷ [])
    ∷ routine "busy_handler" int (db ∷ callback ∷ bytes ∷ [])
    ∷ routine "busy_timeout" int (db ∷ int ∷ [])
    ∷ routine "changes" int (db ∷ [])
    ∷ routine "close" int (db ∷ [])
    ∷ routine "collation_needed" int (db ∷ bytes ∷ callback ∷ [])
    ∷ routine "collation_needed16" int (db ∷ bytes ∷ callback ∷ [])
    ∷ routine "column_blob" bytes (stmt ∷ int ∷ [])
    ∷ routine "column_bytes" int (stmt ∷ int ∷ [])
    ∷ routine "column_bytes16" int (stmt ∷ int ∷ [])
    ∷ routine "column_count" int (stmt ∷ [])
    ∷ routine "column_database_name" chars (stmt ∷ int ∷ [])
    ∷ routine "column_database_name16" bytes (stmt ∷ int ∷ [])
    ∷ routine "column_decltype" chars (stmt ∷ int ∷ [])
    ∷ routine "column_decltype16" bytes (stmt ∷ int ∷ [])
    ∷ routine "column_double" double (stmt ∷ int ∷ [])
    ∷ routine "column_int" int (stmt ∷ int ∷ [])
    ∷ routine "column_int64" int64 (stmt ∷ int ∷ [])
    ∷ routine "column_name" chars (stmt ∷ int ∷ [])
    ∷ routine "column_name16" bytes (stmt ∷ int ∷ [])
    ∷ routine "column_origin_name" chars (stmt ∷ int ∷ [])
    ∷ routine "column_origin_name16" bytes (stmt ∷ int ∷ [])
    ∷ routine "column_table_name" chars (stmt ∷ int ∷ [])
    ∷ routine "column_table_name16" bytes (stmt ∷ int ∷ [])
    ∷ routine "column_text" (ptr "unsigned char") (stmt ∷ int ∷ [])
    ∷ routine "column_text16" bytes (stmt ∷ int ∷ [])
    ∷ routine "column_type" int (stmt ∷ int ∷ [])
    ∷ routine "column_value" value (stmt ∷ int ∷ [])
    ∷ routine "commit_hook" bytes (db ∷ callback ∷ bytes ∷ [])
    ∷ routine "complete" int (chars ∷ [])
    ∷ routine "complete16" int (bytes ∷ [])
    ∷ routine "create_collation" int (db ∷ chars ∷ int ∷ bytes ∷ callback ∷ [])
    ∷ routine "create_collation16" int (db ∷ bytes ∷ int ∷ bytes ∷ callback ∷ [])
    ∷ routine "create_function" int
        (db ∷ chars ∷ int ∷ int ∷ bytes ∷ callback ∷ callback ∷ callback ∷ [])
    ∷ routine "create_function16" int
        (db ∷ bytes ∷ int ∷ int ∷ bytes ∷ callback ∷ callback ∷ callback ∷ [])
    ∷ []

abbrev pub create_module_to_result_text : List Routine
create_module_to_result_text =
    routine "create_module" int (db ∷ chars ∷ ptr "sqlite3_module" ∷ bytes ∷ [])
    ∷ routine "data_count" int (stmt ∷ [])
    ∷ routine "db_handle" db (stmt ∷ [])
    ∷ routine "declare_vtab" int (db ∷ chars ∷ [])
    ∷ routine "enable_shared_cache" int (int ∷ [])
    ∷ routine "errcode" int (db ∷ [])
    ∷ routine "errmsg" chars (db ∷ [])
    ∷ routine "errmsg16" bytes (db ∷ [])
    ∷ routine "exec" int (db ∷ chars ∷ callback ∷ bytes ∷ ptr "char*" ∷ [])
    ∷ routine "expired" int (stmt ∷ [])
    ∷ routine "finalize" int (stmt ∷ [])
    ∷ routine "free" void (bytes ∷ [])
    ∷ routine "free_table" void (ptr "char*" ∷ [])
    ∷ routine "get_autocommit" int (db ∷ [])
    ∷ routine "get_auxdata" bytes (context ∷ int ∷ [])
    ∷ routine "get_table" int (db ∷ chars ∷ ptr "char**" ∷ ptr "int" ∷ ptr "int" ∷ ptr "char*" ∷ [])
    ∷ routine "global_recover" int []
    ∷ routine "interruptx" void (db ∷ [])
    ∷ routine "last_insert_rowid" int64 (db ∷ [])
    ∷ routine "libversion" chars []
    ∷ routine "libversion_number" int []
    ∷ routine "malloc" bytes (int ∷ [])
    ∷ variadic "mprintf" chars (chars ∷ [])
    ∷ routine "open" int (chars ∷ ptr "sqlite3*" ∷ [])
    ∷ routine "open16" int (bytes ∷ ptr "sqlite3*" ∷ [])
    ∷ routine "prepare" int (db ∷ chars ∷ int ∷ ptr "sqlite3_stmt*" ∷ ptr "char*" ∷ [])
    ∷ routine "prepare16" int (db ∷ bytes ∷ int ∷ ptr "sqlite3_stmt*" ∷ ptr "void*" ∷ [])
    ∷ routine "profile" bytes (db ∷ callback ∷ bytes ∷ [])
    ∷ routine "progress_handler" void (db ∷ int ∷ callback ∷ bytes ∷ [])
    ∷ routine "realloc" bytes (bytes ∷ int ∷ [])
    ∷ routine "reset" int (stmt ∷ [])
    ∷ routine "result_blob" void (context ∷ bytes ∷ int ∷ callback ∷ [])
    ∷ routine "result_double" void (context ∷ double ∷ [])
    ∷ routine "result_error" void (context ∷ chars ∷ int ∷ [])
    ∷ routine "result_error16" void (context ∷ bytes ∷ int ∷ [])
    ∷ routine "result_int" void (context ∷ int ∷ [])
    ∷ routine "result_int64" void (context ∷ int64 ∷ [])
    ∷ routine "result_null" void (context ∷ [])
    ∷ routine "result_text" void (context ∷ chars ∷ int ∷ callback ∷ [])
    ∷ []

abbrev pub result_text16_to_vmprintf : List Routine
result_text16_to_vmprintf =
    routine "result_text16" void (context ∷ bytes ∷ int ∷ callback ∷ [])
    ∷ routine "result_text16be" void (context ∷ bytes ∷ int ∷ callback ∷ [])
    ∷ routine "result_text16le" void (context ∷ bytes ∷ int ∷ callback ∷ [])
    ∷ routine "result_value" void (context ∷ value ∷ [])
    ∷ routine "rollback_hook" bytes (db ∷ callback ∷ bytes ∷ [])
    ∷ routine "set_authorizer" int (db ∷ callback ∷ bytes ∷ [])
    ∷ routine "set_auxdata" void (context ∷ int ∷ bytes ∷ callback ∷ [])
    ∷ variadic "xsnprintf" chars (int ∷ chars ∷ chars ∷ [])
    ∷ routine "step" int (stmt ∷ [])
    ∷ routine "table_column_metadata" int (
        db
        ∷ chars
        ∷ chars
        ∷ chars
        ∷ ptr "char*"
        ∷ ptr "char*"
        ∷ ptr "int"
        ∷ ptr "int"
        ∷ ptr "int"
        ∷ [])
    ∷ routine "thread_cleanup" void []
    ∷ routine "total_changes" int (db ∷ [])
    ∷ routine "trace" bytes (db ∷ callback ∷ bytes ∷ [])
    ∷ routine "transfer_bindings" int (stmt ∷ stmt ∷ [])
    ∷ routine "update_hook" bytes (db ∷ callback ∷ bytes ∷ [])
    ∷ routine "user_data" bytes (context ∷ [])
    ∷ routine "value_blob" bytes (value ∷ [])
    ∷ routine "value_bytes" int (value ∷ [])
    ∷ routine "value_bytes16" int (value ∷ [])
    ∷ routine "value_double" double (value ∷ [])
    ∷ routine "value_int" int (value ∷ [])
    ∷ routine "value_int64" int64 (value ∷ [])
    ∷ routine "value_numeric_type" int (value ∷ [])
    ∷ routine "value_text" (ptr "unsigned char") (value ∷ [])
    ∷ routine "value_text16" bytes (value ∷ [])
    ∷ routine "value_text16be" bytes (value ∷ [])
    ∷ routine "value_text16le" bytes (value ∷ [])
    ∷ routine "value_type" int (value ∷ [])
    ∷ routine "vmprintf" chars (chars ∷ va_list ∷ [])
    ∷ []
