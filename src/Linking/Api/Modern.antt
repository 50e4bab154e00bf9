-- ===== src/Linking/Api/Modern.antt =====
-- src/ffi/sqlite3ext.h: the members of sqlite3_api_routines from 3.20.0 on.
use sqlite3_ext.Prelude.{List, [], ◌∷◌}
use sqlite3_ext.Linking.{
  Routine, routine, variadic, db, stmt, context, value, chars, bytes, void, int, unsigned_int, char,
  int64, va_list, callback, ptr,
}

abbrev pub version_3_20_0 : List Routine
version_3_20_0 =
    routine "prepare_v3" int
      (db ∷ chars ∷ int ∷ unsigned_int ∷ ptr "sqlite3_stmt*" ∷ ptr "char*" ∷ [])
    ∷ routine "prepare16_v3" int
        (db ∷ bytes ∷ int ∷ unsigned_int ∷ ptr "sqlite3_stmt*" ∷ ptr "void*" ∷ [])
    ∷ routine "bind_pointer" int (stmt ∷ int ∷ bytes ∷ chars ∷ callback ∷ [])
    ∷ routine "result_pointer" void (context ∷ bytes ∷ chars ∷ callback ∷ [])
    ∷ routine "value_pointer" bytes (value ∷ chars ∷ [])
    ∷ routine "vtab_nochange" int (context ∷ [])
    ∷ routine "value_nochange" int (value ∷ [])
    ∷ routine "vtab_collation" chars (ptr "sqlite3_index_info" ∷ int ∷ [])
    ∷ []

abbrev pub version_3_24_0 : List Routine
version_3_24_0 =
    routine "keyword_count" int []
    ∷ routine "keyword_name" int (int ∷ ptr "char*" ∷ ptr "int" ∷ [])
    ∷ routine "keyword_check" int (chars ∷ int ∷ [])
    ∷ routine "str_new" (ptr "sqlite3_str") (db ∷ [])
    ∷ routine "str_finish" chars (ptr "sqlite3_str" ∷ [])
    ∷ variadic "str_appendf" void (ptr "sqlite3_str" ∷ chars ∷ [])
    ∷ routine "str_vappendf" void (ptr "sqlite3_str" ∷ chars ∷ va_list ∷ [])
    ∷ routine "str_append" void (ptr "sqlite3_str" ∷ chars ∷ int ∷ [])
    ∷ routine "str_appendall" void (ptr "sqlite3_str" ∷ chars ∷ [])
    ∷ routine "str_appendchar" void (ptr "sqlite3_str" ∷ int ∷ char ∷ [])
    ∷ routine "str_reset" void (ptr "sqlite3_str" ∷ [])
    ∷ routine "str_errcode" int (ptr "sqlite3_str" ∷ [])
    ∷ routine "str_length" int (ptr "sqlite3_str" ∷ [])
    ∷ routine "str_value" chars (ptr "sqlite3_str" ∷ [])
    ∷ []

abbrev pub version_3_25_0 : List Routine
version_3_25_0 =
    routine "create_window_function" int
      (db ∷ chars ∷ int ∷ int ∷ bytes ∷ callback ∷ callback ∷ callback ∷ callback ∷ callback ∷ [])
    ∷ []

abbrev pub version_3_26_0 : List Routine
version_3_26_0 = routine "normalized_sql" chars (stmt ∷ []) ∷ []

abbrev pub version_3_28_0 : List Routine
version_3_28_0 =
    routine "stmt_isexplain" int (stmt ∷ []) ∷ routine "value_frombind" int (value ∷ []) ∷ []

abbrev pub version_3_30_0 : List Routine
version_3_30_0 = routine "drop_modules" int (db ∷ ptr "char*" ∷ []) ∷ []

abbrev pub version_3_31_0 : List Routine
version_3_31_0 =
    routine "hard_heap_limit64" int64 (int64 ∷ [])
    ∷ routine "uri_key" chars (chars ∷ int ∷ [])
    ∷ routine "filename_database" chars (chars ∷ [])
    ∷ routine "filename_journal" chars (chars ∷ [])
    ∷ routine "filename_wal" chars (chars ∷ [])
    ∷ []

abbrev pub version_3_32_0 : List Routine
version_3_32_0 =
    routine "create_filename" chars (chars ∷ chars ∷ chars ∷ int ∷ ptr "char*" ∷ [])
    ∷ routine "free_filename" void (chars ∷ [])
    ∷ routine "database_file_object" (ptr "sqlite3_file") (chars ∷ [])
    ∷ []

abbrev pub version_3_34_0 : List Routine
version_3_34_0 = routine "txn_state" int (db ∷ chars ∷ []) ∷ []

abbrev pub version_3_36_1 : List Routine
version_3_36_1 =
    routine "changes64" int64 (db ∷ []) ∷ routine "total_changes64" int64 (db ∷ []) ∷ []

abbrev pub version_3_37_0 : List Routine
version_3_37_0 = routine "autovacuum_pages" int (db ∷ callback ∷ bytes ∷ callback ∷ []) ∷ []

abbrev pub version_3_38_0 : List Routine
version_3_38_0 =
    routine "error_offset" int (db ∷ [])
    ∷ routine "vtab_rhs_value" int (ptr "sqlite3_index_info" ∷ int ∷ ptr "sqlite3_value*" ∷ [])
    ∷ routine "vtab_distinct" int (ptr "sqlite3_index_info" ∷ [])
    ∷ routine "vtab_in" int (ptr "sqlite3_index_info" ∷ int ∷ int ∷ [])
    ∷ routine "vtab_in_first" int (value ∷ ptr "sqlite3_value*" ∷ [])
    ∷ routine "vtab_in_next" int (value ∷ ptr "sqlite3_value*" ∷ [])
    ∷ []
