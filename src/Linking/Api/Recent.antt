-- ===== src/Linking/Api/Recent.antt =====
-- src/ffi/sqlite3ext.h: the members of sqlite3_api_routines from 3.7.16 on.
use sqlite3_ext.Prelude.{List, [], ◌∷◌}
use sqlite3_ext.Linking.{
  Routine, routine, db, stmt, context, value, chars, bytes, void, int, unsigned_int, unsigned_char,
  int64, uint64, va_list, callback, ptr,
}

abbrev pub version_3_7_16 : List Routine
version_3_7_16 =
    routine "close_v2" int (db ∷ [])
    ∷ routine "db_filename" chars (db ∷ chars ∷ [])
    ∷ routine "db_readonly" int (db ∷ chars ∷ [])
    ∷ routine "db_release_memory" int (db ∷ [])
    ∷ routine "errstr" chars (int ∷ [])
    ∷ routine "stmt_busy" int (stmt ∷ [])
    ∷ routine "stmt_readonly" int (stmt ∷ [])
    ∷ routine "stricmp" int (chars ∷ chars ∷ [])
    ∷ routine "uri_boolean" int (chars ∷ chars ∷ int ∷ [])
    ∷ routine "uri_int64" int64 (chars ∷ chars ∷ int64 ∷ [])
    ∷ routine "uri_parameter" chars (chars ∷ chars ∷ [])
    ∷ routine "xvsnprintf" chars (int ∷ chars ∷ chars ∷ va_list ∷ [])
    ∷ routine "wal_checkpoint_v2" int (db ∷ chars ∷ int ∷ ptr "int" ∷ ptr "int" ∷ [])
    ∷ []

abbrev pub version_3_8_7 : List Routine
version_3_8_7 =
    routine "auto_extension" int (callback ∷ [])
    ∷ routine "bind_blob64" int (stmt ∷ int ∷ bytes ∷ uint64 ∷ callback ∷ [])
    ∷ routine "bind_text64" int (stmt ∷ int ∷ chars ∷ uint64 ∷ callback ∷ unsigned_char ∷ [])
    ∷ routine "cancel_auto_extension" int (callback ∷ [])
    ∷ routine "load_extension" int (db ∷ chars ∷ chars ∷ ptr "char*" ∷ [])
    ∷ routine "malloc64" bytes (uint64 ∷ [])
    ∷ routine "msize" uint64 (bytes ∷ [])
    ∷ routine "realloc64" bytes (bytes ∷ uint64 ∷ [])
    ∷ routine "reset_auto_extension" void []
    ∷ routine "result_blob64" void (context ∷ bytes ∷ uint64 ∷ callback ∷ [])
    ∷ routine "result_text64" void (context ∷ chars ∷ uint64 ∷ callback ∷ unsigned_char ∷ [])
    ∷ routine "strglob" int (chars ∷ chars ∷ [])
    ∷ []

abbrev pub version_3_8_11 : List Routine
version_3_8_11 =
    routine "value_dup" value (value ∷ [])
    ∷ routine "value_free" void (value ∷ [])
    ∷ routine "result_zeroblob64" int (context ∷ uint64 ∷ [])
    ∷ routine "bind_zeroblob64" int (stmt ∷ int ∷ uint64 ∷ [])
    ∷ []

abbrev pub version_3_9_0 : List Routine
version_3_9_0 =
    routine "value_subtype" unsigned_int (value ∷ [])
    ∷ routine "result_subtype" void (context ∷ unsigned_int ∷ [])
    ∷ []

abbrev pub version_3_10_0 : List Routine
version_3_10_0 =
    routine "status64" int (int ∷ ptr "sqlite3_int64" ∷ ptr "sqlite3_int64" ∷ int ∷ [])
    ∷ routine "strlike" int (chars ∷ chars ∷ unsigned_int ∷ [])
    ∷ routine "db_cacheflush" int (db ∷ [])
    ∷ []

abbrev pub version_3_12_0 : List Routine
version_3_12_0 = routine "system_errno" int (db ∷ []) ∷ []

abbrev pub version_3_14_0 : List Routine
version_3_14_0 =
    routine "trace_v2" int (db ∷ unsigned_int ∷ callback ∷ bytes ∷ [])
    ∷ routine "expanded_sql" chars (stmt ∷ [])
    ∷ []

abbrev pub version_3_18_0 : List Routine
version_3_18_0 = routine "set_last_insert_rowid" void (db ∷ int64 ∷ []) ∷ []
