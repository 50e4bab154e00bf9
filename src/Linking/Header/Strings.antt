-- ===== src/Linking/Header/Strings.antt =====
-- src/ffi/sqlite3.h: the functions that its sections declare, on strings, status, backups and comparison.
use sqlite3_ext.Prelude.{List, [], ◌∷◌}
use sqlite3_ext.Linking.{
  Routine, routine, variadic, db, stmt, chars, bytes, void, int, unsigned_int, char, va_list,
  callback, ptr,
}

abbrev pub create_a_new_dynamic_string_object : List Routine
create_a_new_dynamic_string_object = routine "sqlite3_str_new" (ptr "sqlite3_str") (db ∷ []) ∷ []

abbrev pub finalize_a_dynamic_string : List Routine
finalize_a_dynamic_string = routine "sqlite3_str_finish" chars (ptr "sqlite3_str" ∷ []) ∷ []

abbrev pub add_content_to_a_dynamic_string : List Routine
add_content_to_a_dynamic_string =
    variadic "sqlite3_str_appendf" void (ptr "sqlite3_str" ∷ chars ∷ [])
    ∷ routine "sqlite3_str_vappendf" void (ptr "sqlite3_str" ∷ chars ∷ va_list ∷ [])
    ∷ routine "sqlite3_str_append" void (ptr "sqlite3_str" ∷ chars ∷ int ∷ [])
    ∷ routine "sqlite3_str_appendall" void (ptr "sqlite3_str" ∷ chars ∷ [])
    ∷ routine "sqlite3_str_appendchar" void (ptr "sqlite3_str" ∷ int ∷ char ∷ [])
    ∷ routine "sqlite3_str_reset" void (ptr "sqlite3_str" ∷ [])
    ∷ []

abbrev pub status_of_a_dynamic_string : List Routine
status_of_a_dynamic_string =
    routine "sqlite3_str_errcode" int (ptr "sqlite3_str" ∷ [])
    ∷ routine "sqlite3_str_length" int (ptr "sqlite3_str" ∷ [])
    ∷ routine "sqlite3_str_value" chars (ptr "sqlite3_str" ∷ [])
    ∷ []

abbrev pub sqlite_runtime_status : List Routine
sqlite_runtime_status =
    routine "sqlite3_status" int (int ∷ ptr "int" ∷ ptr "int" ∷ int ∷ [])
    ∷ routine "sqlite3_status64" int (int ∷ ptr "sqlite3_int64" ∷ ptr "sqlite3_int64" ∷ int ∷ [])
    ∷ []

abbrev pub database_connection_status : List Routine
database_connection_status =
    routine "sqlite3_db_status" int (db ∷ int ∷ ptr "int" ∷ ptr "int" ∷ int ∷ []) ∷ []

abbrev pub prepared_statement_status : List Routine
prepared_statement_status = routine "sqlite3_stmt_status" int (stmt ∷ int ∷ int ∷ []) ∷ []

abbrev pub online_backup_api : List Routine
online_backup_api =
    routine "sqlite3_backup_init" (ptr "sqlite3_backup") (db ∷ chars ∷ db ∷ chars ∷ [])
    ∷ routine "sqlite3_backup_step" int (ptr "sqlite3_backup" ∷ int ∷ [])
    ∷ routine "sqlite3_backup_finish" int (ptr "sqlite3_backup" ∷ [])
    ∷ routine "sqlite3_backup_remaining" int (ptr "sqlite3_backup" ∷ [])
    ∷ routine "sqlite3_backup_pagecount" int (ptr "sqlite3_backup" ∷ [])
    ∷ []

abbrev pub unlock_notification : List Routine
unlock_notification = routine "sqlite3_unlock_notify" int (db ∷ callback ∷ bytes ∷ []) ∷ []

abbrev pub string_comparison : List Routine
string_comparison =
    routine "sqlite3_stricmp" int (chars ∷ chars ∷ [])
    ∷ routine "sqlite3_strnicmp" int (chars ∷ chars ∷ int ∷ [])
    ∷ []

abbrev pub string_globbing : List Routine
string_globbing = routine "sqlite3_strglob" int (chars ∷ chars ∷ []) ∷ []

abbrev pub string_like_matching : List Routine
string_like_matching = routine "sqlite3_strlike" int (chars ∷ chars ∷ unsigned_int ∷ []) ∷ []
