-- ===== src/Linking/Header/Tables.antt =====
-- src/ffi/sqlite3.h: the functions that its sections declare, on virtual tables, BLOBs, files and mutexes.
use sqlite3_ext.Prelude.{List, [], ◌∷◌}
use sqlite3_ext.Linking.{
  Routine, routine, variadic, db, chars, bytes, void, int, int64, callback, ptr,
}

abbrev pub register_a_virtual_table_implementation : List Routine
register_a_virtual_table_implementation =
    routine "sqlite3_create_module" int (db ∷ chars ∷ ptr "sqlite3_module" ∷ bytes ∷ [])
    ∷ routine "sqlite3_create_module_v2" int
        (db ∷ chars ∷ ptr "sqlite3_module" ∷ bytes ∷ callback ∷ [])
    ∷ []

abbrev pub remove_unnecessary_virtual_table_implementations : List Routine
remove_unnecessary_virtual_table_implementations =
    routine "sqlite3_drop_modules" int (db ∷ ptr "char*" ∷ []) ∷ []

abbrev pub declare_the_schema_of_a_virtual_table : List Routine
declare_the_schema_of_a_virtual_table = routine "sqlite3_declare_vtab" int (db ∷ chars ∷ []) ∷ []

abbrev pub overload_a_function_for_a_virtual_table : List Routine
overload_a_function_for_a_virtual_table =
    routine "sqlite3_overload_function" int (db ∷ chars ∷ int ∷ []) ∷ []

abbrev pub open_a_blob_for_incremental_i_o : List Routine
open_a_blob_for_incremental_i_o =
    routine "sqlite3_blob_open" int
      (db ∷ chars ∷ chars ∷ chars ∷ int64 ∷ int ∷ ptr "sqlite3_blob*" ∷ [])
    ∷ []

abbrev pub move_a_blob_handle_to_a_new_row : List Routine
move_a_blob_handle_to_a_new_row =
    routine "sqlite3_blob_reopen" int (ptr "sqlite3_blob" ∷ int64 ∷ []) ∷ []

abbrev pub close_a_blob_handle : List Routine
close_a_blob_handle = routine "sqlite3_blob_close" int (ptr "sqlite3_blob" ∷ []) ∷ []

abbrev pub return_the_size_of_an_open_blob : List Routine
return_the_size_of_an_open_blob = routine "sqlite3_blob_bytes" int (ptr "sqlite3_blob" ∷ []) ∷ []

abbrev pub read_data_from_a_blob_incrementally : List Routine
read_data_from_a_blob_incrementally =
    routine "sqlite3_blob_read" int (ptr "sqlite3_blob" ∷ bytes ∷ int ∷ int ∷ []) ∷ []

abbrev pub write_data_into_a_blob_incrementally : List Routine
write_data_into_a_blob_incrementally =
    routine "sqlite3_blob_write" int (ptr "sqlite3_blob" ∷ bytes ∷ int ∷ int ∷ []) ∷ []

abbrev pub virtual_file_system_objects : List Routine
virtual_file_system_objects =
    routine "sqlite3_vfs_find" (ptr "sqlite3_vfs") (chars ∷ [])
    ∷ routine "sqlite3_vfs_register" int (ptr "sqlite3_vfs" ∷ int ∷ [])
    ∷ routine "sqlite3_vfs_unregister" int (ptr "sqlite3_vfs" ∷ [])
    ∷ []

abbrev pub mutexes : List Routine
mutexes =
    routine "sqlite3_mutex_alloc" (ptr "sqlite3_mutex") (int ∷ [])
    ∷ routine "sqlite3_mutex_free" void (ptr "sqlite3_mutex" ∷ [])
    ∷ routine "sqlite3_mutex_enter" void (ptr "sqlite3_mutex" ∷ [])
    ∷ routine "sqlite3_mutex_try" int (ptr "sqlite3_mutex" ∷ [])
    ∷ routine "sqlite3_mutex_leave" void (ptr "sqlite3_mutex" ∷ [])
    ∷ []

abbrev pub mutex_verification_routines : List Routine
mutex_verification_routines =
    routine "sqlite3_mutex_held" int (ptr "sqlite3_mutex" ∷ [])
    ∷ routine "sqlite3_mutex_notheld" int (ptr "sqlite3_mutex" ∷ [])
    ∷ []

abbrev pub retrieve_the_mutex_for_a_database_connection : List Routine
retrieve_the_mutex_for_a_database_connection =
    routine "sqlite3_db_mutex" (ptr "sqlite3_mutex") (db ∷ []) ∷ []

abbrev pub low_level_control_of_database_files : List Routine
low_level_control_of_database_files =
    routine "sqlite3_file_control" int (db ∷ chars ∷ int ∷ bytes ∷ []) ∷ []

abbrev pub testing_interface : List Routine
testing_interface = variadic "sqlite3_test_control" int (int ∷ []) ∷ []

abbrev pub sql_keyword_checking : List Routine
sql_keyword_checking =
    routine "sqlite3_keyword_count" int []
    ∷ routine "sqlite3_keyword_name" int (int ∷ ptr "char*" ∷ ptr "int" ∷ [])
    ∷ routine "sqlite3_keyword_check" int (chars ∷ int ∷ [])
    ∷ []
