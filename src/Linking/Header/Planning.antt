-- ===== src/Linking/Header/Planning.antt =====
-- src/ffi/sqlite3.h: the functions that its sections declare, on the log, and the planning of virtual tables.
use sqlite3_ext.Prelude.{List, [], ◌∷◌}
use sqlite3_ext.Linking.{
  Routine, routine, variadic, db, stmt, context, value, chars, bytes, void, int, unsigned_int,
  int64, callback, ptr,
}

abbrev pub error_logging_interface : List Routine
error_logging_interface = variadic "sqlite3_log" void (int ∷ chars ∷ []) ∷ []

abbrev pub write_ahead_log_commit_hook : List Routine
write_ahead_log_commit_hook = routine "sqlite3_wal_hook" bytes (db ∷ callback ∷ bytes ∷ []) ∷ []

abbrev pub configure_an_auto_checkpoint : List Routine
configure_an_auto_checkpoint = routine "sqlite3_wal_autocheckpoint" int (db ∷ int ∷ []) ∷ []

abbrev pub checkpoint_a_database : List Routine
checkpoint_a_database = routine "sqlite3_wal_checkpoint" int (db ∷ chars ∷ []) ∷ []

abbrev pub checkpoint_a_database_wal_checkpoint_v2 : List Routine
checkpoint_a_database_wal_checkpoint_v2 =
    routine "sqlite3_wal_checkpoint_v2" int (db ∷ chars ∷ int ∷ ptr "int" ∷ ptr "int" ∷ []) ∷ []

abbrev pub virtual_table_interface_configuration : List Routine
virtual_table_interface_configuration = variadic "sqlite3_vtab_config" int (db ∷ int ∷ []) ∷ []

abbrev pub determine_the_virtual_table_conflict_policy : List Routine
determine_the_virtual_table_conflict_policy = routine "sqlite3_vtab_on_conflict" int (db ∷ []) ∷ []

abbrev pub determine_if_virtual_table_column_access_is_for_update : List Routine
determine_if_virtual_table_column_access_is_for_update =
    routine "sqlite3_vtab_nochange" int (context ∷ []) ∷ []

abbrev pub determine_the_collation_for_a_virtual_table_constraint : List Routine
determine_the_collation_for_a_virtual_table_constraint =
    routine "sqlite3_vtab_collation" chars (ptr "sqlite3_index_info" ∷ int ∷ []) ∷ []

abbrev pub determine_if_a_virtual_table_query_is_distinct : List Routine
determine_if_a_virtual_table_query_is_distinct =
    routine "sqlite3_vtab_distinct" int (ptr "sqlite3_index_info" ∷ []) ∷ []

abbrev pub identify_and_handle_in_constraints_in_xbestindex : List Routine
identify_and_handle_in_constraints_in_xbestindex =
    routine "sqlite3_vtab_in" int (ptr "sqlite3_index_info" ∷ int ∷ int ∷ []) ∷ []

abbrev pub find_all_elements_on_the_right_hand_side_of_an_in_constraint : List Routine
find_all_elements_on_the_right_hand_side_of_an_in_constraint =
    routine "sqlite3_vtab_in_first" int (value ∷ ptr "sqlite3_value*" ∷ [])
    ∷ routine "sqlite3_vtab_in_next" int (value ∷ ptr "sqlite3_value*" ∷ [])
    ∷ []

abbrev pub constraint_values_in_xbestindex : List Routine
constraint_values_in_xbestindex =
    routine "sqlite3_vtab_rhs_value" int
      (ptr "sqlite3_index_info" ∷ int ∷ ptr "sqlite3_value*" ∷ [])
    ∷ []

abbrev pub prepared_statement_scan_status : List Routine
prepared_statement_scan_status =
    routine "sqlite3_stmt_scanstatus" int (stmt ∷ int ∷ int ∷ bytes ∷ []) ∷ []

abbrev pub zero_scan_status_counters : List Routine
zero_scan_status_counters = routine "sqlite3_stmt_scanstatus_reset" void (stmt ∷ []) ∷ []

abbrev pub flush_caches_to_disk_mid_transaction : List Routine
flush_caches_to_disk_mid_transaction = routine "sqlite3_db_cacheflush" int (db ∷ []) ∷ []

abbrev pub the_pre_update_hook : List Routine
the_pre_update_hook =
    routine "sqlite3_preupdate_hook" bytes (db ∷ callback ∷ bytes ∷ [])
    ∷ routine "sqlite3_preupdate_old" int (db ∷ int ∷ ptr "sqlite3_value*" ∷ [])
    ∷ routine "sqlite3_preupdate_count" int (db ∷ [])
    ∷ routine "sqlite3_preupdate_depth" int (db ∷ [])
    ∷ routine "sqlite3_preupdate_new" int (db ∷ int ∷ ptr "sqlite3_value*" ∷ [])
    ∷ routine "sqlite3_preupdate_blobwrite" int (db ∷ [])
    ∷ []

abbrev pub low_level_system_error_code : List Routine
low_level_system_error_code = routine "sqlite3_system_errno" int (db ∷ []) ∷ []

abbrev pub record_a_database_snapshot : List Routine
record_a_database_snapshot =
    routine "sqlite3_snapshot_get" int (db ∷ chars ∷ ptr "sqlite3_snapshot*" ∷ []) ∷ []

abbrev pub start_a_read_transaction_on_an_historical_snapshot : List Routine
start_a_read_transaction_on_an_historical_snapshot =
    routine "sqlite3_snapshot_open" int (db ∷ chars ∷ ptr "sqlite3_snapshot" ∷ []) ∷ []

abbrev pub destroy_a_snapshot : List Routine
destroy_a_snapshot = routine "sqlite3_snapshot_free" void (ptr "sqlite3_snapshot" ∷ []) ∷ []

abbrev pub compare_the_ages_of_two_snapshot_handles : List Routine
compare_the_ages_of_two_snapshot_handles =
    routine "sqlite3_snapshot_cmp" int (ptr "sqlite3_snapshot" ∷ ptr "sqlite3_snapshot" ∷ []) ∷ []

abbrev pub recover_snapshots_from_a_wal_file : List Routine
recover_snapshots_from_a_wal_file = routine "sqlite3_snapshot_recover" int (db ∷ chars ∷ []) ∷ []

abbrev pub serialize_a_database : List Routine
serialize_a_database =
    routine "sqlite3_serialize" (ptr "unsigned char")
      (db ∷ chars ∷ ptr "sqlite3_int64" ∷ unsigned_int ∷ [])
    ∷ []

abbrev pub deserialize_a_database : List Routine
deserialize_a_database =
    routine "sqlite3_deserialize" int
      (db ∷ chars ∷ ptr "unsigned char" ∷ int64 ∷ int64 ∷ unsigned_int ∷ [])
    ∷ []

abbrev pub flags_for_sqlite3_deserialize : List Routine
flags_for_sqlite3_deserialize =
    routine "sqlite3_rtree_geometry_callback" int (db ∷ chars ∷ callback ∷ bytes ∷ []) ∷ []

abbrev pub flags_for_sqlite3_deserialize_rtree_query_callback : List Routine
flags_for_sqlite3_deserialize_rtree_query_callback =
    routine "sqlite3_rtree_query_callback" int (db ∷ chars ∷ callback ∷ bytes ∷ callback ∷ []) ∷ []
