-- ===== src/Linking/Header.antt =====
-- src/ffi/sqlite3.h: the functions that it declares, by the sections of its documentation:
-- all those whose names begin with sqlite3_, also where a macro has to be set for one.
mod Connections
mod Opening
mod Statements
mod Functions
mod Databases
mod Tables
mod Strings
mod Planning
use sqlite3_ext.Prelude.{List, [], ◌∷◌}
use sqlite3_ext.Linking.{Routine, concat}
use sqlite3_ext.Linking.Header.Connections.{
  run_time_library_version_numbers, run_time_library_compilation_options_diagnostics,
  test_to_see_if_the_library_is_threadsafe, closing_a_database_connection,
  one_step_query_execution_interface, initialize_the_sqlite_library, configuring_the_sqlite_library,
  configure_database_connections, enable_or_disable_extended_result_codes, last_insert_rowid,
  set_the_last_insert_rowid_value, count_the_number_of_rows_modified, total_number_of_rows_modified,
  interrupt_a_long_running_query, determine_if_an_sql_statement_is_complete,
}
use sqlite3_ext.Linking.Header.Opening.{
  register_a_callback_to_handle_sqlite_busy_errors, set_a_busy_timeout,
  convenience_routines_for_running_queries, formatted_string_printing_functions,
  memory_allocation_subsystem, memory_allocator_statistics, pseudo_random_number_generator,
  compile_time_authorization_callbacks, tracing_and_profiling_functions, sql_trace_hook,
  query_progress_callbacks, opening_a_new_database_connection, obtain_values_for_uri_parameters,
  translate_filenames, database_file_corresponding_to_a_journal, create_and_destroy_vfs_filenames,
  error_codes_and_messages, run_time_limits,
}
use sqlite3_ext.Linking.Header.Statements.{
  compiling_an_sql_statement, retrieving_statement_sql,
  determine_if_an_sql_statement_writes_the_database,
  query_the_explain_setting_for_a_prepared_statement,
  determine_if_a_prepared_statement_has_been_reset, binding_values_to_prepared_statements,
  number_of_sql_parameters, name_of_a_host_parameter, index_of_a_parameter_with_a_given_name,
  reset_all_bindings_on_a_prepared_statement, number_of_columns_in_a_result_set,
  column_names_in_a_result_set, source_of_data_in_a_query_result,
  declared_datatype_of_a_query_result, evaluate_an_sql_statement,
  number_of_columns_in_a_result_set_data_count, result_values_from_a_query,
  destroy_a_prepared_statement_object,
}
use sqlite3_ext.Linking.Header.Functions.{
  reset_a_prepared_statement_object, create_or_redefine_sql_functions, deprecated_functions,
  obtaining_sql_values, finding_the_subtype_of_sql_values, copy_and_free_sql_values,
  obtain_aggregate_function_context, user_data_for_functions, database_connection_for_functions,
  function_auxiliary_data, setting_the_result_of_an_sql_function,
  setting_the_subtype_of_an_sql_function,
}
use sqlite3_ext.Linking.Header.Databases.{
  define_new_collating_sequences, collation_needed_callbacks,
  collation_needed_callbacks_activate_cerod, suspend_execution_for_a_short_time,
  win32_specific_interface, test_for_auto_commit_mode,
  find_the_database_handle_of_a_prepared_statement, return_the_filename_for_a_database_connection,
  determine_if_a_database_is_read_only, determine_the_transaction_state_of_a_database,
  find_the_next_prepared_statement, commit_and_rollback_notification_callbacks,
  autovacuum_compaction_amount_callback, data_change_notification_callbacks,
  enable_or_disable_shared_pager_cache, attempt_to_free_heap_memory,
  free_memory_used_by_a_database_connection, impose_a_limit_on_heap_size,
  deprecated_soft_heap_limit_interface, extract_metadata_about_a_column_of_a_table,
  load_an_extension, enable_or_disable_extension_loading,
  automatically_load_statically_linked_extensions, cancel_automatic_extension_loading,
  reset_automatic_extension_loading,
}
use sqlite3_ext.Linking.Header.Tables.{
  register_a_virtual_table_implementation, remove_unnecessary_virtual_table_implementations,
  declare_the_schema_of_a_virtual_table, overload_a_function_for_a_virtual_table,
  open_a_blob_for_incremental_i_o, move_a_blob_handle_to_a_new_row, close_a_blob_handle,
  return_the_size_of_an_open_blob, read_data_from_a_blob_incrementally,
  write_data_into_a_blob_incrementally, virtual_file_system_objects, mutexes,
  mutex_verification_routines, retrieve_the_mutex_for_a_database_connection,
  low_level_control_of_database_files, testing_interface, sql_keyword_checking,
}
use sqlite3_ext.Linking.Header.Strings.{
  create_a_new_dynamic_string_object, finalize_a_dynamic_string, add_content_to_a_dynamic_string,
  status_of_a_dynamic_string, sqlite_runtime_status, database_connection_status,
  prepared_statement_status, online_backup_api, unlock_notification, string_comparison,
  string_globbing, string_like_matching,
}
use sqlite3_ext.Linking.Header.Planning.{
  error_logging_interface, write_ahead_log_commit_hook, configure_an_auto_checkpoint,
  checkpoint_a_database, checkpoint_a_database_wal_checkpoint_v2,
  virtual_table_interface_configuration, determine_the_virtual_table_conflict_policy,
  determine_if_virtual_table_column_access_is_for_update,
  determine_the_collation_for_a_virtual_table_constraint,
  determine_if_a_virtual_table_query_is_distinct, identify_and_handle_in_constraints_in_xbestindex,
  find_all_elements_on_the_right_hand_side_of_an_in_constraint, constraint_values_in_xbestindex,
  prepared_statement_scan_status, zero_scan_status_counters, flush_caches_to_disk_mid_transaction,
  the_pre_update_hook, low_level_system_error_code, record_a_database_snapshot,
  start_a_read_transaction_on_an_historical_snapshot, destroy_a_snapshot,
  compare_the_ages_of_two_snapshot_handles, recover_snapshots_from_a_wal_file, serialize_a_database,
  deserialize_a_database, flags_for_sqlite3_deserialize,
  flags_for_sqlite3_deserialize_rtree_query_callback,
}

abbrev connections : List Routine
connections = concat (
    run_time_library_version_numbers ∷ run_time_library_compilation_options_diagnostics
    ∷ test_to_see_if_the_library_is_threadsafe ∷ closing_a_database_connection
    ∷ one_step_query_execution_interface ∷ initialize_the_sqlite_library
    ∷ configuring_the_sqlite_library ∷ configure_database_connections
    ∷ enable_or_disable_extended_result_codes ∷ last_insert_rowid ∷ set_the_last_insert_rowid_value
    ∷ count_the_number_of_rows_modified ∷ total_number_of_rows_modified
    ∷ interrupt_a_long_running_query ∷ determine_if_an_sql_statement_is_complete ∷ [])

abbrev opening : List Routine
opening = concat (
    register_a_callback_to_handle_sqlite_busy_errors ∷ set_a_busy_timeout
    ∷ convenience_routines_for_running_queries ∷ formatted_string_printing_functions
    ∷ memory_allocation_subsystem ∷ memory_allocator_statistics ∷ pseudo_random_number_generator
    ∷ compile_time_authorization_callbacks ∷ tracing_and_profiling_functions ∷ sql_trace_hook
    ∷ query_progress_callbacks ∷ opening_a_new_database_connection
    ∷ obtain_values_for_uri_parameters ∷ translate_filenames
    ∷ database_file_corresponding_to_a_journal ∷ create_and_destroy_vfs_filenames
    ∷ error_codes_and_messages ∷ run_time_limits ∷ [])

abbrev statements : List Routine
statements = concat (
    compiling_an_sql_statement ∷ retrieving_statement_sql
    ∷ determine_if_an_sql_statement_writes_the_database
    ∷ query_the_explain_setting_for_a_prepared_statement
    ∷ determine_if_a_prepared_statement_has_been_reset ∷ binding_values_to_prepared_statements
    ∷ number_of_sql_parameters ∷ name_of_a_host_parameter ∷ index_of_a_parameter_with_a_given_name
    ∷ reset_all_bindings_on_a_prepared_statement ∷ number_of_columns_in_a_result_set
    ∷ column_names_in_a_result_set ∷ source_of_data_in_a_query_result
    ∷ declared_datatype_of_a_query_result ∷ evaluate_an_sql_statement
    ∷ number_of_columns_in_a_result_set_data_count ∷ result_values_from_a_query
    ∷ destroy_a_prepared_statement_object ∷ [])

abbrev functions : List Routine
functions = concat (
    reset_a_prepared_statement_object ∷ create_or_redefine_sql_functions ∷ deprecated_functions
    ∷ obtaining_sql_values ∷ finding_the_subtype_of_sql_values ∷ copy_and_free_sql_values
    ∷ obtain_aggregate_function_context ∷ user_data_for_functions
    ∷ database_connection_for_functions ∷ function_auxiliary_data
    ∷ setting_the_result_of_an_sql_function ∷ setting_the_subtype_of_an_sql_function ∷ [])

abbrev databases : List Routine
databases = concat (
    define_new_collating_sequences ∷ collation_needed_callbacks
    ∷ collation_needed_callbacks_activate_cerod ∷ suspend_execution_for_a_short_time
    ∷ win32_specific_interface ∷ test_for_auto_commit_mode
    ∷ find_the_database_handle_of_a_prepared_statement
    ∷ return_the_filename_for_a_database_connection ∷ determine_if_a_database_is_read_only
    ∷ determine_the_transaction_state_of_a_database ∷ find_the_next_prepared_statement
    ∷ commit_and_rollback_notification_callbacks ∷ autovacuum_compaction_amount_callback
    ∷ data_change_notification_callbacks ∷ enable_or_disable_shared_pager_cache
    ∷ attempt_to_free_heap_memory ∷ free_memory_used_by_a_database_connection
    ∷ impose_a_limit_on_heap_size ∷ deprecated_soft_heap_limit_interface
    ∷ extract_metadata_about_a_column_of_a_table ∷ load_an_extension
    ∷ enable_or_disable_extension_loading ∷ automatically_load_statically_linked_extensions
    ∷ cancel_automatic_extension_loading ∷ reset_automatic_extension_loading ∷ [])

abbrev tables : List Routine
tables = concat (
    register_a_virtual_table_implementation ∷ remove_unnecessary_virtual_table_implementations
    ∷ declare_the_schema_of_a_virtual_table ∷ overload_a_function_for_a_virtual_table
    ∷ open_a_blob_for_incremental_i_o ∷ move_a_blob_handle_to_a_new_row ∷ close_a_blob_handle
    ∷ return_the_size_of_an_open_blob ∷ read_data_from_a_blob_incrementally
    ∷ write_data_into_a_blob_incrementally ∷ virtual_file_system_objects ∷ mutexes
    ∷ mutex_verification_routines ∷ retrieve_the_mutex_for_a_database_connection
    ∷ low_level_control_of_database_files ∷ testing_interface ∷ sql_keyword_checking ∷ [])

abbrev strings : List Routine
strings = concat (
    create_a_new_dynamic_string_object ∷ finalize_a_dynamic_string ∷ add_content_to_a_dynamic_string
    ∷ status_of_a_dynamic_string ∷ sqlite_runtime_status ∷ database_connection_status
    ∷ prepared_statement_status ∷ online_backup_api ∷ unlock_notification ∷ string_comparison
    ∷ string_globbing ∷ string_like_matching ∷ [])

abbrev planning : List Routine
planning = concat (
    error_logging_interface ∷ write_ahead_log_commit_hook ∷ configure_an_auto_checkpoint
    ∷ checkpoint_a_database ∷ checkpoint_a_database_wal_checkpoint_v2
    ∷ virtual_table_interface_configuration ∷ determine_the_virtual_table_conflict_policy
    ∷ determine_if_virtual_table_column_access_is_for_update
    ∷ determine_the_collation_for_a_virtual_table_constraint
    ∷ determine_if_a_virtual_table_query_is_distinct
    ∷ identify_and_handle_in_constraints_in_xbestindex
    ∷ find_all_elements_on_the_right_hand_side_of_an_in_constraint ∷ constraint_values_in_xbestindex
    ∷ prepared_statement_scan_status ∷ zero_scan_status_counters
    ∷ flush_caches_to_disk_mid_transaction ∷ the_pre_update_hook ∷ low_level_system_error_code
    ∷ record_a_database_snapshot ∷ start_a_read_transaction_on_an_historical_snapshot
    ∷ destroy_a_snapshot ∷ compare_the_ages_of_two_snapshot_handles
    ∷ recover_snapshots_from_a_wal_file ∷ serialize_a_database ∷ deserialize_a_database
    ∷ flags_for_sqlite3_deserialize ∷ flags_for_sqlite3_deserialize_rtree_query_callback ∷ [])

unfoldable pub declared : List Routine
declared =
    concat (
      connections ∷ opening ∷ statements ∷ functions ∷ databases ∷ tables ∷ strings ∷ planning ∷ [])
