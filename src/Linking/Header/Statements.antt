-- ===== src/Linking/Header/Statements.antt =====
-- src/ffi/sqlite3.h: the functions that its sections declare, on prepared statements.
use sqlite3_ext.Prelude.{List, [], ◌∷◌}
use sqlite3_ext.Linking.{
  Routine, routine, db, stmt, value, chars, bytes, int, unsigned_int, unsigned_char, int64, uint64,
  double, callback, ptr,
}

abbrev pub compiling_an_sql_statement : List Routine
compiling_an_sql_statement =
    routine "sqlite3_prepare" int (db ∷ chars ∷ int ∷ ptr "sqlite3_stmt*" ∷ ptr "char*" ∷ [])
    ∷ routine "sqlite3_prepare_v2" int (db ∷ chars ∷ int ∷ ptr "sqlite3_stmt*" ∷ ptr "char*" ∷ [])
    ∷ routine "sqlite3_prepare_v3" int
        (db ∷ chars ∷ int ∷ unsigned_int ∷ ptr "sqlite3_stmt*" ∷ ptr "char*" ∷ [])
    ∷ routine "sqlite3_prepare16" int (db ∷ bytes ∷ int ∷ ptr "sqlite3_stmt*" ∷ ptr "void*" ∷ [])
    ∷ routine "sqlite3_prepare16_v2" int (db ∷ bytes ∷ int ∷ ptr "sqlite3_stmt*" ∷ ptr "void*" ∷ [])
    ∷ routine "sqlite3_prepare16_v3" int
        (db ∷ bytes ∷ int ∷ unsigned_int ∷ ptr "sqlite3_stmt*" ∷ ptr "void*" ∷ [])
    ∷ []

abbrev pub retrieving_statement_sql : List Routine
retrieving_statement_sql =
    routine "sqlite3_sql" chars (stmt ∷ [])
    ∷ routine "sqlite3_expanded_sql" chars (stmt ∷ [])
    ∷ routine "sqlite3_normalized_sql" chars (stmt ∷ [])
    ∷ []

abbrev pub determine_if_an_sql_statement_writes_the_database : List Routine
determine_if_an_sql_statement_writes_the_database =
    routine "sqlite3_stmt_readonly" int (stmt ∷ []) ∷ []

abbrev pub query_the_explain_setting_for_a_prepared_statement : List Routine
query_the_explain_setting_for_a_prepared_statement =
    routine "sqlite3_stmt_isexplain" int (stmt ∷ []) ∷ []

abbrev pub determine_if_a_prepared_statement_has_been_reset : List Routine
determine_if_a_prepared_statement_has_been_reset = routine "sqlite3_stmt_busy" int (stmt ∷ []) ∷ []

abbrev pub binding_values_to_prepared_statements : List Routine
binding_values_to_prepared_statements =
    routine "sqlite3_bind_blob" int (stmt ∷ int ∷ bytes ∷ int ∷ callback ∷ [])
    ∷ routine "sqlite3_bind_blob64" int (stmt ∷ int ∷ bytes ∷ uint64 ∷ callback ∷ [])
    ∷ routine "sqlite3_bind_double" int (stmt ∷ int ∷ double ∷ [])
    ∷ routine "sqlite3_bind_int" int (stmt ∷ int ∷ int ∷ [])
    ∷ routine "sqlite3_bind_int64" int (stmt ∷ int ∷ int64 ∷ [])
    ∷ routine "sqlite3_bind_null" int (stmt ∷ int ∷ [])
    ∷ routine "sqlite3_bind_text" int (stmt ∷ int ∷ chars ∷ int ∷ callback ∷ [])
    ∷ routine "sqlite3_bind_text16" int (stmt ∷ int ∷ bytes ∷ int ∷ callback ∷ [])
    ∷ routine "sqlite3_bind_text64" int
        (stmt ∷ int ∷ chars ∷ uint64 ∷ callback ∷ unsigned_char ∷ [])
    ∷ routine "sqlite3_bind_value" int (stmt ∷ int ∷ value ∷ [])
    ∷ routine "sqlite3_bind_pointer" int (stmt ∷ int ∷ bytes ∷ chars ∷ callback ∷ [])
    ∷ routine "sqlite3_bind_zeroblob" int (stmt ∷ int ∷ int ∷ [])
    ∷ routine "sqlite3_bind_zeroblob64" int (stmt ∷ int ∷ uint64 ∷ [])
    ∷ []

abbrev pub number_of_sql_parameters : List Routine
number_of_sql_parameters = routine "sqlite3_bind_parameter_count" int (stmt ∷ []) ∷ []

abbrev pub name_of_a_host_parameter : List Routine
name_of_a_host_parameter = routine "sqlite3_bind_parameter_name" chars (stmt ∷ int ∷ []) ∷ []

abbrev pub index_of_a_parameter_with_a_given_name : List Routine
index_of_a_parameter_with_a_given_name =
    routine "sqlite3_bind_parameter_index" int (stmt ∷ chars ∷ []) ∷ []

abbrev pub reset_all_bindings_on_a_prepared_statement : List Routine
reset_all_bindings_on_a_prepared_statement = routine "sqlite3_clear_bindings" int (stmt ∷ []) ∷ []

abbrev pub number_of_columns_in_a_result_set : List Routine
number_of_columns_in_a_result_set = routine "sqlite3_column_count" int (stmt ∷ []) ∷ []

abbrev pub column_names_in_a_result_set : List Routine
column_names_in_a_result_set =
    routine "sqlite3_column_name" chars (stmt ∷ int ∷ [])
    ∷ routine "sqlite3_column_name16" bytes (stmt ∷ int ∷ [])
    ∷ []

abbrev pub source_of_data_in_a_query_result : List Routine
source_of_data_in_a_query_result =
    routine "sqlite3_column_database_name" chars (stmt ∷ int ∷ [])
    ∷ routine "sqlite3_column_database_name16" bytes (stmt ∷ int ∷ [])
    ∷ routine "sqlite3_column_table_name" chars (stmt ∷ int ∷ [])
    ∷ routine "sqlite3_column_table_name16" bytes (stmt ∷ int ∷ [])
    ∷ routine "sqlite3_column_origin_name" chars (stmt ∷ int ∷ [])
    ∷ routine "sqlite3_column_origin_name16" bytes (stmt ∷ int ∷ [])
    ∷ []

abbrev pub declared_datatype_of_a_query_result : List Routine
declared_datatype_of_a_query_result =
    routine "sqlite3_column_decltype" chars (stmt ∷ int ∷ [])
    ∷ routine "sqlite3_column_decltype16" bytes (stmt ∷ int ∷ [])
    ∷ []

abbrev pub evaluate_an_sql_statement : List Routine
evaluate_an_sql_statement = routine "sqlite3_step" int (stmt ∷ []) ∷ []

abbrev pub number_of_columns_in_a_result_set_data_count : List Routine
number_of_columns_in_a_result_set_data_count = routine "sqlite3_data_count" int (stmt ∷ []) ∷ []

abbrev pub result_values_from_a_query : List Routine
result_values_from_a_query =
    routine "sqlite3_column_blob" bytes (stmt ∷ int ∷ [])
    ∷ routine "sqlite3_column_double" double (stmt ∷ int ∷ [])
    ∷ routine "sqlite3_column_int" int (stmt ∷ int ∷ [])
    ∷ routine "sqlite3_column_int64" int64 (stmt ∷ int ∷ [])
    ∷ routine "sqlite3_column_text" (ptr "unsigned char") (stmt ∷ int ∷ [])
    ∷ routine "sqlite3_column_text16" bytes (stmt ∷ int ∷ [])
    ∷ routine "sqlite3_column_value" value (stmt ∷ int ∷ [])
    ∷ routine "sqlite3_column_bytes" int (stmt ∷ int ∷ [])
    ∷ routine "sqlite3_column_bytes16" int (stmt ∷ int ∷ [])
    ∷ routine "sqlite3_column_type" int (stmt ∷ int ∷ [])
    ∷ []

abbrev pub destroy_a_prepared_statement_object : List Routine
destroy_a_prepared_statement_object = routine "sqlite3_finalize" int (stmt ∷ []) ∷ []
