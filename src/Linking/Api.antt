-- ===== src/Linking/Api.antt =====
-- src/ffi/sqlite3ext.h: struct sqlite3_api_routines, by the comments that say since when its members
-- are there. A member with no such comment has the one before it; those before the first have 0.
mod Original
mod Early
mod Recent
mod Modern
use sqlite3_ext.Prelude.{ℕ, List, [], ◌∷◌}
use sqlite3_ext.Linking.{Group, group, Routine}
use sqlite3_ext.Linking.Api.Original.{
  aggregate_context_to_create_function16, create_module_to_result_text, result_text16_to_vmprintf,
}
use sqlite3_ext.Linking.Api.Early.{
  added_at_some_time, added_by_3_3_13, added_by_3_4_1, added_by_3_5_0,
  backup_finish_to_vtab_on_conflict,
}
use sqlite3_ext.Linking.Api.Recent.{
  version_3_7_16, version_3_8_7, version_3_8_11, version_3_9_0, version_3_10_0, version_3_12_0,
  version_3_14_0, version_3_18_0,
}
use sqlite3_ext.Linking.Api.Modern.{
  version_3_20_0, version_3_24_0, version_3_25_0, version_3_26_0, version_3_28_0, version_3_30_0,
  version_3_31_0, version_3_32_0, version_3_34_0, version_3_36_1, version_3_37_0, version_3_38_0,
}

unfoldable pub sqlite3_api_routines : List Group
sqlite3_api_routines =
    group 0 aggregate_context_to_create_function16
    ∷ group 0 create_module_to_result_text
    ∷ group 0 result_text16_to_vmprintf
    ∷ group 0 added_at_some_time
    ∷ group 3003013 added_by_3_3_13
    ∷ group 3004001 added_by_3_4_1
    ∷ group 3005000 added_by_3_5_0
    ∷ group 3005000 backup_finish_to_vtab_on_conflict
    ∷ group 3007016 version_3_7_16
    ∷ group 3008007 version_3_8_7
    ∷ group 3008011 version_3_8_11
    ∷ group 3009000 version_3_9_0
    ∷ group 3010000 version_3_10_0
    ∷ group 3012000 version_3_12_0
    ∷ group 3014000 version_3_14_0
    ∷ group 3018000 version_3_18_0
    ∷ group 3020000 version_3_20_0
    ∷ group 3024000 version_3_24_0
    ∷ group 3025000 version_3_25_0
    ∷ group 3026000 version_3_26_0
    ∷ group 3028000 version_3_28_0
    ∷ group 3030000 version_3_30_0
    ∷ group 3031000 version_3_31_0
    ∷ group 3032000 version_3_32_0
    ∷ group 3034000 version_3_34_0
    ∷ group 3036001 version_3_36_1
    ∷ group 3037000 version_3_37_0
    ∷ group 3038000 version_3_38_0
    ∷ []
