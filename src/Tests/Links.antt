-- ===== src/Tests/Links.antt =====
-- How the functions of a build are linked, and which calls an older SQLite has.
use sqlite3_ext.Prelude.{◌≡◌, refl, arith, true, false, some, none, All}
use sqlite3_ext.Version.{supports}
use sqlite3_ext.Linking.{generate_ffi, fields}
use sqlite3_ext.Linking.Api.{sqlite3_api_routines}
use sqlite3_ext.Linking.Declared.{Agrees, generate_ffi-Agrees}
use sqlite3_ext.Linking.Guards.{bind_slice_guard, strglob_guard}
use sqlite3_ext.Linking.Hosts.{call, call-guards, call-strglob}

generate_ffi-Agrees_example :
    All (Agrees false) (generate_ffi false true (fields sqlite3_api_routines))
generate_ffi-Agrees_example = generate_ffi-Agrees false true

call-guards_example : All (λ n. call 3008010 n ≡ some n) bind_slice_guard.calls
call-guards_example = call-guards 3 bind_slice_guard 3008010 refl (omega arith)

call-strglob_example :
    (supports (record { modern = true; version = 3008000 }) strglob_guard.version ≡ true)
    × (All (λ n. call 3008000 n ≡ none) strglob_guard.calls)
call-strglob_example = call-strglob 3008000 (omega arith) (omega arith)
