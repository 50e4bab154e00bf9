-- ===== src/Lib.antt =====
-- sqlite3_ext is a Rust crate for SQLite extensions and for programs that use SQLite. This library
-- models the crate's own logic and proves what makes it correct.
--
-- How the parts fit together: a program runs statements (src/query/mod.rs) on a connection
-- (src/connection.rs), within transactions and savepoints (src/transaction.rs). An extension gives
-- SQLite virtual tables: SQLite calls the callbacks of src/vtab/stubs.rs, which call the
-- implementation and answer by the result codes of src/types.rs and src/ffi/mod.rs. A virtual
-- table plans its queries with src/vtab/index_info.rs and overloads functions by
-- src/vtab/function.rs. Its functions take their arguments as values (src/value) and give their
-- results to a context (src/function). examples/generate_series.rs is such a table, and
-- examples/decimal.rs is an extension of functions.
--
-- Which file models which code:
--   Prelude      the outcome of fallible code (ok, err, panic), methods that pass an object's
--                state on, signed integers, lists. Undefined behaviour is the outcome panic, as is
--                a sum that overflows, in the build that runs the tests.
--   Version      the version guards sqlite3_match_version and sqlite3_require_version.
--   Linking      what build.rs generates: a function for each member of sqlite3_api_routines
--                (src/ffi/sqlite3ext.h) that calls what src/ffi/sqlite3.h declares; and the version
--                guards of the crate against the structure of an older SQLite.
--   Extension    the entry point of an extension and its name (sqlite3_ext_macro/src/lib.rs),
--                automatic extensions (src/extension.rs).
--   Types        result codes and errors, both ways; handle_error and handle_result; the codes that
--                src/ffi/sqlite3.h lists.
--   Ffi          str_to_sqlite3, and how a C string is read.
--   Value        Blob: one allocation with the length in front (src/value/blob.rs). Access: how a
--                value of SQLite is read (src/value/mod.rs). Pointers and Passed: what passes through
--                SQL behind a pointer (unsafe_ptr.rs, passed_ref.rs, auxiliary data). Values: the list
--                on the right of an IN (value_list.rs).
--   Function     Results: what each type of result asks of SQLite, and Aggregate: the callbacks of
--                aggregate functions (src/function/context.rs, stubs.rs). Options: the flags of a
--                function, Registration: how functions, collations and modules are given to SQLite,
--                Calls: their callbacks (src/function/mod.rs, stubs.rs).
--   Query        Statement: state Ready, Active or Finished; next, reset, query, query_row, execute,
--                insert, and the binding of lists of parameters. Params: what each type of parameter
--                binds (src/query/params.rs). Prepare: preparing, and the columns of a row.
--   Transaction  a Transaction is its state and the database behind its connection; start, commit,
--                rollback, savepoint and drop, one function each.
--   Connection   Database open, close and drop; load_extension with its guard; OpenFlags.
--   IndexInfo    the query plan: its fields and their accessors, the index string and its memory,
--                constraints, their iterators and operators, DistinctMode; Passing: the
--                arguments that SQLite makes of argvIndex.
--   Vtab         Connecting: how a table is connected. Stubs: the callbacks of transactions.
--                Cursors: those on cursors, and those that plan, update and let go of a table.
--                Functions: the list of overloads. Modules: the callbacks of a module
--                (src/vtab/module.rs). Changes: what an INSERT, UPDATE or DELETE asks (ChangeInfo).
--   Series       the cursor of generate_series: filter, next, eof, column. Plan: best_index, and how
--                its plan reaches filter.
--   Globals      sqlite3_stricmp (src/globals.rs).
--   Decimal      the functions, the sum and the collation of examples/decimal.rs.
--   Rarray       the cursor of examples/rarray.rs.
--   Tests        concrete runs at which the hypotheses of the theorems hold.
--
-- What SQLite does is not in the repository. Its functions are parameters: a record of
-- functions on a state that the caller chooses (Query.Statement.Api, Connection.LoadApi,
-- Connection.OpenApi, Value.Access.ValueApi, Value.Values.ListApi,
-- Function.Results.ContextApi, Query.Params.BindApi, Query.Prepare.PrepareApi,
-- Function.Registration.RegisterApi), `allocate` of the memory of a context in
-- Function.Aggregate, or `execute` of a database in Transaction. Where a theorem relies on
-- what SQLite or bigdecimal documents, a record of laws states it (IsLawful, IsStore,
-- IsTransactional, IsGuarded, IsBinder, IsContext, IsReader, KeepsSubtype, KeepsLast,
-- Enumerates, Destroys, KeepsList, LowersAscii, Allocates, IsAdditive), and Tests has an
-- instance of each. Memory allocation, UTF-8 checks, the printing of numbers and the crate
-- bigdecimal are parameters too.
--
-- Bounds and fuel: usize has 64 bits, the C integers 32, and the casts of the code are written
-- out. The loops of `collect`, `drain`, each `scan` and `positions` run on fuel, where none
-- says that it ran out; their theorems ask for one round more than there are rows, which is
-- all that the loops need.
--
-- Not modelled: the functions of SQLite, which src/ffi/sqlite3.h and sqlite3ext.h only
-- declare. Of these headers there are the declarations and macros (Linking), the result codes
-- (Types), the flags for opening (Connection), and the structures and codes that the crate reads.
-- The generated bindings, the attribute macros of functions and modules, locks, Debug output,
-- best_index of rarray, and the examples shared_context and vtablog. Reading a column is like
-- reading a value, and is not written out again.
pub mod Prelude
pub mod Version
pub mod Linking
pub mod Extension
pub mod Ffi
pub mod Types
pub mod Query
pub mod Value
pub mod Series
pub mod Transaction
pub mod IndexInfo
pub mod Connection
pub mod Vtab
pub mod Tests
pub mod Function
pub mod Globals
pub mod Decimal
pub mod Rarray
