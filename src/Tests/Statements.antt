-- ===== src/Tests/Statements.antt =====
-- Statements that are the number of their columns, and parameters that are kept in a function.
use sqlite3_ext.Prelude.{
  ℕ, zero, suc, ◌≡◌, ◌≤◌, refl, true, false, List, [], ◌∷◌, arith, ◌==◌, if◌then◌else◌, length,
  take, drop, none, some, ok, panic, Text,
}
use sqlite3_ext.Prelude.Int.{ℤ, pos, negsuc}
use sqlite3_ext.Version.{Build}
use sqlite3_ext.Value.Blob.{RawPtr}
use sqlite3_ext.Value.Access.{text}
use sqlite3_ext.Value.Access.Reading.{Cell, int, real, txt, blb, nul}
use sqlite3_ext.Query.Prepare.{PrepareApi, PreparedStatement, new_statement, len, index}
use sqlite3_ext.Query.Prepare.Columns.{index-len}
use sqlite3_ext.Query.Params.{BindApi, bind_value, bind_named}
use sqlite3_ext.Query.Params.Bound.{IsBinder, code, put, bind_value-bound, bind_named-bound}

-- A connection that prepares nothing, and statements that are the number of their columns.
abbrev prepare_api : PrepareApi ℕ ℕ
prepare_api = record {
  prepare_v3 = λ text n flags conn. (0, none, 0);
  prepare_v2 = λ text n conn. (0, none, 0);
  errmsg = λ conn. [];
  column_count = λ raw. raw;
  column_name = λ raw i. none;
  column_database_name = λ raw i. none;
  column_table_name = λ raw i. none;
  column_origin_name = λ raw i. none;
  column_decltype = λ raw i. none;
  sql = λ raw. [];
  parameter_name = λ raw i. none;
  to_str = some;
}

abbrev two_then_three : PreparedStatement ℕ
two_then_three = record (new_statement prepare_api 2) { base = 3 }

index-len_example :
    (len prepare_api two_then_three ≡ 3) × (index prepare_api 2 two_then_three ≡ panic)
index-len_example = index-len prepare_api 2 3 2

-- A statement with two parameters, the second of which has the name x.
abbrev Params : Type 0
Params = ℕ → Cell ℕ

abbrev bound : Params → ℕ → Cell ℕ
bound s = s

abbrev two : Params → ℕ
two s = 2

abbrev write : ℕ → Cell ℕ → Params → ℕ × Params
write p c s = (code bound two p s, put bound two p c s)

abbrev size_of : ℤ → ℕ
size_of (pos n) = n
size_of (negsuc n) = 0

abbrev bytes_at : RawPtr → ℕ → List ℕ
bytes_at p n = take n (drop p.offset p.block)

abbrev index_of : Text → ℕ
index_of (x ∷ []) = if x == 120 then 2 else 0
index_of name = 0

abbrev bind_api : BindApi Params ℕ ℕ ℕ
bind_api = record {
  bind_null = λ p s. write p nul s;
  bind_int = λ p i s. write p (int i) s;
  bind_int64 = λ p i s. write p (int i) s;
  bind_double = λ p d s. write p (real d) s;
  bind_text64 = λ p m n how s. write p (txt (take n m)) s;
  bind_text = λ p m n how s. write p (txt (take (size_of n) m)) s;
  bind_blob64 = λ p m n how s. write p (blb (bytes_at m n)) s;
  bind_blob = λ p m n how s. write p (blb (bytes_at m (size_of n))) s;
  bind_value = λ p v s. (0, s);
  bind_pointer = λ p v s. (0, s);
  parameter_index = λ name s. index_of name;
}

index_of_le : (name : Text) → index_of name ≤ 2
index_of_le [] = omega arith
index_of_le (x ∷ []) = ground arith
index_of_le (x ∷ y ∷ name) = omega arith

bind_api-IsBinder : IsBinder bind_api bound two (λ d. false) 1000
bind_api-IsBinder = record {
  of_null = λ p s. (refl, refl);
  of_int64 = λ p i s. (refl, refl);
  of_double = λ p d s h. (refl, refl);
  of_text64 = λ p m n how s h k. (refl, refl);
  of_text = λ p m n how s h k. (refl, refl);
  of_blob64 = λ p m n how s h k. (refl, refl);
  of_blob = λ p m n how s h k. (refl, refl);
  index = λ name s. index_of_le name;
}

abbrev modern_build : Build
modern_build = record { modern = true; version = 3038005 }

abbrev zeros : ℕ → List ℕ
zeros zero = []
zeros (suc n) = 0 ∷ zeros n

length-zeros : (n : ℕ) → length (zeros n) ≡ n
length-zeros zero = refl
length-zeros (suc n) = omega (arith, length-zeros n)

abbrev all_null : Params
all_null q = nul

bind_value-bound_example :
    ((bind_value bind_api modern_build (text (104 ∷ 105 ∷ [])) 1 all_null).0 ≡ ok tt)
    × (bound (bind_value bind_api modern_build (text (104 ∷ 105 ∷ [])) 1 all_null).1
        ≡ put bound two 1 (txt (104 ∷ 105 ∷ [])) all_null)
bind_value-bound_example =
    bind_value-bound bind_api bound two (λ d. false) 1000 bind_api-IsBinder (omega arith)
      modern_build (λ s. true) zeros length-zeros (txt (104 ∷ 105 ∷ [])) 1 all_null (omega arith)
      refl

bind_named-bound_example :
    ((bind_named bind_api modern_build
        (bind_value bind_api modern_build)
        (120 ∷ [], text (104 ∷ []))
        7
        all_null).0
      ≡ ok tt)
    × (bound
          (bind_named bind_api modern_build
            (bind_value bind_api modern_build)
            (120 ∷ [], text (104 ∷ []))
            7
            all_null).1
        ≡ put bound two 2 (txt (104 ∷ [])) all_null)
bind_named-bound_example =
    bind_named-bound bind_api bound two (λ d. false) 1000 bind_api-IsBinder (omega arith)
      modern_build (λ s. true) zeros length-zeros (120 ∷ []) (txt (104 ∷ [])) 7 all_null
      (omega arith) refl
