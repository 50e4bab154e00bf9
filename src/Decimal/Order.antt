-- ===== src/Decimal/Order.antt =====
-- The function decimal_cmp and the collation of the same name agree on text.
use sqlite3_ext.Prelude.{
  ℕ, ◌≡◌, refl, Bool, true, List, [], ◌∷◌, arith, some, ok, ap, Text, take-append, length-append,
}
use sqlite3_ext.Value.Access.{ValueApi, integer, value_type, type_from_sqlite, get_str, get_blob}
use sqlite3_ext.Value.Access.Reading.{Cell, txt, payload, IsReader}
use sqlite3_ext.Function.Calls.{ordering_code}
use sqlite3_ext.Decimal.{
  Big, parse, process_value, process_args, scalar_method, decimal_cmp, decimal_collation,
}

module _ {B V D R : Type 0} (big : Big B) (api : ValueApi V D R) (is_utf8 : List ℕ → Bool)
    (cell : V → Cell D) (reader : IsReader api cell) where
  payload-get_blob : (v : V) (s : Text) → payload (cell v) ≡ some s → (get_blob api v).0 ≡ ok s
  unfolding get_blob
  payload-get_blob v [] h = ground (arith, reader.bytes v [] h)
  payload-get_blob v (x ∷ s) h = ground (
    arith,
    reader.bytes v (x ∷ s) h,
    reader.pointer (api.value_bytes v).1 x s (reader.kept v (x ∷ s) h),
    take-append (x ∷ s) (reader.memory (api.value_bytes v).1),
    length-append (x ∷ s) (reader.memory (api.value_bytes v).1),
  )

  txt-process_value :
      (v : V) (s : Text)
      → cell v ≡ txt s
      → is_utf8 s ≡ true
      → (process_value big api is_utf8 v).0 ≡ ok (some (parse big api is_utf8 s))
  unfolding process_value value_type type_from_sqlite get_str
  txt-process_value v s h u = ground (arith, h, reader.type v, payload-get_blob v s (ap payload h))

  -- Of two arguments that hold text, decimal_cmp gives -1, 0 or 1 as the collation orders them.
  decimal_cmp-decimal_collation :
      (v w : V) (s t : Text)
      → cell v ≡ txt s
      → cell w ≡ txt t
      → is_utf8 s ≡ true
      → is_utf8 t ≡ true
      → decimal_cmp big api is_utf8 (v ∷ w ∷ [])
        ≡ ok (some (integer (ordering_code (decimal_collation big api is_utf8 s t))))
  unfolding decimal_cmp scalar_method process_args decimal_collation
  decimal_cmp-decimal_collation v w s t h k u u' =
      rw (txt-process_value v s h u, txt-process_value w t k u') refl
