-- ===== src/Query/Binding.antt =====
-- Binding the parameters of a query: `Statement::query` and `Params` of a vector or an array.
use native.Mathlib.Nat.{add-zero, zero-add}
use sqlite3_ext.Prelude.{
  ℕ, zero, suc, ◌+◌, ◌≤◌, ◌<◌, ◌≡◌, refl, ◌⊎◌, inl, inr, List, [], ◌∷◌, arith, ◌==◌, if◌then◌else◌,
  length, get_elem?, ok, Option, Bool-cases, none, some, Bool, true, false, ◌^◌, ◌∙◌,
}
use sqlite3_ext.Prelude.Int.{ℤ, pos, ◌+ℤ◌, as_i32-pos}
use sqlite3_ext.Query.Statement.{
  Api, Statement, is_ready, reset, query, bind_params, bind_from, bind_param, position,
}

-- What SQLite documents of the parameters of a statement with `count` of them, a C int: binding a
-- position from 1 to `count` succeeds and changes that parameter only, unless the statement was
-- stepped more recently than it was reset, which is `stepped`. sqlite3_clear_bindings sets all of
-- them to NULL, `none`.
pub record IsStore {Raw V : Type 0} (api : Api Raw V) (count : ℕ) (view : Raw → ℕ → Option V)
    (stepped : Raw → Bool) : Type 0 where
  pub small : count < 2 ^ 31
  pub bind_ok :
      (p : ℕ) (v : V) (raw : Raw)
      → 0 < p
      → p ≤ count
      → stepped raw ≡ false
      → (api.bind_value (pos p) v raw).0 ≡ 0
  pub bind_view :
      (p : ℕ) (v : V) (raw : Raw) (q : ℕ)
      → 0 < p
      → p ≤ count
      → stepped raw ≡ false
      → view (api.bind_value (pos p) v raw).1 q ≡ (if q == p then some v else view raw q)
  pub bind_stepped : (p : ℤ) (v : V) (raw : Raw) → stepped (api.bind_value p v raw).1 ≡ stepped raw
  pub reset_stepped : (raw : Raw) → stepped (api.reset_stmt raw) ≡ false
  pub clear_stepped : (raw : Raw) → stepped (api.clear_bindings raw).1 ≡ stepped raw
  pub clear_ok : (raw : Raw) → (api.clear_bindings raw).0 ≡ 0
  pub clear_view : (raw : Raw) (p : ℕ) → view (api.clear_bindings raw).1 p ≡ none

position-pos : (k : ℕ) → suc k < 2 ^ 31 → position k ≡ ok (pos (suc k))
unfolding ◌+ℤ◌
position-pos k h = ground (arith, as_i32-pos k (omega arith))

module _ {Raw V : Type 0} (api : Api Raw V) (count : ℕ) (view : Raw → ℕ → Option V)
    (stepped : Raw → Bool) (l : IsStore api count view stepped) where
  abbrev with_param : Statement Raw → ℕ → V → Statement Raw
  with_param s p v = record s { base = (api.bind_value (pos p) v s.base).1 }

  bind_from-cons :
      (k : ℕ) (v : V) (vs : List V) (s : Statement Raw)
      → stepped s.base ≡ false
      → suc k ≤ count
      → bind_from api k (v ∷ vs) s ≡ bind_from api (suc k) vs (with_param s (suc k) v)
  unfolding bind_from bind_param
  bind_from-cons k v vs s f h =
      let small = l.small in
      ground (arith, position-pos k (omega (arith, small)), l.bind_ok (suc k) v s.base)

  still :
      (s : Statement Raw) (p : ℕ) (v : V)
      → stepped s.base ≡ false
      → stepped (with_param s p v).base ≡ false
  still s p v f = l.bind_stepped (pos p) v s.base ∙ f

  bind_from-ok :
      (k : ℕ) (vs : List V) (s : Statement Raw)
      → stepped s.base ≡ false
      → k + length vs ≤ count
      → ((bind_from api k vs s).0 ≡ ok tt) × ((bind_from api k vs s).1.state ≡ s.state)
  unfolding bind_from
  bind_from-ok k [] s f h = (refl, refl)
  bind_from-ok k (v ∷ vs) s f h =
      rw (bind_from-cons k v vs s f (omega arith))
        (bind_from-ok (suc k) vs (with_param s (suc k) v) (still s (suc k) v f) (omega arith))

  bind_from-other :
      (k : ℕ) (vs : List V) (s : Statement Raw) (p : ℕ)
      → stepped s.base ≡ false
      → k + length vs ≤ count
      → (p ≤ k) ⊎ (k + length vs < p)
      → view (bind_from api k vs s).1.base p ≡ view s.base p
  unfolding bind_from
  bind_from-other k [] s p f h o = refl
  bind_from-other k (v ∷ vs) s p f h o = rw (bind_from-cons k v vs s f (omega arith)) (
      ground (
        arith,
        bind_from-other (suc k) vs (with_param s (suc k) v) p (still s (suc k) v f) (omega arith)
            (omega arith),
        l.bind_view (suc k) v s.base p,
      ))

  bind_from-elem :
      (k : ℕ) (vs : List V) (s : Statement Raw) (i : ℕ) (w : V)
      → stepped s.base ≡ false
      → k + length vs ≤ count
      → get_elem? vs i ≡ some w
      → view (bind_from api k vs s).1.base (suc (k + i)) ≡ some w
  bind_from-elem k [] s i w f h e = cc
  bind_from-elem k (v ∷ vs) s zero w f h e =
      rw (bind_from-cons k v vs s f (omega arith), add-zero k)
        (ground (
          arith,
          bind_from-other (suc k) vs (with_param s (suc k) v) (suc k) (still s (suc k) v f)
              (omega arith) (omega arith),
          l.bind_view (suc k) v s.base (suc k),
        ))
  bind_from-elem k (v ∷ vs) s (suc i) w f h e =
      rw (bind_from-cons k v vs s f (omega arith), shift k i)
        (bind_from-elem (suc k) vs (with_param s (suc k) v) i w (still s (suc k) v f) (omega arith)
          e)
    where
      shift : (k i : ℕ) → k + suc i ≡ suc k + i
      shift k i = omega arith

  reset-cleared :
      (s : Statement Raw) (p : ℕ)
      → ((reset api s).0 ≡ ok tt)
        × (view (reset api s).1.base p ≡ none)
        × (stepped (reset api s).1.base ≡ false)
  unfolding reset
  reset-cleared s p = ground (
    arith,
    l.clear_ok (api.reset_stmt s.base),
    l.clear_view (api.reset_stmt s.base) p,
    l.clear_stepped (api.reset_stmt s.base),
    l.reset_stepped s.base,
  )

  bound :
      (vs : List V) (t : Statement Raw) (i : ℕ) (w : V) (p : ℕ)
      → stepped t.base ≡ false
      → length vs ≤ count
      → get_elem? vs i ≡ some w
      → length vs < p
      → ((bind_from api 0 vs t).0 ≡ ok tt)
        × (view (bind_from api 0 vs t).1.base (suc i) ≡ some w)
        × (view (bind_from api 0 vs t).1.base p ≡ view t.base p)
  bound vs t i w p f h e o = (
    (bind_from-ok 0 vs t f (omega arith)).0,
    rw (← zero-add i) (bind_from-elem 0 vs t i w f (omega arith) e),
    bind_from-other 0 vs t p f (omega arith) (inr (omega arith)),
  )

  -- A query whose parameters fit binds them in order, from position 1 on. The positions after the
  -- last one are NULL when the statement had been used before, since it is then reset. When it
  -- counts as ready it is not, and they keep what was bound to them earlier. It is asked that a
  -- statement that counts as ready has not been stepped since it was reset, as a first step that
  -- fails leaves one that has.
  pub query-bindings :
      (vs : List V) (s : Statement Raw) (i : ℕ) (w : V) (p : ℕ)
      → (is_ready s.state ≡ true → stepped s.base ≡ false)
      → length vs ≤ count
      → get_elem? vs i ≡ some w
      → length vs < p
      → let (r, s') = query api (bind_params api vs) s in
        (r ≡ ok tt)
        × (view s'.base (suc i) ≡ some w)
        × (view s'.base p ≡ (if is_ready s.state then view s.base p else none))
  unfolding query bind_params
  query-bindings vs s i w p unstepped h e o = elim (Bool-cases (is_ready s.state)) [
    | inl r ↦ ground (arith, bound vs s i w p (unstepped r) h e o)
    | inr u ↦
        let c = reset-cleared s p in ground (arith, c, bound vs (reset api s).1 i w p c.2 h e o)
  ]
