-- ===== src/Decimal/Window.antt =====
-- The sum over a window that moves: rows that have left it count no more.
use sqlite3_ext.Prelude.{
  ℕ, ◌≡◌, refl, ap, ◌∙◌, Bool, List, [], ◌∷◌, ◌++◌, Option, none, some, Outcome, ok, bind, map_ok,
}
use sqlite3_ext.Value.Access.{ValueApi, Value, text}
use sqlite3_ext.Function.Aggregate.{AggregateContext, Call, step, inverse, run, aggregate_final}
use sqlite3_ext.Function.Aggregate.Folding.{Allocates, fold, context_of, run-fold}
use sqlite3_ext.Decimal.{Big, process_value, sum}

-- What bigdecimal documents: adding in another order, and taking away what was added last.
pub record IsAdditive {B : Type 0} (big : Big B) : Type 0 where
  pub right_comm : (a b c : B) → big.add (big.add a b) c ≡ big.add (big.add a c) b
  pub cancel : (a b : B) → big.sub (big.add a b) b ≡ a

module _ {B : Type 0} (big : Big B) where
  -- NULL counts for nothing.
  abbrev plus : (B → B → B) → B → Option B → B
  plus op c (some x) = op c x
  plus op c none = c

  abbrev pub total : (B → B → B) → List (Option B) → B → B
  total op [] c = c
  total op (d ∷ ds) c = total op ds (plus op c d)

  module _ (laws : IsAdditive big) where
    plus_comm :
        (c : B) (d e : Option B)
        → plus big.add (plus big.add c d) e ≡ plus big.add (plus big.add c e) d
    plus_comm c (some x) (some y) = laws.right_comm c x y
    plus_comm c (some x) none = refl
    plus_comm c none e = refl

    plus_cancel : (c : B) (d : Option B) → plus big.sub (plus big.add c d) d ≡ c
    plus_cancel c (some x) = laws.cancel c x
    plus_cancel c none = refl

    total-plus :
        (ds : List (Option B)) (d : Option B) (c : B)
        → total big.add ds (plus big.add c d) ≡ plus big.add (total big.add ds c) d
    total-plus [] d c = refl
    total-plus (e ∷ ds) d c =
        ap (total big.add ds) (plus_comm c d e) ∙ total-plus ds d (plus big.add c e)

    total_cancel : (ds : List (Option B)) (c : B) → total big.sub ds (total big.add ds c) ≡ c
    total_cancel [] c = refl
    total_cancel (d ∷ ds) c =
        rw (total-plus ds d c, plus_cancel (total big.add ds c) d) (total_cancel ds c)

    total-total :
        (ds es : List (Option B)) (c : B)
        → total big.add es (total big.add ds c) ≡ total big.add ds (total big.add es c)
    total-total [] es c = refl
    total-total (d ∷ ds) es c = rw (total-total ds es (plus big.add c d), total-plus es d c) refl

module _ {B V D R : Type 0} (big : Big B) (api : ValueApi V D R) (is_utf8 : List ℕ → Bool) where
  -- What is read of each row.
  abbrev pub Reads : List V → List (Option B) → Type 0
  Reads [] [] = Unit
  Reads (v ∷ vs) (d ∷ ds) = ((process_value big api is_utf8 v).0 ≡ ok d) × Reads vs ds
  Reads vs ds = ⊥

  abbrev pub steps : List V → List (Call (List V))
  steps [] = []
  steps (v ∷ vs) = step (v ∷ []) ∷ steps vs

  abbrev pub inverses : List V → List (Call (List V))
  inverses [] = []
  inverses (v ∷ vs) = inverse (v ∷ []) ∷ inverses vs

  abbrev Result : Type 0
  Result = Outcome (Option (Value D))

  abbrev folded : List (Call (List V)) → Option B × Result → Outcome (Option B × Result)
  folded = fold (sum big api is_utf8) tt

  folded-steps :
      (vs : List V) (ds : List (Option B)) (rest : List (Call (List V))) (c : B) (x : Result)
      → Reads vs ds
      → folded (steps vs ++ rest) (some c, x) ≡ folded rest (some (total big big.add ds c), x)
  folded-steps [] [] rest c x h = refl
  folded-steps (v ∷ vs) (none ∷ ds) rest c x h = rw (h.0) (folded-steps vs ds rest c x h.1)
  folded-steps (v ∷ vs) (some d ∷ ds) rest c x h =
      rw (h.0) (folded-steps vs ds rest (big.add c d) x h.1)
  folded-steps [] (d ∷ ds) rest c x h = absurd h
  folded-steps (v ∷ vs) [] rest c x h = absurd h

  folded-inverses :
      (vs : List V) (ds : List (Option B)) (c : B) (x : Result)
      → Reads vs ds
      → folded (inverses vs) (some c, x) ≡ ok (some (total big big.sub ds c), x)
  folded-inverses [] [] c x h = refl
  folded-inverses (v ∷ vs) (none ∷ ds) c x h = rw (h.0) (folded-inverses vs ds c x h.1)
  folded-inverses (v ∷ vs) (some d ∷ ds) c x h =
      rw (h.0) (folded-inverses vs ds (big.sub c d) x h.1)
  folded-inverses [] (d ∷ ds) c x h = absurd h
  folded-inverses (v ∷ vs) [] c x h = absurd h

  module _ (laws : IsAdditive big)
      (allocate : ℕ → Option (AggregateContext B) → Option (AggregateContext B)) (size : ℕ)
      (memory : Allocates allocate size) where
    folded-window :
        (vs ys : List V) (ds es : List (Option B)) (c : B) (x : Result)
        → Reads vs ds
        → Reads ys es
        → folded (steps vs ++ (steps ys ++ inverses vs)) (some c, x)
          ≡ ok (some (total big big.add es c), x)
    folded-window vs ys ds es c x h k =
        rw
          (
            folded-steps vs ds (steps ys ++ inverses vs) c x h,
            folded-steps ys es (inverses vs) (total big big.add ds c) x k,
            folded-inverses vs ds (total big big.add es (total big big.add ds c)) x h,
            total-total big laws ds es c,
            total_cancel big laws ds (total big big.add es c),
          )
          refl

    -- Over a window that takes in the rows v ∷ vs, then ys, and lets v ∷ vs go again, the sum is the
    -- sum of ys alone, NULL left out, in the memory that SQLite allocates for the aggregate: where
    -- every row is read without an error, and big subtracts what it added, in any order of rows.
    pub run-sum :
        (v : V) (vs ys : List V) (ds es : List (Option B)) (x : Result)
        → Reads (v ∷ vs) ds
        → Reads ys es
        → map_ok
            (λ c. c.seen)
            (bind
              (run
                (sum big api is_utf8)
                tt
                allocate
                size
                (steps (v ∷ vs) ++ (steps ys ++ inverses (v ∷ vs)))
                (context_of (sum big api is_utf8) tt (none, x)))
              (aggregate_final (sum big api is_utf8) tt allocate size))
          ≡ ok (ok (some (text (big.show (total big big.add es big.default)))))
    run-sum v vs ys ds es x h k =
        rw
          (
            run-fold (sum big api is_utf8) tt allocate size memory
                (steps (v ∷ vs) ++ (steps ys ++ inverses (v ∷ vs))) x,
            folded-window (v ∷ vs) ys ds es big.default x h k,
          )
          refl
