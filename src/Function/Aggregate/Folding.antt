-- ===== src/Function/Aggregate/Folding.antt =====
-- That the callbacks of an aggregate, which keep its state in SQLite's memory, do what a fold does
-- that carries the state along.
use sqlite3_ext.Prelude.{
  ℕ, ◌≡◌, refl, true, false, List, [], ◌∷◌, Option, none, some, Outcome, ok, err, panic, bind,
  map_ok, bind-map_ok, map_ok-bind,
}
use sqlite3_ext.Function.Aggregate.{
  AggregateContext, Context, Aggregate, Call, step, inverse, value, reported, changed, answered,
  final_call, aggregate_context, try_aggregate_context, aggregate_step, aggregate_inverse,
  aggregate_value, aggregate_final, call, run,
}

abbrev pub zeroed : {F : Type 0} → AggregateContext F
zeroed = record { init = false; val = none }

-- What SQLite documents for sqlite3_aggregate_context, where memory suffices: the first call of a
-- context allocates zeroed memory, unless it asks for no bytes, and later calls find it again.
pub record Allocates {F : Type 0}
    (allocate : ℕ → Option (AggregateContext F) → Option (AggregateContext F)) (size : ℕ)
    : Type 0 where
  pub first : allocate size none ≡ some zeroed
  pub no_bytes : allocate 0 none ≡ none
  pub again : (n : ℕ) (m : AggregateContext F) → allocate n (some m) ≡ some m

bind_ext :
    {A B : Type 0} (r : Outcome A) {f g : A → Outcome B}
    → ((a : A) → f a ≡ g a)
    → bind r f ≡ bind r g
bind_ext (ok a) h = h a
bind_ext (err e) h = refl
bind_ext panic h = refl

module _ {U A X F : Type 0} (imp : Aggregate U A X F) (user_data : U) where
  -- The fold: the state of the aggregate, once there is one, and what the function sees.
  abbrev Fold : Type 0
  Fold = Option F × X

  abbrev current : Option F → F
  current (some f) = f
  current none = imp.from_user_data user_data

  abbrev changed_fold : Outcome (Unit {0}) × F × X → Outcome Fold
  changed_fold (r, f, x) = bind (reported imp r x) λ x'. ok (some f, x')

  abbrev valued : F → Outcome (Unit {0}) × X → Outcome Fold
  valued f (r, x) = bind (reported imp r x) λ x'. ok (some f, x')

  abbrev fold_call : Call A → Fold → Outcome Fold
  fold_call (step args) (o, x) = changed_fold (imp.step args (current o) x)
  fold_call (inverse args) (o, x) = changed_fold (imp.inverse args (current o) x)
  fold_call value (o, x) = valued (current o) (imp.value (current o) x)

  abbrev pub fold : List (Call A) → Fold → Outcome Fold
  fold [] s = ok s
  fold (k ∷ calls) s = bind (fold_call k s) (fold calls)

  abbrev finished : Outcome (Unit {0}) × X → Outcome X
  finished (r, x) = reported imp r x

  abbrev pub fold_final : Fold → Outcome X
  fold_final (o, x) = finished (final_call imp user_data o x)

  abbrev pub context_of : Fold → Context X F
  context_of (none, x) = record { seen = x; buffer = none }
  context_of (some f, x) = record { seen = x; buffer = some (record { init = true; val = some f }) }

  changed-fold :
      (p : Outcome (Unit {0}) × F × X) → changed imp p ≡ map_ok context_of (changed_fold p)
  changed-fold (ok u, f, x) = refl
  changed-fold (err e, f, x) = refl
  changed-fold (panic, f, x) = refl

  answered-fold :
      (f : F) (x : X) (p : Outcome (Unit {0}) × X)
      → answered imp (context_of (some f, x)) p ≡ map_ok context_of (valued f p)
  answered-fold f x (ok u, x') = refl
  answered-fold f x (err e, x') = refl
  answered-fold f x (panic, x') = refl

  answered-seen :
      (c : Context X F) (p : Outcome (Unit {0}) × X)
      → map_ok (λ c. c.seen) (answered imp c p) ≡ finished p
  answered-seen c (ok u, x') = refl
  answered-seen c (err e, x') = refl
  answered-seen c (panic, x') = refl

  module _ (allocate : ℕ → Option (AggregateContext F) → Option (AggregateContext F)) (size : ℕ)
      (laws : Allocates allocate size) where
    aggregate_context-context_of :
        (o : Option F) (x : X)
        → aggregate_context imp user_data allocate size (context_of (o, x))
          ≡ ok (current o, context_of (some (current o), x))
    unfolding aggregate_context
    aggregate_context-context_of none x = rw laws.first refl
    aggregate_context-context_of (some f) x =
        rw (laws.again size (record { init = true; val = some f })) refl

    call-context_of :
        (k : Call A) (o : Option F) (x : X)
        → call imp user_data allocate size k (context_of (o, x))
          ≡ map_ok context_of (fold_call k (o, x))
    unfolding call aggregate_step aggregate_inverse aggregate_value
    call-context_of (step args) o x =
        rw (aggregate_context-context_of o x) (changed-fold (imp.step args (current o) x))
    call-context_of (inverse args) o x =
        rw (aggregate_context-context_of o x) (changed-fold (imp.inverse args (current o) x))
    call-context_of value o x =
        rw (aggregate_context-context_of o x)
          (answered-fold (current o) x (imp.value (current o) x))

    run-context_of :
        (calls : List (Call A)) (o : Option F) (x : X)
        → run imp user_data allocate size calls (context_of (o, x))
          ≡ map_ok context_of (fold calls (o, x))
    unfolding run
    run-context_of [] o x = refl
    run-context_of (k ∷ calls) o x =
        rw
          (
            call-context_of k o x,
            bind-map_ok (fold_call k (o, x)) context_of (run imp user_data allocate size calls)
                (λ s. map_ok context_of (fold calls s)) (λ (o', x'). run-context_of calls o' x'),
          )
          (map_ok-bind (fold_call k (o, x)) (fold calls) context_of)

    final-fold :
        (o : Option F) (x : X)
        → map_ok (λ c. c.seen) (aggregate_final imp user_data allocate size (context_of (o, x)))
          ≡ fold_final (o, x)
    unfolding aggregate_final try_aggregate_context
    final-fold none x =
        rw (aggregate_final, try_aggregate_context, laws.no_bytes)
          (answered-seen (context_of (none, x)) (imp.default_value user_data x))
    final-fold (some f) x =
        rw
          (
            aggregate_final,
            try_aggregate_context,
            laws.again 0 (record { init = true; val = some f }),
          )
          (answered-seen
            (record { seen = x; buffer = some (record { init = false; val = some f }) })
            (imp.value f x))

    -- The callbacks of an aggregate function do what a fold does that carries the state along: it
    -- begins with from_user_data at the first call, an error is reported and the fold goes on, and
    -- xFinal asks the last state for its value, or default_value where no call was made. They panic
    -- only where the function itself does.
    pub run-fold :
        (calls : List (Call A)) (x : X)
        → map_ok
            (λ c. c.seen)
            (bind
              (run imp user_data allocate size calls (context_of (none, x)))
              (aggregate_final imp user_data allocate size))
          ≡ bind (fold calls (none, x)) fold_final
    run-fold calls x =
        rw
          (
            run-context_of calls none x,
            bind-map_ok (fold calls (none, x)) context_of
                (aggregate_final imp user_data allocate size)
                (λ s. aggregate_final imp user_data allocate size (context_of s)) (λ s. refl),
            ← map_ok-bind (fold calls (none, x))
                (λ s. aggregate_final imp user_data allocate size (context_of s)) (λ c. c.seen),
          )
          (bind_ext (fold calls (none, x)) (λ (o, x'). final-fold o x'))
