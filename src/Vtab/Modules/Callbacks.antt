-- ===== src/Vtab/Modules/Callbacks.antt =====
-- Which callbacks a module has after the builders have added to it.
use sqlite3_ext.Prelude.{
  ◌≡◌, refl, Bool, true, false, ◌||◌, List, [], ◌∷◌, arith, Option, some, ◌&&◌, leb, if◌then◌else◌,
  ◌∙◌, ap,
}
use sqlite3_ext.Version.{Build, match_version, supports}
use sqlite3_ext.Vtab.Modules.{
  Callback, vtab_create_transaction, vtab_connect_transaction, vtab_update, vtab_begin, vtab_sync,
  vtab_commit, vtab_rollback, vtab_find_function, vtab_rename, vtab_savepoint, vtab_release,
  vtab_rollback_to, Module, ModuleKind, standard, eponymous, eponymous_only, Extra, update,
  transactions, find_function, rename, with_initial_transaction, with_transactions, with_update,
  with_find_function, with_rename, with_extra, build,
}

abbrev same : Extra → Extra → Bool
same update update = true
same transactions transactions = true
same find_function find_function = true
same rename rename = true
same _ _ = false

abbrev pub has : Extra → List Extra → Bool
has e [] = false
has e (x ∷ xs) = same e x || has e xs

abbrev pub given : Bool → Callback → Option Callback → Option Callback
given true c old = some c
given false c old = old

-- Who creates and who connects a table when it is to begin a transaction.
abbrev pub creates : Bool → ModuleKind → Option Callback → Option Callback
creates false kind old = old
creates true standard old = some vtab_create_transaction
creates true eponymous old = some vtab_connect_transaction
creates true eponymous_only old = old

abbrev pub connects : Bool → ModuleKind → Option Callback → Option Callback
connects false kind old = old
connects true eponymous old = some vtab_connect_transaction
connects true kind old = old

-- The module m with the callbacks of an update, transactions, find_function and rename, each if it
-- was added.
abbrev pub expected : Build → ModuleKind → Bool → Bool → Bool → Bool → Module → Module
expected b kind u t f r m =
    let nested = t && supports b 3007007 in
    record m {
      i_version = if nested then (if leb m.i_version 2 then 2 else m.i_version) else m.i_version;
      x_create = creates t kind m.x_create;
      x_connect = connects t kind m.x_connect;
      x_update = given u vtab_update m.x_update;
      x_begin = given t vtab_begin m.x_begin;
      x_sync = given t vtab_sync m.x_sync;
      x_commit = given t vtab_commit m.x_commit;
      x_rollback = given nested vtab_rollback m.x_rollback;
      x_find_function = given f vtab_find_function m.x_find_function;
      x_rename = given r vtab_rename m.x_rename;
      x_savepoint = given nested vtab_savepoint m.x_savepoint;
      x_release = given nested vtab_release m.x_release;
      x_rollback_to = given nested vtab_rollback_to m.x_rollback_to;
    }

with_transactions-expected :
    (b : Build) (kind : ModuleKind) (m : Module) (v : Bool)
    → supports b 3007007 ≡ v
    → with_transactions b kind m ≡ expected b kind false true false false m
unfolding with_transactions with_initial_transaction match_version
with_transactions-expected b standard m true e = rw e refl
with_transactions-expected b standard m false e = rw e refl
with_transactions-expected b eponymous m true e = rw e refl
with_transactions-expected b eponymous m false e = rw e refl
with_transactions-expected b eponymous_only m true e = rw e refl
with_transactions-expected b eponymous_only m false e = rw e refl

abbrev apply_if : Bool → (Module → Module) → Module → Module
apply_if true f m = f m
apply_if false f m = m

module _ (b : Build) (kind : ModuleKind) where
  abbrev renamed : Bool → Module → Module
  renamed r m = apply_if r (with_rename b) m

  abbrev found : Bool → Bool → Module → Module
  found f r m = apply_if f (with_find_function b) (renamed r m)

  abbrev begun : Bool → Bool → Bool → Module → Module
  begun t f r m = apply_if t (with_transactions b kind) (found f r m)

  abbrev pub normal : Bool → Bool → Bool → Bool → Module → Module
  normal u t f r m = apply_if u (with_update b) (begun t f r m)

  -- Two additions in either order, through an optional one.
  through :
      (c : Bool) (g f : Module → Module) (m : Module)
      → ((m : Module) → g (f m) ≡ f (g m))
      → apply_if c g (f m) ≡ f (apply_if c g m)
  through true g f m h = h m
  through false g f m h = refl

  absorb :
      (c : Bool) (f : Module → Module) (m : Module)
      → ((m : Module) → f (f m) ≡ f m)
      → apply_if c f (f m) ≡ f m
  absorb true f m h = h m
  absorb false f m h = refl

  with_transactions-with_update :
      (m : Module)
      → with_transactions b kind (with_update b m) ≡ with_update b (with_transactions b kind m)
  unfolding with_transactions with_update with_initial_transaction match_version
  with_transactions-with_update m = elim kind [
    | standard ↦ ground (arith)
    | eponymous ↦ ground (arith)
    | eponymous_only ↦ ground (arith)
  ]

  with_find_function-with_transactions :
      (m : Module)
      → with_find_function b (with_transactions b kind m)
        ≡ with_transactions b kind (with_find_function b m)
  unfolding with_transactions with_find_function with_initial_transaction match_version
  with_find_function-with_transactions m = elim kind [
    | standard ↦ ground (arith)
    | eponymous ↦ ground (arith)
    | eponymous_only ↦ ground (arith)
  ]

  with_rename-with_transactions :
      (m : Module)
      → with_rename b (with_transactions b kind m) ≡ with_transactions b kind (with_rename b m)
  unfolding with_transactions with_rename with_initial_transaction match_version
  with_rename-with_transactions m = elim kind [
    | standard ↦ ground (arith)
    | eponymous ↦ ground (arith)
    | eponymous_only ↦ ground (arith)
  ]

  with_transactions_idem :
      (m : Module)
      → with_transactions b kind (with_transactions b kind m) ≡ with_transactions b kind m
  unfolding with_transactions with_initial_transaction match_version
  with_transactions_idem m = elim kind [
    | standard ↦ ground (arith)
    | eponymous ↦ ground (arith)
    | eponymous_only ↦ ground (arith)
  ]

  with_extra-normal :
      (e : Extra) (u t f r : Bool) (m : Module)
      → normal u t f r (with_extra b kind e m)
        ≡ normal
            (same update e || u)
            (same transactions e || t)
            (same find_function e || f)
            (same rename e || r)
            m
  unfolding with_extra with_update with_find_function with_rename
  with_extra-normal update u t f r m =
      rw
        (
          through r (with_rename b) (with_update b) m (λ m. refl),
          through f (with_find_function b) (with_update b) (renamed r m) (λ m. refl),
          through t (with_transactions b kind) (with_update b) (found f r m)
              with_transactions-with_update,
        )
        (absorb u (with_update b) (begun t f r m) (λ m. refl))
  with_extra-normal transactions u t f r m =
      rw
        (
          through r (with_rename b) (with_transactions b kind) m with_rename-with_transactions,
          through f (with_find_function b) (with_transactions b kind) (renamed r m)
              with_find_function-with_transactions,
          absorb t (with_transactions b kind) (found f r m) with_transactions_idem,
        )
        refl
  with_extra-normal find_function u t f r m =
      rw
        (
          through r (with_rename b) (with_find_function b) m (λ m. refl),
          absorb f (with_find_function b) (renamed r m) (λ m. refl),
        )
        refl
  with_extra-normal rename u t f r m = rw (absorb r (with_rename b) m (λ m. refl)) refl

  pub build-normal :
      (xs : List Extra) (m : Module)
      → build b kind xs m
        ≡ normal (has update xs) (has transactions xs) (has find_function xs) (has rename xs) m
  unfolding build
  build-normal [] m = refl
  build-normal (e ∷ xs) m =
      rw (build-normal xs (with_extra b kind e m)) (with_extra-normal e _ _ _ _ m)

  again :
      (f r : Bool) (m : Module)
      → expected b kind false true false false (expected b kind false false f r m)
        ≡ expected b kind false true f r m
  again f r m = refl

  find_function-expected :
      (f r : Bool) (m : Module) → found f r m ≡ expected b kind false false f r m
  unfolding with_find_function with_rename
  find_function-expected true true m = refl
  find_function-expected true false m = refl
  find_function-expected false true m = refl
  find_function-expected false false m = refl

  transactions-expected :
      (t f r : Bool) (m : Module) → begun t f r m ≡ expected b kind false t f r m
  transactions-expected false f r m = find_function-expected f r m
  transactions-expected true f r m =
      ap (with_transactions b kind) (find_function-expected f r m)
      ∙ with_transactions-expected b kind (expected b kind false false f r m) (supports b 3007007)
          refl
      ∙ again f r m

  build-expected : (u t f r : Bool) (m : Module) → normal u t f r m ≡ expected b kind u t f r m
  unfolding with_update
  build-expected true t f r m = ap (with_update b) (transactions-expected t f r m)
  build-expected false t f r m = transactions-expected t f r m

  -- What a module has after any list of additions: an update, find_function or rename adds its one
  -- callback. Transactions add xBegin, xSync and xCommit, replace the callbacks that create and
  -- connect a table by those that begin a transaction, as the kind of module has them, and from
  -- 3.7.7 on add xRollback and the three for savepoints, with at least version 2. All else is as it
  -- was before, whatever the order of the additions and their repetition.
  pub build-has :
      (xs : List Extra) (m : Module)
      → build b kind xs m
        ≡ expected b kind
            (has update xs)
            (has transactions xs)
            (has find_function xs)
            (has rename xs)
            m
  build-has xs m = build-normal xs m ∙ build-expected _ _ _ _ m
