-- ===== src/IndexInfo/Fields.antt =====
-- What is read back from a query plan after it was written.
use sqlite3_ext.Prelude.{
  ℕ, zero, suc, ◌+◌, ◌-◌, ◌%◌, ◌^◌, ◌≤◌, ◌<◌, ◌≡◌, ◌≢◌, refl, true, List, [], ◌∷◌, ◌==◌, ltb,
  if◌then◌else◌, arith, Outcome, ok, err, panic, bind, Option, none, some, length, get_elem?,
  get_elem?-set_self, get_elem?-set_ne, version_not_satisfied, inl, inr, ◌⊎◌, ◌∙◌, sym,
}
use sqlite3_ext.Prelude.Int.{ℤ, pos, negsuc, ◌-ℤ◌}
use sqlite3_ext.Version.{Build, match_version, require_version, supports}
use sqlite3_ext.IndexInfo.{
  Usage, IndexInfo, to_i32, estimated_rows, set_estimated_rows, scan_flags, set_scan_flags,
}
use sqlite3_ext.IndexInfo.Constraints.{
  argv_index, set_argv_index, decoded, decoded_argv, encoded, set_usage, next, start_position,
  positions,
}

-- In a build of modern SQLite, the row estimate that is set is read back only from version
-- 3.8.220 on. From 3.8.2 on, which is all that the documentation asks for, the old estimate is
-- read, and before that the version is reported as too old.
set_estimated_rows-estimated_rows :
    (version : ℕ) (val : ℤ) (info : IndexInfo)
    → let b : Build = record { modern = true; version = version } in
      estimated_rows b (set_estimated_rows b val info) ≡ (
        if ltb version 3008002
        then err (version_not_satisfied 3008002)
        else ok (if ltb version 3008220 then info.estimated_rows else val))
unfolding estimated_rows set_estimated_rows require_version match_version supports
set_estimated_rows-estimated_rows version val info = ground arith

-- The scan flags are read back when they fit in a positive i32; bit 31 is read back as the bits
-- 31 to 63.
set_scan_flags-scan_flags :
    (version val : ℕ) (info : IndexInfo)
    → 3009000 ≤ version
    → val < 2 ^ 32
    → let b : Build = record { modern = true; version = version } in
      scan_flags b (set_scan_flags b val info)
      ≡ ok (if ltb val (2 ^ 31) then val else 2 ^ 64 - 2 ^ 32 + val)
unfolding scan_flags set_scan_flags require_version match_version supports
set_scan_flags-scan_flags version val info h k = ground arith

pub pos_minus : (n : ℕ) → pos (suc n) -ℤ pos 1 ≡ pos n
unfolding ◌-ℤ◌
pos_minus n = ground arith

negsuc_minus : (n : ℕ) → negsuc n -ℤ pos 1 ≡ negsuc (suc n)
unfolding ◌-ℤ◌
negsuc_minus n = ground arith

decoded-pos : (n : ℕ) → n < 2 ^ 31 → decoded (pos (suc n)) ≡ ok (some n)
decoded-pos n h = rw (pos_minus n) (ground arith)

decoded-negsuc :
    (n : ℕ)
    → n < 2 ^ 31
    → decoded (negsuc n) ≡ (if n == 2 ^ 31 - 1 then panic else ok (some (2 ^ 32 - 2 - n)))
decoded-negsuc n h = rw (negsuc_minus n) (ground arith)

split : (k : ℕ) → k + 1 < 2 ^ 32 → (k + 1 < 2 ^ 31) ⊎ (2 ^ 31 ≤ k + 1)
split k h = ground arith

to_i32-small : (k : ℕ) → k + 1 < 2 ^ 31 → to_i32 (k + 1) ≡ pos (suc k)
to_i32-small k h = ground arith

to_i32-big : (k : ℕ) → k + 1 < 2 ^ 32 → 2 ^ 31 ≤ k + 1 → to_i32 (k + 1) ≡ negsuc (2 ^ 32 - k - 2)
to_i32-big k h g = ground arith

-- What is read back for the index k.
abbrev pub read_back : Option ℕ → Outcome (Option ℕ)
read_back none = ok none
read_back (some k) = if k == 2 ^ 31 - 1 then panic else ok (some k)

abbrev pub InU32 : Option ℕ → Type 0
InU32 none = Unit {0}
InU32 (some k) = k + 1 < 2 ^ 32

decoded-encoded : (k : ℕ) → k + 1 < 2 ^ 32 → decoded_argv (to_i32 (k + 1)) ≡ read_back (some k)
decoded-encoded k h = elim (split k h) [
  | inl small ↦ rw (to_i32-small k small, decoded-pos k (omega arith)) (ground arith)
  | inr big ↦ rw (to_i32-big k h big, decoded-negsuc (2 ^ 32 - k - 2) (omega arith)) (ground arith)
]

pub at-some : (us : List Usage) (i : ℕ) → i < length us → (u : Usage) × (get_elem? us i ≡ some u)
at-some [] i h = absurd (omega arith)
at-some (u ∷ us) zero h = (u, refl)
at-some (u ∷ us) (suc i) h = at-some us i (omega arith)

encoded-read_back :
    (idx : Option ℕ) → InU32 idx → (x : ℤ) × (encoded idx ≡ ok x) × (decoded_argv x ≡ read_back idx)
encoded-read_back none h = (pos 0, refl, refl)
encoded-read_back (some k) h = (to_i32 (k + 1), ground arith, decoded-encoded k h)

pub set_argv_index-ok :
    (i : ℕ) (idx : Option ℕ) (info : IndexInfo) (u : Usage) (x : ℤ)
    → get_elem? info.a_constraint_usage i ≡ some u
    → encoded idx ≡ ok x
    → set_argv_index i idx info ≡ ok (set_usage i (record u { argv_index = x }) info)
unfolding set_argv_index
set_argv_index-ok i idx info u x e f = ground arith

argv_index-at :
    (info : IndexInfo) (i : ℕ) (o : Option Usage)
    → get_elem? info.a_constraint_usage i ≡ o
    → argv_index info i ≡ elim o [ some u ↦ decoded_argv u.argv_index | none ↦ panic ]
unfolding argv_index
argv_index-at info i none e = ground arith
argv_index-at info i (some u) e = ground arith

-- The argument index that is set for a constraint of the plan is read back, and those of the
-- other constraints stay as they were. There is one exception: the index 2^31 - 1 is stored as
-- i32::MIN, and reading it overflows. An index is below u32::MAX.
set_argv_index-argv_index :
    (i j : ℕ) (idx : Option ℕ) (info : IndexInfo)
    → i < length info.a_constraint_usage
    → InU32 idx
    → i ≢ j
    → (bind (set_argv_index i idx info) (λ info'. argv_index info' i) ≡ read_back idx)
      × (bind (set_argv_index i idx info) (λ info'. argv_index info' j) ≡ argv_index info j)
set_argv_index-argv_index i j idx info h k ne =
    let (u, e) = at-some info.a_constraint_usage i h in
    let (x, f, g) = encoded-read_back idx k in
    let new = record u { argv_index = x } in
    let there = get_elem?-set_self info.a_constraint_usage i new h in
    let same = get_elem?-set_ne info.a_constraint_usage new ne in
    rw (set_argv_index-ok i idx info u x e f) (
      argv_index-at (set_usage i new info) i (some new) there ∙ g,
      argv_index-at (set_usage i new info) j (get_elem? info.a_constraint_usage j) same
          ∙ sym (argv_index-at info j (get_elem? info.a_constraint_usage j) refl),
    )

-- m positions from k on.
abbrev pub range : ℕ → ℕ → List ℕ
range k zero = []
range k (suc m) = k ∷ range (k + 1) m

next-end : (n p : ℕ) → (p + 1) % 2 ^ 64 ≡ n → next n p ≡ (none, p)
unfolding next
next-end n p h = ground arith

next-step : (n p k : ℕ) → (p + 1) % 2 ^ 64 ≡ k → k < n → next n p ≡ (some k, k)
unfolding next
next-step n p k h l = ground arith

positions-from :
    (m fuel n p k : ℕ)
    → (p + 1) % 2 ^ 64 ≡ k
    → k + m ≡ n
    → n < 2 ^ 64
    → m < fuel
    → positions n fuel p ≡ some (range k m)
unfolding positions
positions-from m zero n p k h e l f = absurd (omega arith)
positions-from zero (suc fuel) n p k h e l f = rw (positions, next-end n p (omega arith)) refl
positions-from (suc m) (suc fuel) n p k h e l f =
    rw
      (
        positions,
        next-step n p k h (omega arith),
        next-step n p k h (omega arith),
        positions-from m fuel n k (k + 1) (omega arith) (omega arith) l (omega arith),
      )
      refl

-- Collecting an iterator over n constraints or sort terms ends after n + 1 calls of next, for every
-- n below 2^64, with all the positions in order, beginning with the first: the position that it
-- starts at wraps around. And wherever it reports the end, it stays, so every further call reports
-- the end again.
pub positions-range :
    (n fuel p : ℕ)
    → n < 2 ^ 64
    → n < fuel
    → (next n p).0 ≡ none
    → (positions n fuel start_position ≡ some (range 0 n))
      × (next n (next n p).1 ≡ (none, (next n p).1))
unfolding next
positions-range n fuel p l f e =
    (positions-from n fuel n start_position 0 refl (omega arith) l f, ground arith)
