-- ===== src/Types/Conversion.antt =====
-- Result codes survive the way through the crate.
use sqlite3_ext.Prelude.{
  ℕ, ◌/◌, ◌%◌, ◌<◌, ◌≡◌, ◌≢◌, ◌++◌, refl, Bool, true, false, Option, none, some, arith, Outcome, ok,
  err, Option-cases, Outcome-cases, inl, inr, if◌then◌else◌, panic, Error, sqlite, utf8_error,
  nul_error, version_not_satisfied, module_msg, no_change, Text, text, List, Bool-cases, ap, ◌∙◌,
}
use sqlite3_ext.Ffi.Strings.{copy, placed, IsReadable, copy-placed}
use sqlite3_ext.Version.{encode_version}
use sqlite3_ext.Types.Codes.{sqlite_ok, sqlite_error}
use sqlite3_ext.Types.{
  is_success, from_sqlite_desc, display, Slot, into_sqlite, handle_result, handle_error, reply,
  store,
}

version_parts :
    (major minor patch : ℕ)
    → minor < 1000
    → patch < 1000
    → let v = encode_version major minor patch in
      (v / 1000000 ≡ major) × ((v / 1000) % 1000 ≡ minor) × (v % 1000 ≡ patch)
version_parts major minor patch h k = omega arith

-- The code that SQLite is to see for an error.
abbrev pub code_of : Error → ℕ
code_of (sqlite code s) = code
code_of e = sqlite_error

-- An error with a message from SQLite.
abbrev pub is_described : Error → Bool
is_described (sqlite code (some s)) = true
is_described e = false

module _ (show_error : Error → Text) (to_c : Text → Outcome (Option Text)) where
  stored :
      (code : ℕ) (s : Text) (old : Option Text)
      → to_c s ≢ panic
      → (p : Option Text) × (reply show_error to_c code (store show_error to_c (some old) s)
          ≡ ok (code, some p))
  stored code s old h = elim (Outcome-cases (to_c s)) [
    | inl (p, e) ↦ (p, ground arith)
    | inr (inl (x, e)) ↦ (old, ground arith)
    | inr (inr e) ↦ absurd (h e)
  ]

  -- Given a place for the message, every error is reported: by its own code if SQLite raised it,
  -- and by SQLITE_ERROR otherwise, also when the message cannot be copied.
  pub into_sqlite-code :
      (e : Error) (old : Option Text)
      → ((s : Text) → to_c s ≢ panic)
      → (p : Option Text) × (into_sqlite show_error to_c e (some old) ≡ ok (code_of e, some p))
  unfolding into_sqlite
  into_sqlite-code (sqlite code none) old h = (old, refl)
  into_sqlite-code (sqlite code (some s)) old h = stored code s old (h s)
  into_sqlite-code utf8_error old h = stored _ _ old (h _)
  into_sqlite-code nul_error old h = stored _ _ old (h _)
  into_sqlite-code (version_not_satisfied v) old h = stored _ _ old (h _)
  into_sqlite-code (module_msg s) old h = stored _ _ old (h _)
  into_sqlite-code no_change old h = stored _ _ old (h _)

  -- The code by which a result is answered.
  abbrev pub result_code : Outcome (Unit {0}) → ℕ
  result_code (err e) = code_of e
  result_code r = sqlite_ok

  -- A result is answered by its code, and the place for the message stays one.
  pub handle_result-code :
      (r : Outcome (Unit {0})) (old : Option Text)
      → ((s : Text) → to_c s ≢ panic)
      → r ≢ panic
      → (p : Option Text) × (handle_result show_error to_c r (some old)
          ≡ ok (result_code r, some p))
  unfolding handle_result handle_error
  handle_result-code (ok _) old calm k = (old, refl)
  handle_result-code (err e) old calm k =
      let (q, f) = into_sqlite-code e old calm in (q, rw (handle_result, handle_error, f) refl)
  handle_result-code panic old calm k = absurd (k refl)

  -- With no place for the message only the errors that carry a message of SQLite go wrong: the
  -- null pointer is written through. All others are reported by their code.
  into_sqlite-null :
      (e : Error) (p : Text → Option Text)
      → ((s : Text) → to_c s ≡ ok (p s))
      → into_sqlite show_error to_c e none
        ≡ (if is_described e then panic else ok (code_of e, none))
  unfolding into_sqlite
  into_sqlite-null (sqlite code (some s)) p h = ground (arith, h s)
  into_sqlite-null (sqlite code none) p h = refl
  into_sqlite-null e p h = refl

module _ (show_error : Error → Text) (malloc : ℕ → Bool) (memory : Text → List ℕ) where
  -- What SQLite is to see of a result code, where the message `old` stands before.
  abbrev pub answer_for : ℕ → Option Text → Option Text → ℕ × Slot
  answer_for rc msg old = if is_success rc then (sqlite_ok, some old) else elim msg [
    | some m ↦ (rc, some (placed malloc m old))
    | none ↦ (sqlite_error, some (placed malloc (show_error utf8_error) old))
  ]

  reply-outcome :
      (code : ℕ) (s : Text) (old : Option Text) (r : Outcome (Option Text))
      → copy malloc memory s ≡ r
      → r ≢ panic
      → reply show_error
          (copy malloc memory)
          code
          (store show_error (copy malloc memory) (some old) s)
        ≡ ok (code, some (elim r [ ok p ↦ p | err e ↦ old | panic ↦ old ]))
  reply-outcome code s old (ok p) e calm = rw (store, e) refl
  reply-outcome code s old (err x) e calm = rw (store, e) refl
  reply-outcome code s old panic e calm = absurd (calm refl)

  replied :
      (code : ℕ) (s : Text) (old : Option Text)
      → IsReadable memory s
      → reply show_error
          (copy malloc memory)
          code
          (store show_error (copy malloc memory) (some old) s)
        ≡ ok (code, some (placed malloc s old))
  replied code s old h =
      let (calm, e) = copy-placed malloc memory s old h in
      reply-outcome code s old (copy malloc memory s) refl calm ∙ ap (λ p. ok (code, some p)) e

  -- Where there is a place for the message and the byte behind each message can be read: a code that
  -- is no error becomes SQLITE_OK, and every other code comes back to SQLite as the same code, with
  -- SQLite's description as the message when that is valid UTF-8. When it is not valid, the code is
  -- lost and SQLite sees SQLITE_ERROR. When there is no memory for the copy, the code is the same
  -- and the place stays as it was.
  pub handle_result-from_sqlite_desc :
      (to_str : Text → Option Text) (rc : ℕ) (errmsg : Text) (old : Option Text)
      → ((s : Text) → IsReadable memory s)
      → handle_result show_error (copy malloc memory) (from_sqlite_desc to_str rc errmsg) (some old)
        ≡ ok (answer_for rc (to_str errmsg) old)
  unfolding handle_result handle_error into_sqlite from_sqlite_desc
  handle_result-from_sqlite_desc to_str rc errmsg old readable = elim (Bool-cases (is_success rc)) [
    | inl t ↦ rw t refl
    | inr f ↦ elim (Option-cases (to_str errmsg)) [
      | inl e ↦ rw (f, e) (replied sqlite_error (show_error utf8_error) old (readable _))
      | inr (m, e) ↦ rw (f, e) (replied rc m old (readable m))
    ]
  ]

module _ (errstr : ℕ → Option Text) (show : ℕ → Text) (utf8 nul : Text) where
  -- The message of a version that is not met shows the three numbers that were encoded.
  display-encode_version :
      (major minor patch : ℕ)
      → minor < 1000
      → patch < 1000
      → display errstr show utf8 nul (version_not_satisfied (encode_version major minor patch))
        ≡ text "requires SQLite version "
          ++ (show major
              ++ (text "." ++ (show minor ++ (text "." ++ (show patch ++ text " or above")))))
  unfolding display
  display-encode_version major minor patch h k =
      let (a, b, c) = version_parts major minor patch h k in rw (a, b, c)
