-- ===== src/IndexInfo/IndexStr.antt =====
-- Who owns the index string.
use sqlite3_ext.Prelude.{
  ℕ, suc, ◌+◌, ◌<◌, ◌≡◌, ◌≢◌, refl, ◌∙◌, ap, Bool, true, false, Option, none, some, List, [], ◌∷◌,
  ◌++◌, All, arith, length, ok, err, panic, sqlite, Text, ◌==◌, if◌then◌else◌, ==_refl, inl, inr,
  ◌⊎◌, zero,
}
use sqlite3_ext.Ffi.{usize_mod, str_to_sqlite3, to_bytes}
use sqlite3_ext.Ffi.Strings.{str_to_sqlite3_lem}
use sqlite3_ext.IndexInfo.{
  Pointer, null, static, block, Heap, IndexInfo, update, free, read, allocate, freed, index_str,
  set_index_str, set_index_str_static, put_str, put_index_str,
}

Nat-cases : (n : ℕ) → (n ≡ 0) ⊎ (n ≢ 0)
Nat-cases zero = inl refl
Nat-cases (suc n) = inr (λ e. omega arith)

-- The flag is set only for a pointer that may be freed, and a block that is pointed to is there.
abbrev pub Owns : ℕ → Pointer → Heap → Type 0
Owns flag null h = Unit
Owns flag (static s) h = flag ≡ 0
Owns flag (block i) h = (s : List ℕ) × (h.content i ≡ some s)

abbrev pub IsOwned : IndexInfo → Type 0
IsOwned info = Owns info.need_to_free_idx_str info.idx_str info.heap

-- The blocks once the one that a pointer leads to is freed.
abbrev without : Pointer → (ℕ → Option (List ℕ)) → ℕ → Option (List ℕ)
without null content = content
without (static s) content = content
without (block i) content = update content i none

-- The blocks once the plan has let go of what it owns.
abbrev pub released : IndexInfo → ℕ → Option (List ℕ)
released info =
    if info.need_to_free_idx_str == 0
    then info.heap.content
    else without info.idx_str info.heap.content

abbrev after_release : IndexInfo → IndexInfo
after_release info = record info { heap = record info.heap { content = released info } }

free-owned :
    (flag : ℕ) (p : Pointer) (h : Heap)
    → Owns flag p h
    → flag ≢ 0
    → free p h ≡ ok (record h { content = without p h.content })
unfolding free
free-owned flag null h o k = refl
free-owned flag (static s) h o k = absurd (k o)
free-owned flag (block i) h (s, e) k = rw (free, e) refl

freed-owned : (info : IndexInfo) → IsOwned info → freed info ≡ ok (after_release info)
freed-owned info o = elim (Nat-cases info.need_to_free_idx_str) [
  | inl e ↦ rw e refl
  | inr k ↦ ground (arith, free-owned info.need_to_free_idx_str info.idx_str info.heap o k)
]

set_index_str-freed :
    (malloc : ℕ → Bool) (val : Option (List ℕ × ℕ)) (info : IndexInfo) (h : Heap)
    → freed info ≡ ok (record info { heap = h })
    → set_index_str malloc val info ≡ put_index_str malloc val (record info { heap = h })
unfolding set_index_str
set_index_str-freed malloc val info h e = rw (set_index_str, e) refl

set_index_str_static-freed :
    (s : List ℕ) (info : IndexInfo) (h : Heap)
    → freed info ≡ ok (record info { heap = h })
    → set_index_str_static s info
      ≡ (ok tt, record info { idx_str = static s; need_to_free_idx_str = 0; heap = h })
unfolding set_index_str_static
set_index_str_static-freed s info h e = rw (set_index_str_static, e) refl

read-block :
    (h : Heap) (i : ℕ) (v : Option (List ℕ))
    → h.content i ≡ v
    → read (block i) h ≡ elim v [ some s ↦ ok (some s) | none ↦ panic ]
unfolding read
read-block h i v e = rw (read, e) refl

update_self : (f : ℕ → Option (List ℕ)) (i : ℕ) (v : Option (List ℕ)) → update f i v i ≡ v
update_self f i v = rw (==_refl i) refl

put-str :
    (to_str : Text → Option Text) (s : List ℕ) (info : IndexInfo)
    → let r = put_str (ok (some s)) info in
      (index_str to_str r.1 ≡ ok (to_str (to_bytes s))) × IsOwned r.1
unfolding index_str
put-str to_str s info =
    let new = update_self info.heap.content info.heap.fresh (some s) in
    let h = (allocate (some s) info.heap).1 in
    (rw (index_str, read-block h info.heap.fresh (some s) new) refl, (s, new))

-- A text that is not empty and has no nul inside is read back as it was written, when malloc
-- grants the copy and there is a byte to read behind the text, which str_to_sqlite3 reads too. What
-- the plan owned before is freed. The plan points to a new block with the text and its nul, which
-- SQLite is told to free, and all other blocks are as they were.
pub set_index_str-index_str :
    (malloc : ℕ → Bool) (to_str : Text → Option Text) (c : ℕ) (s : Text) (x : ℕ) (rest : List ℕ)
    (info : IndexInfo)
    → IsOwned info
    → All (λ b. 0 < b) (c ∷ s)
    → length (c ∷ s) + 1 < usize_mod
    → malloc (length (c ∷ s) + 1) ≡ true
    → let r = set_index_str malloc (some (c ∷ s ++ x ∷ rest, length (c ∷ s))) info in
      (r.0 ≡ ok tt)
      × (index_str to_str r.1 ≡ ok (to_str (c ∷ s)))
      × (r.1.idx_str ≡ block info.heap.fresh)
      × (r.1.need_to_free_idx_str ≡ 1)
      × (r.1.heap.content ≡ update (released info) info.heap.fresh (some (c ∷ s ++ 0 ∷ [])))
set_index_str-index_str malloc to_str c s x rest info o nonzero room granted =
    let (copied, bytes, past) = str_to_sqlite3_lem malloc c s x rest nonzero room granted in
    let (reads, owned) = put-str to_str (c ∷ s ++ 0 ∷ []) (after_release info) in
    rw
      (
        set_index_str-freed malloc (some (c ∷ s ++ x ∷ rest, length (c ∷ s))) info
            (after_release info).heap (freed-owned info o),
        copied,
      )
      (refl, reads ∙ ap (λ q. ok (to_str q)) bytes, refl, refl, refl)

-- Setting no string, or a static one, always succeeds on a plan that owns its string, and leaves
-- one that does.
set_index_str_static-index_str :
    (malloc : ℕ → Bool) (to_str : Text → Option Text) (s : List ℕ) (info : IndexInfo)
    → IsOwned info
    → let r = set_index_str_static s info in
      let q = set_index_str malloc none info in
      (r.0 ≡ ok tt)
      × (index_str to_str r.1 ≡ ok (to_str (to_bytes s)))
      × IsOwned r.1
      × (q.0 ≡ ok tt)
      × (index_str to_str q.1 ≡ ok none)
      × IsOwned q.1
unfolding index_str read
set_index_str_static-index_str malloc to_str s info o =
    let h = (after_release info).heap in
    let e = freed-owned info o in
    rw (set_index_str_static-freed s info h e, set_index_str-freed malloc none info h e)
      (refl, refl, refl, refl, refl, tt)

refused :
    (malloc : ℕ → Bool) (c : ℕ) (s : Text) (rest : List ℕ)
    → length (c ∷ s) + 1 < usize_mod
    → malloc (length (c ∷ s) + 1) ≡ false
    → str_to_sqlite3 malloc (c ∷ s ++ rest) (length (c ∷ s)) ≡ err (sqlite 7 none)
unfolding str_to_sqlite3
refused malloc c s rest room denied = ground arith

abbrev dangling : IndexInfo → ℕ → IndexInfo
dangling info i = record info {
  heap = record info.heap { content = update info.heap.content i none };
}

freed-block :
    (info : IndexInfo) (i : ℕ) (v : Option (List ℕ))
    → info.idx_str ≡ block i
    → info.need_to_free_idx_str ≡ 1
    → info.heap.content i ≡ v
    → freed info ≡ elim v [ some s ↦ ok (dangling info i) | none ↦ panic ]
unfolding free
freed-block info i none p flag e = ground arith
freed-block info i (some s) p flag e = ground arith

set_index_str-panic :
    (malloc : ℕ → Bool) (to_str : Text → Option Text) (val : Option (List ℕ × ℕ)) (s : List ℕ)
    (info : IndexInfo) (i : ℕ)
    → info.idx_str ≡ block i
    → info.need_to_free_idx_str ≡ 1
    → info.heap.content i ≡ none
    → (index_str to_str info ≡ panic)
      × ((set_index_str malloc val info).0 ≡ panic)
      × ((set_index_str_static s info).0 ≡ panic)
unfolding index_str set_index_str set_index_str_static
set_index_str-panic malloc to_str val s info i p flag e =
    let f = freed-block info i none p flag e in
    (
      rw (index_str, p, read-block info.heap i none e) refl,
      rw (set_index_str, f) refl,
      rw (set_index_str_static, f) refl,
    )

-- When the plan owns a block and malloc refuses the copy of a new string, the call answers
-- SQLITE_NOMEM with the block freed but still pointed to and still marked as owned. Reading the
-- string is then undefined behaviour, and so is setting any other, which frees the block again.
pub set_index_str-dangling :
    (malloc : ℕ → Bool) (to_str : Text → Option Text) (c : ℕ) (s : Text) (rest : List ℕ)
    (info : IndexInfo) (i : ℕ) (old : List ℕ) (val : Option (List ℕ × ℕ))
    → info.idx_str ≡ block i
    → info.heap.content i ≡ some old
    → info.need_to_free_idx_str ≡ 1
    → length (c ∷ s) + 1 < usize_mod
    → malloc (length (c ∷ s) + 1) ≡ false
    → let r = set_index_str malloc (some (c ∷ s ++ rest, length (c ∷ s))) info in
      (r.0 ≡ err (sqlite 7 none))
      × (index_str to_str r.1 ≡ panic)
      × ((set_index_str malloc val r.1).0 ≡ panic)
      × ((set_index_str_static old r.1).0 ≡ panic)
set_index_str-dangling malloc to_str c s rest info i old val p live flag room denied =
    let h = (dangling info i).heap in
    let f = freed-block info i (some old) p flag live in
    let gone = update_self info.heap.content i none in
    let after = set_index_str-panic malloc to_str val old (dangling info i) i p flag gone in
    rw
      (
        set_index_str-freed malloc (some (c ∷ s ++ rest, length (c ∷ s))) info h f,
        refused malloc c s rest room denied,
      )
      (refl, after.0, after.1, after.2)
