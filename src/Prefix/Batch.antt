-- ===== src/Prefix/Batch.antt =====
-- A batch of insertions ends, and each of its trees is the one before with one leaf changed.
use ru_kt.Common.{ℕ, suc, ◌<◌, ◌≡◌, List, [], ◌∷◌, Option, some}
use ru_kt.Tls.{Bytes}
use ru_kt.Prefix.{rollup, LogEntry, ParentNode, SearchResult}
use ru_kt.Prefix.Operations.{new_entry, result_at, batch_insert_loop}
use ru_kt.Prefix.Step.{IsStore}
use ru_kt.Prefix.Insert.{Replaces}

-- The position of the last insertion, which is the new root.
abbrev pub last_at : ℕ → Option ℕ → List (Bytes × Bytes) → Option ℕ
last_at alloc ptr [] = ptr
last_at alloc ptr (e ∷ entries) = last_at (suc alloc) (some alloc) entries

module _ (hash : Bytes → Bytes) where
  -- An insertion's entry, in a store. The older root and the new one differ in the leaf only.
  pub record Written (get : ℕ → Option LogEntry) (pos : ℕ) (older : Bytes)
      (index commitment : Bytes) (root : Bytes) (result : SearchResult) : Type 0 where
    pub copath : List ParentNode
    pub ctr : ℕ
    pub gets : get pos ≡ some (new_entry pos index commitment copath ctr)
    pub newer : rollup hash (new_entry pos index commitment copath ctr) 0 ≡ root
    pub replaces : Replaces hash index copath ctr older
    pub reported : result ≡ result_at pos (new_entry pos index commitment copath ctr)

  -- One entry for each insertion, each on the root of the one before.
  abbrev pub Chain :
      (ℕ → Option LogEntry)
      → ℕ
      → Bytes
      → List (Bytes × Bytes)
      → List Bytes
      → List SearchResult
      → Type 0
  Chain get pos older [] [] [] = Unit
  Chain get pos older ((index, commitment) ∷ entries) (root ∷ roots) (r ∷ results) =
      Written get pos older index commitment root r × Chain get (suc pos) root entries roots results
  Chain get pos older _ _ _ = ⊥

  -- What a batch leaves.
  pub record Batch (get : ℕ → Option LogEntry) (alloc : ℕ) (ptr : Option ℕ) (older : Bytes)
      (entries : List (Bytes × Bytes)) : Type 0 where
    pub roots : List Bytes
    pub results : List SearchResult
    pub after : ℕ → Option LogEntry
    pub gives :
        batch_insert_loop hash get alloc ptr entries
        ≡ some (roots, results, after, last_at alloc ptr entries)
    pub store : IsStore hash after
    pub chain : Chain after alloc older entries roots results
    pub keeps : (p : ℕ) → p < alloc → after p ≡ get p
