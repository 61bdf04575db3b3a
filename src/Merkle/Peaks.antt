-- ===== src/Merkle/Peaks.antt =====
-- The peaks of an accumulator are the roots of full trees over all leaves.
use ru_kt.Common.{
  ℕ, zero, suc, ◌≤◌, ◌≡◌, refl, sym, ap, ◌∙◌, arith, List, [], ◌∷◌, ◌++◌, ◌==◌, Bool-cases, ==_iff,
  inl, inr, length, length-append, subst, ◌⊎◌, true, false,
}
use mathlib.Core.List.{append_assoc, append-nil}
use ru_kt.Tls.{Bytes}
use ru_kt.Crypto.{log_parent_value}
use ru_kt.Merkle.{LogAccumulator, new, merge, append_leaf, append_all}

module _ (hash : Bytes → Bytes) where
  -- A full tree of a height over its leaves has a root value.
  abbrev pub IsFull : ℕ → List Bytes → Bytes → Type 0
  IsFull zero leaves v = leaves ≡ v ∷ []
  IsFull (suc h) leaves v =
      (a : List Bytes) × (b : List Bytes) × (l : Bytes) × (r : Bytes) × (leaves ≡ a ++ b)
      × IsFull h a l
      × IsFull h b r
      × (v ≡ log_parent_value hash l (h == 0) r (h == 0))

  -- Peaks, from right to left and each higher than the one before, over consecutive leaves.
  abbrev pub IsPeaks : ℕ → List (ℕ × Bytes) → List Bytes → Type 0
  IsPeaks low [] leaves = leaves ≡ []
  IsPeaks low ((h, v) ∷ peaks) leaves =
      (low ≤ h)
      × ((front : List Bytes) × (last : List Bytes) × (leaves ≡ front ++ last)
          × IsFull h last v
          × IsPeaks (suc h) peaks front)

  IsPeaks-low :
      (low low' : ℕ) (peaks : List (ℕ × Bytes)) (leaves : List Bytes)
      → low' ≤ low
      → IsPeaks low peaks leaves
      → IsPeaks low' peaks leaves
  IsPeaks-low low low' [] leaves h p = p
  IsPeaks-low low low' ((k, v) ∷ peaks) leaves h (le, w) = (omega arith, w)

  merge-IsPeaks :
      (h : ℕ) (v : Bytes) (peaks : List (ℕ × Bytes)) (front last : List Bytes)
      → IsPeaks h peaks front
      → IsFull h last v
      → IsPeaks h (merge hash h v peaks) (front ++ last)
  unfolding merge
  merge-IsPeaks h v [] front last p full = (omega arith, (front, last, refl, full, p))
  merge-IsPeaks h v ((k, l) ∷ peaks) front last (le, (front', mid, e, full', p)) full =
      go
        (merge-IsPeaks (suc k) (log_parent_value hash l (k == 0) v (h == 0)) peaks front'
          (mid ++ last) p)
        (Bool-cases (k == h))
    where
      go :
          (IsFull (suc k) (mid ++ last) (log_parent_value hash l (k == 0) v (h == 0))
            → IsPeaks
                (suc k)
                (merge hash (suc k) (log_parent_value hash l (k == 0) v (h == 0)) peaks)
                (front' ++ (mid ++ last)))
          → ((k == h) ≡ true) ⊎ ((k == h) ≡ false)
          → IsPeaks h (merge hash h v ((k, l) ∷ peaks)) (front ++ last)
      go ih (inl b) =
          let same : k ≡ h = (==_iff k h).0 b in
          let flat : front ++ last ≡ front' ++ (mid ++ last) =
            ap (λ (x : List Bytes). x ++ last) e ∙ append_assoc front' mid last in
          rw (b, flat, merge)
            (IsPeaks-low (suc k) h _ _ (omega arith) (
              ih (
                mid,
                last,
                l,
                v,
                refl,
                full',
                subst (λ (j : ℕ). IsFull j last v) (sym same) full,
                ap (λ (j : ℕ). log_parent_value hash l (k == 0) v (j == 0)) (sym same),
              )))
      go ih (inr b) =
          let more : suc h ≤ k = ground arith in
          rw (b, merge) (omega arith, (front, last, refl, full, (more, (front', mid, e, full', p))))

  append_leaf-IsPeaks :
      (acc : LogAccumulator) (leaf : Bytes) (leaves : List Bytes)
      → IsPeaks 0 acc.peaks leaves
      → IsPeaks 0 (append_leaf hash acc leaf).peaks (leaves ++ (leaf ∷ []))
  unfolding append_leaf
  append_leaf-IsPeaks acc leaf leaves p = merge-IsPeaks 0 leaf acc.peaks leaves (leaf ∷ []) p refl

  pub append_all_from :
      (acc : LogAccumulator) (before leaves : List Bytes)
      → acc.tree_size ≡ length before
      → IsPeaks 0 acc.peaks before
      → ((append_all hash acc leaves).tree_size ≡ length (before ++ leaves))
        × IsPeaks 0 (append_all hash acc leaves).peaks (before ++ leaves)
  unfolding append_all
  append_all_from acc before [] size p = rw (append-nil before) (size, p)
  append_all_from acc before (leaf ∷ leaves) size p =
      rw (sym (append_assoc before (leaf ∷ []) leaves)) (
        append_all_from (append_leaf hash acc leaf) (before ++ (leaf ∷ [])) leaves (grown size)
          (append_leaf-IsPeaks acc leaf before p))
    where
      grown :
          acc.tree_size ≡ length before
          → (append_leaf hash acc leaf).tree_size ≡ length (before ++ (leaf ∷ []))
      grown s = unfold append_leaf in omega (arith, s, length-append before (leaf ∷ []))

  -- After any leaves, from an empty log on, the accumulator has their number, and its peaks are the
  -- roots of full trees over all of them in order, each tree higher than those to its right.
  pub append_all-IsPeaks :
      (leaves : List Bytes)
      → ((append_all hash new leaves).tree_size ≡ length leaves)
        × IsPeaks 0 (append_all hash new leaves).peaks leaves
  append_all-IsPeaks leaves =
      append_all_from new [] leaves (unfold new in refl) (unfold new in refl)
