-- ===== src/Reads/Search.antt =====
-- The binary search for the log entry that wrote a position of the prefix tree.
use ru_kt.Common.{
  ℕ, zero, suc, ◌+◌, ◌-◌, ◌/◌, ◌^◌, ◌≤◌, ◌<◌, ◌≡◌, refl, sym, subst, arith, inl, inr, true, false,
  Option, some, ltb, leb, order,
}
use ru_kt.Common.Pow.{two_pow_suc}
use ru_kt.Reads.{narrowed, find_loop, find_log_entry_for_prefix_pos}

-- The first entry, of those below a bound and the bound itself, whose position is not before `pos`.
pub record First (ptr : ℕ → ℕ) (pos bound entry : ℕ) : Type 0 where
  pub within : entry ≤ bound
  pub before : (i : ℕ) → i < entry → ptr i < pos
  pub reached : pos ≤ ptr bound → pos ≤ ptr entry

module _ (prefix_ptr : ℕ → Option ℕ) (ptr : ℕ → ℕ) (size : ℕ)
    (gives : (i : ℕ) → i < size → prefix_ptr i ≡ some (ptr i))
    (rising : (i j : ℕ) → i ≤ j → j < size → ptr i ≤ ptr j) where
  ended :
      (pos lo hi : ℕ)
      → lo ≡ hi
      → hi < size
      → ((i : ℕ) → i < lo → ptr i < pos)
      → (pos ≤ ptr (size - 1) → pos ≤ ptr hi)
      → First ptr pos (size - 1) lo
  ended pos lo hi same b d f = record {
    within = omega arith;
    before = d;
    reached = λ p. subst (λ i. pos ≤ ptr i) (sym same) (f p);
  }

  -- The bounds of the next round.
  record Narrowed (n pos lo hi : ℕ) (bounds : ℕ × ℕ) : Type 0 where
    ordered : bounds.0 ≤ bounds.1
    in_log : bounds.1 < size
    halved : bounds.1 - bounds.0 < 2 ^ n
    below : (i : ℕ) → i < bounds.0 → ptr i < pos
    above : pos ≤ ptr (size - 1) → pos ≤ ptr bounds.1

  narrowed_lem :
      (n pos lo hi mid : ℕ)
      → mid ≡ lo + (hi - lo) / 2
      → lo < hi
      → hi < size
      → hi - lo < 2 ^ suc n
      → ((i : ℕ) → i < lo → ptr i < pos)
      → (pos ≤ ptr (size - 1) → pos ≤ ptr hi)
      → Narrowed n pos lo hi (narrowed pos lo mid hi (ptr mid))
  narrowed_lem n pos lo hi mid m h b c d f = elim (order (ptr mid) pos) [
    | inl lt ↦
        let no : leb pos (ptr mid) ≡ false = ground arith in
        rw no (record {
          ordered = omega arith;
          in_log = b;
          halved = omega (arith, two_pow_suc n);
          below = λ i l. omega (arith, rising i mid (omega arith) (omega arith));
          above = f;
        })
    | inr ge ↦
        let yes : leb pos (ptr mid) ≡ true = ground arith in
        rw yes (record {
          ordered = omega arith;
          in_log = omega arith;
          halved = omega (arith, two_pow_suc n);
          below = d;
          above = λ p. omega arith;
        })
  ]

  found :
      (n pos lo hi : ℕ)
      → lo ≤ hi
      → hi < size
      → hi - lo < 2 ^ n
      → ((i : ℕ) → i < lo → ptr i < pos)
      → (pos ≤ ptr (size - 1) → pos ≤ ptr hi)
      → (e : ℕ) × (find_loop prefix_ptr n pos lo hi ≡ some e) × First ptr pos (size - 1) e
  unfolding find_loop
  found zero pos lo hi a b c d f =
      let same : lo ≡ hi = omega arith in
      let stop : ltb lo hi ≡ false = ground arith in (lo, rw stop refl, ended pos lo hi same b d f)
  found (suc n) pos lo hi a b c d f = elim (order lo hi) [
    | inl h ↦
        let next = narrowed_lem n pos lo hi (lo + (hi - lo) / 2) refl h b c d f in
        let more : ltb lo hi ≡ true = ground arith in
        let (e, r, first) =
          found n pos _ _ next.ordered next.in_log next.halved next.below next.above in
        (e, rw (more, gives (lo + (hi - lo) / 2) (omega arith), r) refl, first)
    | inr h ↦
        let same : lo ≡ hi = omega arith in
        let stop : ltb lo hi ≡ false = ground arith in
        (lo, rw stop refl, ended pos lo hi same b d f)
  ]

  -- In a log of at most 2^64 entries whose positions do not fall, the search ends with an entry of the
  -- log. All entries before it have earlier positions, and if any entry reaches the position, then
  -- this one does: it is the first.
  pub find_log_entry_for_prefix_pos-First :
      (pos : ℕ)
      → 0 < size
      → size ≤ 2 ^ 64
      → (e : ℕ) × (find_log_entry_for_prefix_pos prefix_ptr pos size ≡ some e)
        × First ptr pos (size - 1) e
  unfolding find_log_entry_for_prefix_pos
  find_log_entry_for_prefix_pos-First pos h w =
      let some_entry : ltb 0 size ≡ true = ground arith in
      let (e, r, first) =
        found 64 pos 0 (size - 1) (omega arith) (omega arith) (omega arith)
          (λ i l. absurd (omega arith)) (λ p. p) in
      (e, rw (some_entry, r) refl, first)
