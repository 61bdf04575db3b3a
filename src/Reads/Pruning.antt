-- ===== src/Reads/Pruning.antt =====
-- What pruning and erasure leave of the user data.
use ru_kt.Common.{
  ℕ, ◌+◌, ◌-◌, ◌≡◌, refl, sym, ap, ◌∙◌, subst, arith, ◌⊎◌, inl, inr, Bool, true, false, Bool-cases,
  [], ◌∷◌, none, some, ◌==◌, if◌then◌else◌, bind_then, some_injective,
}
use ru_kt.Tls.{Bytes}
use ru_kt.Store.{Entries}
use ru_kt.Server.{greatest}
use ru_kt.Reads.{
  Tree, size_of, delete_at, expired, position_of, erase, prune_loop, prune_from, prune_within,
  prune_expired_versions,
}

-- An entry stands in a history.
pub Has : ℕ × ℕ → Entries → Type 0
Has e [] = ⊥
Has e (x ∷ history) = (e ≡ x) ⊎ Has e history

-- A position holds the data of an expired version that is not the greatest.
pub record Stale (tree : Tree) (size ts life g : ℕ) (history : Entries) (q : ℕ) : Type 0 where
  pub version : ℕ
  pub has : Has (version, q) history
  pub lesser : (version == g) ≡ false
  pub old : expired tree size ts life q ≡ some true

-- The data at a position before and after.
pub Kept : Tree → Tree → ℕ → Type 0
Kept tree tree' q = (tree'.values q ≡ tree.values q) × (tree'.openings q ≡ tree.openings q)

pub Gone : Tree → ℕ → Type 0
Gone tree q = (tree.values q ≡ none) × (tree.openings q ≡ none)

-- What pruning does: stale positions lose their data, all others keep it.
pub record Pruned (tree : Tree) (size ts life g : ℕ) (history : Entries) (tree' : Tree)
    : Type 0 where
  pub keeps : (q : ℕ) → Kept tree tree' q ⊎ Stale tree size ts life g history q
  pub drops : (q : ℕ) → Stale tree size ts life g history q → Gone tree' q
  pub stays : (q : ℕ) → Gone tree q → Gone tree' q

module _ (size ts life g : ℕ) where
  Stale-more :
      (tree : Tree) (history : Entries) (e : ℕ × ℕ) (q : ℕ)
      → Stale tree size ts life g history q
      → Stale tree size ts life g (e ∷ history) q
  unfolding Has
  Stale-more tree history e q s = record {
    version = s.version;
    has = inr s.has;
    lesser = s.lesser;
    old = s.old;
  }

  -- A version that stays.
  Pruned-keep :
      (tree tree' : Tree) (history : Entries) (v p : ℕ)
      → ((v == g) ≡ false → expired tree size ts life p ≡ some true → ⊥)
      → Pruned tree size ts life g history tree'
      → Pruned tree size ts life g ((v, p) ∷ history) tree'
  unfolding Has
  Pruned-keep tree tree' history v p fresh h = record {
    keeps =
        λ q. elim (h.keeps q) [ inl k ↦ inl k | inr s ↦ inr (Stale-more tree history (v, p) q s) ];
    drops = λ q s. elim s.has [
      | inl e ↦ absurd (
          fresh (subst (λ (x : ℕ × ℕ). (x.0 == g) ≡ false) e s.lesser)
            (subst (λ (x : ℕ × ℕ). expired tree size ts life x.1 ≡ some true) e s.old))
      | inr m ↦ h.drops q (record { version = s.version; has = m; lesser = s.lesser; old = s.old })
    ];
    stays = h.stays;
  }

  deleted : (tree : Tree) (p : ℕ) → Gone (delete_at tree p) p
  unfolding Gone
  deleted tree p = let e : (p == p) ≡ true = ground arith in rw e (refl, refl)

  deleted_still : (tree : Tree) (p q : ℕ) → Gone tree q → Gone (delete_at tree p) q
  unfolding Gone
  deleted_still tree p q (a, b) = elim (Bool-cases (p == q)) [
    | inl h ↦ rw h (refl, refl)
    | inr h ↦ rw h (a, b)
  ]

  not_deleted : (tree : Tree) (p q : ℕ) → (p == q) ≡ false → Kept tree (delete_at tree p) q
  unfolding Kept
  not_deleted tree p q h = rw h (refl, refl)

  Kept-trans : (a b c : Tree) (q : ℕ) → Kept a b q → Kept b c q → Kept a c q
  unfolding Kept
  Kept-trans a b c q (x, y) (z, w) = (z ∙ x, w ∙ y)

  -- Deletions do not change what has expired.
  Stale-delete_at :
      (tree : Tree) (history : Entries) (p q : ℕ)
      → Stale (delete_at tree p) size ts life g history q
      → Stale tree size ts life g history q
  unfolding expired
  Stale-delete_at tree history p q s = record {
    version = s.version;
    has = s.has;
    lesser = s.lesser;
    old = s.old;
  }

  Stale-undelete :
      (tree : Tree) (history : Entries) (p q v : ℕ)
      → Has (v, q) history
      → (v == g) ≡ false
      → expired tree size ts life q ≡ some true
      → Stale (delete_at tree p) size ts life g history q
  unfolding expired
  Stale-undelete tree history p q v m l o = record { version = v; has = m; lesser = l; old = o }

  -- A version that goes.
  Pruned-delete_at :
      (tree tree' : Tree) (history : Entries) (v p : ℕ)
      → (v == g) ≡ false
      → expired tree size ts life p ≡ some true
      → Pruned (delete_at tree p) size ts life g history tree'
      → Pruned tree size ts life g ((v, p) ∷ history) tree'
  unfolding Has
  Pruned-delete_at tree tree' history v p lesser old h = record {
    keeps = λ q. elim (h.keeps q) [
      | inl k ↦ elim (Bool-cases (p == q)) [
        | inl e ↦
            let same : q ≡ p = ground arith in
            inr (record {
              version = v;
              has = inl (ap (λ x. (v, x)) same);
              lesser = lesser;
              old = subst (λ x. expired tree size ts life x ≡ some true) (sym same) old;
            })
        | inr e ↦ inl (Kept-trans tree (delete_at tree p) tree' q (not_deleted tree p q e) k)
      ]
      | inr s ↦ inr (Stale-more tree history (v, p) q (Stale-delete_at tree history p q s))
    ];
    drops = λ q s. elim s.has [
      | inl e ↦ subst (Gone tree') (sym (ap (λ (x : ℕ × ℕ). x.1) e)) (h.stays p (deleted tree p))
      | inr m ↦ h.drops q (Stale-undelete tree history p q s.version m s.lesser s.old)
    ];
    stays = λ q e. h.stays q (deleted_still tree p q e);
  }

  Pruned-prune_loop :
      (history : Entries) (tree tree' : Tree) (n m : ℕ)
      → prune_loop tree size ts life g history n ≡ some (tree', m)
      → Pruned tree size ts life g history tree'
  unfolding prune_loop Has Kept
  Pruned-prune_loop [] tree tree' n m h =
      subst (Pruned tree size ts life g [])
        (ap (λ (r : Tree × ℕ). r.0) (some_injective (tree, n) (tree', m) h))
        (record { keeps = λ q. inl (refl, refl); drops = λ q s. absurd s.has; stays = λ q e. e })
  Pruned-prune_loop ((v, p) ∷ history) tree tree' n m h = elim (Bool-cases (v == g)) [
    | inl e ↦
        Pruned-keep tree tree' history v p (λ f o. absurd (cc (e, f)))
          (Pruned-prune_loop history tree tree' n m (rw e at h))
    | inr e ↦
        bind_then (expired tree size ts life p) _ _ (rw e at h)
          (pruned e (Pruned-prune_loop history))
  ]
    where
      pruned :
          (v == g) ≡ false
          → ((t t' : Tree) (i j : ℕ)
              → prune_loop t size ts life g history i ≡ some (t', j)
              → Pruned t size ts life g history t')
          → (old : Bool) → expired tree size ts life p ≡ some old
          → prune_loop
              (if old then delete_at tree p else tree)
              size
              ts
              life
              g
              history
              (if old then n + 1 else n)
            ≡ some (tree', m)
          → Pruned tree size ts life g ((v, p) ∷ history) tree'
      pruned e go true f rest =
          Pruned-delete_at tree tree' history v p e f (go (delete_at tree p) tree' (n + 1) m rest)
      pruned e go false f rest =
          Pruned-keep tree tree' history v p (λ l o. absurd (cc (f, o))) (go tree tree' n m rest)

-- If pruning a label succeeds on a log that has entries and a maximum lifetime, then exactly the data
-- of its expired versions other than the greatest is dropped: their values and openings are gone, and
-- at every other position both are as before.
pub prune_expired_versions-Pruned :
    (tree tree' : Tree) (label : Bytes) (n life ts g : ℕ)
    → tree.maximum_lifetime ≡ some life
    → (size_of tree.latest == 0) ≡ false
    → tree.timestamp (size_of tree.latest - 1) ≡ some ts
    → greatest (tree.history label) ≡ some g
    → prune_expired_versions tree label ≡ some (tree', n)
    → Pruned tree (size_of tree.latest) ts life g (tree.history label) tree'
unfolding prune_expired_versions prune_within prune_from
prune_expired_versions-Pruned tree tree' label n life ts g l z t e h =
    Pruned-prune_loop (size_of tree.latest) ts life g (tree.history label) tree tree' 0 n
      (rw (z, t, e) at (subst (λ o. prune_within tree label o ≡ some (tree', n)) l h))

-- Erasing a version that a label has drops the data at its position, and no other data.
pub erase_lem :
    (tree tree' : Tree) (label : Bytes) (version pos : ℕ)
    → position_of (tree.history label) version ≡ some pos
    → erase tree label version ≡ some tree'
    → Gone tree' pos × ((q : ℕ) → (pos == q) ≡ false → Kept tree tree' q)
unfolding erase
erase_lem tree tree' label version pos e h =
    subst (λ t. Gone t pos × ((q : ℕ) → (pos == q) ≡ false → Kept tree t q))
      (some_injective _ _ (rw e at h))
      (deleted 0 0 0 0 tree pos, λ q f. not_deleted 0 0 0 0 tree pos q f)
