-- ===== src/Reads/Heads.antt =====
-- The head that the server sends, and the client that receives it.
use ru_kt.Common.{
  ℕ, ◌≤◌, ◌<◌, ◌≡◌, refl, ap, ◌∙◌, arith, inl, inr, Bool, true, false, Option, none, some, ltb,
  order, ◌==◌,
}
use ru_kt.Crypto.{PublicConfig}
use ru_kt.Client.{
  TreeHead, TrustedState, FullTreeHead, KtClient, check_timestamp_bounds, advances,
  tree_size_for_fth,
}
use ru_kt.Reads.{Tree, size_of, or_zero, get_full_tree_head}

-- The size that the client says to have.
pub last_of : Option TrustedState → Option ℕ
last_of none = none
last_of (some prev) = some prev.tree_size

-- The client's state is not ahead of a size, and its timestamp can be used again.
unfoldable pub Behind : PublicConfig → ℕ → Option TrustedState → ℕ → Type 0
Behind config now none size = Unit
Behind config now (some prev) size =
    (prev.tree_size ≤ size) × (check_timestamp_bounds config now prev.timestamp ≡ true)

module _ (config : PublicConfig) (now : ℕ) (tree : Tree) (th : TreeHead) where
  same_head : FullTreeHead
  same_head = record { head_type = 1; tree_head = none; auditor_tree_head = none }

  is_same :
      (last : Option ℕ)
      → tree.latest ≡ some th
      → 0 < th.tree_size
      → or_zero last ≡ th.tree_size
      → get_full_tree_head tree last ≡ same_head
  unfolding get_full_tree_head same_head
  is_same last l p e =
      let size : size_of tree.latest ≡ th.tree_size = ap size_of l in
      let one : (or_zero last == size_of tree.latest) ≡ true = ground arith in
      let two : ltb 0 (size_of tree.latest) ≡ true = ground arith in rw (one, two) refl

  is_updated :
      (last : Option ℕ)
      → tree.latest ≡ some th
      → (or_zero last ≡ th.tree_size → ⊥)
      → ((get_full_tree_head tree last).head_type ≡ 2)
        × ((get_full_tree_head tree last).tree_head ≡ some th)
  unfolding get_full_tree_head
  is_updated last l n =
      let size : size_of tree.latest ≡ th.tree_size = ap size_of l in
      let one : (or_zero last == size_of tree.latest) ≡ false = ground arith in rw one (refl, l)

  -- The client's answer to each kind of head.
  on_same :
      (client : KtClient) (prev : TrustedState)
      → client.state ≡ some prev
      → check_timestamp_bounds config now prev.timestamp ≡ true
      → tree_size_for_fth config now client same_head
        ≡ some (prev.tree_size, some prev.timestamp, false)
  unfolding tree_size_for_fth same_head
  on_same client prev e ok = rw (e, ok) refl

  on_updated :
      (client : KtClient) (fth : FullTreeHead)
      → fth.head_type ≡ 2
      → fth.tree_head ≡ some th
      → advances client.state th.tree_size ≡ true
      → tree_size_for_fth config now client fth ≡ some (th.tree_size, some th.timestamp, true)
  unfolding tree_size_for_fth
  on_updated client fth k t a = rw (k, t, a) refl

  -- A client that asks with the size of its state gets from the server a head that it takes for the
  -- log's current size: the same head if nothing was appended, and else an updated one, as long as the
  -- client's size is not ahead of the log and its timestamp, where it has one, is within the bounds.
  pub tree_size_for_fth-get_full_tree_head :
      (state : Option TrustedState) (client : KtClient)
      → client.state ≡ state
      → tree.latest ≡ some th
      → 0 < th.tree_size
      → Behind config now state th.tree_size
      → (ts : Option ℕ) × (updated : Bool) × (tree_size_for_fth config now client
            (get_full_tree_head tree (last_of state))
          ≡ some (th.tree_size, ts, updated))
  unfolding last_of Behind
  tree_size_for_fth-get_full_tree_head none client e l p b =
      let (k, t) = is_updated none l (λ z. omega arith) in
      (some th.timestamp, true, on_updated client _ k t (ap (λ s. advances s th.tree_size) e))
  tree_size_for_fth-get_full_tree_head (some prev) client e l p (le, ok) =
      elim (order prev.tree_size th.tree_size) [
        | inl less ↦
            let (k, t) = is_updated (some prev.tree_size) l (λ z. omega arith) in
            let adv : ltb prev.tree_size th.tree_size ≡ true = ground arith in
            (
              some th.timestamp,
              true,
              on_updated client _ k t (ap (λ s. advances s th.tree_size) e ∙ adv),
            )
        | inr (inl same) ↦ (
          some prev.timestamp,
          false,
          ap (tree_size_for_fth config now client) (is_same (some prev.tree_size) l p same)
              ∙ (on_same client prev e ok ∙ ap (λ n. some (n, some prev.timestamp, false)) same),
        )
        | inr (inr ahead) ↦ absurd (omega arith)
      ]
