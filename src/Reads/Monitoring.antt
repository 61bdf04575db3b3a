-- ===== src/Reads/Monitoring.antt =====
-- The entries that a monitoring request may name, and what an answered request satisfies.
use ru_kt.Common.{
  ℕ, ◌<◌, ◌≡◌, ◌↔◌, refl, sym, ap, ◌∙◌, subst, arith, true, List, [], ◌∷◌, Option, none, some, ltb,
  bind_then, require_then, ltb→lt, some_injective,
}
use ru_kt.Server.{greatest}
use ru_kt.Client.{FullTreeHead}
use ru_kt.Reads.{Tree, size_of, or_zero, get_full_tree_head}
use ru_kt.Reads.Requests.{
  MonitorMapEntry, OwnerMonitorRequest, Traversals, monitored_tree_size, validate_loop,
  validate_monitor_entries, claimed_exists, owner_monitor,
}

-- Positions that rise from one entry to the next, all below a size.
pub Ascending : Option ℕ → List MonitorMapEntry → ℕ → Type 0
Ascending prev [] size = Unit
Ascending none (entry ∷ entries) size =
    (entry.position < size) × Ascending (some entry.position) entries size
Ascending (some p) (entry ∷ entries) size =
    (entry.position < size) × (p < entry.position) × Ascending (some entry.position) entries size

validated :
    (prev : Option ℕ) (entries : List MonitorMapEntry) (size : ℕ)
    → (validate_loop prev entries size ≡ some _) ↔ Ascending prev entries size
unfolding validate_loop Ascending
validated prev [] size = (λ h. _, λ h. refl)
validated none (entry ∷ entries) size = ground (arith, validated (some entry.position) entries size)
validated (some p) (entry ∷ entries) size =
    ground (arith, validated (some entry.position) entries size)

-- The entries of a request are accepted exactly if each position is in the tree and after the one
-- before it.
pub validate_monitor_entries_iff :
    (entries : List MonitorMapEntry) (size : ℕ)
    → (validate_monitor_entries entries size ≡ some _) ↔ Ascending none entries size
unfolding validate_monitor_entries
validate_monitor_entries_iff entries size = validated none entries size

-- What an answered request of an owner satisfies.
pub record Answered {Proof Ladder : Type 0} (traversals : Traversals Proof Ladder) (tree : Tree)
    (req : OwnerMonitorRequest) (head : FullTreeHead) (proof : Proof) (ladder : Ladder)
    : Type 0 where
  pub some_entry : 0 < size_of tree.latest
  pub ascending : Ascending none req.entries (size_of tree.latest)
  pub started : req.start < size_of tree.latest
  pub claimed : claimed_exists req.greatest_version (greatest (tree.history req.label)) ≡ true
  pub the_head : head ≡ get_full_tree_head tree req.last
  pub the_proof :
      traversals.traverse_owner_monitor
        (size_of tree.latest)
        req.label
        req.entries
        req.start
        (or_zero req.last)
      ≡ some (proof, ladder)

module _ {Proof Ladder : Type 0} (traversals : Traversals Proof Ladder) (tree : Tree) where
  monitored :
      (s : ℕ)
      → monitored_tree_size tree ≡ some s
      → (0 < size_of tree.latest) × (s ≡ size_of tree.latest)
  unfolding monitored_tree_size
  monitored s e =
      require_then (ltb 0 (size_of tree.latest)) _ _ e
        (λ pos f. (ltb→lt 0 (size_of tree.latest) pos, sym (some_injective _ _ f)))

  -- An owner's monitoring request is answered only on a tree with entries, for map entries that rise
  -- within the tree, from a start within the tree, and when the version that it claims to be the
  -- greatest is not above the label's actual one. The answer has the head for the client's size and
  -- the proof of the traversal.
  pub owner_monitor-Answered :
      (req : OwnerMonitorRequest) (head : FullTreeHead) (proof : Proof) (ladder : Ladder)
      → owner_monitor traversals tree req ≡ some (head, proof, ladder)
      → Answered traversals tree req head proof ladder
  unfolding owner_monitor
  owner_monitor-Answered req head proof ladder h =
      bind_then (monitored_tree_size tree) _ _ h (λ s e rest.
        let (pos, same) = monitored s e in
        bind_then (validate_monitor_entries req.entries s) _ _ rest (λ u valid rest1.
          require_then (ltb req.start s) _ _ rest1 (λ begun rest2.
            require_then (claimed_exists req.greatest_version (greatest (tree.history req.label))) _
              _ rest2
              (λ claim rest3.
                bind_then
                  (traversals.traverse_owner_monitor s req.label req.entries req.start
                    (or_zero req.last))
                  _ _ rest3
                  (λ r found end.
                    let ended = some_injective _ _ end in
                    record {
                      some_entry = pos;
                      ascending =
                          subst (Ascending none req.entries) same
                            ((validate_monitor_entries_iff req.entries s).0 valid);
                      started = subst (λ n. req.start < n) same (ltb→lt req.start s begun);
                      claimed = claim;
                      the_head = sym (ap (λ (x : FullTreeHead × Proof × Ladder). x.0) ended);
                      the_proof =
                          subst
                            (λ n.
                              traversals.traverse_owner_monitor n req.label req.entries req.start
                                (or_zero req.last)
                              ≡ some (proof, ladder))
                            same
                            (found
                              ∙ ap some
                                  (ap (λ (x : FullTreeHead × Proof × Ladder). (x.1, x.2)) ended));
                    })))))
