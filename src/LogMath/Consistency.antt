-- ===== src/LogMath/Consistency.antt =====
-- Of src/tree/log_math.rs, the nodes of a consistency proof, those to the right of a node on its path,
-- and the chunks of fifteen nodes in which the log is stored.
use ru_kt.Common.{
  ℕ, zero, suc, ◌+◌, ◌-◌, ◌*◌, ◌/◌, ◌%◌, ◌^◌, Bool, true, false, ◌||◌, List, [], ◌∷◌, ◌++◌, map,
  Option, none, some, bit_xor, ltb, leb, ◌==◌, if◌then◌else◌, ◌>>=◌,
}
use ru_kt.LogMath.{shl, shr, level, log2, root, left_child, right_child, direct_path}

-- `k` of `sub_proof`: the greatest power of two below n, for n above 1.
abbrev pub split_point : ℕ → ℕ
split_point n = let k = shl 1 (log2 n) in if k == n then k / 2 else k

-- `n` shrinks in each round, and its first value is the fuel; `none` is the panic of `right_child`.
unfoldable pub sub_proof : ℕ → ℕ → ℕ → Bool → Option (List ℕ)
sub_proof zero m n b = none
sub_proof (suc f) m n b =
    let k = split_point n in
    let left = sub_proof f m k b in
    let right = sub_proof f (m - k) (n - k) false in
    if m == n
    then some (if b then [] else root m ∷ [])
    else if leb m k
    then (do proof ← left; r ← right_child (root n) n; some (proof ++ (r ∷ [])))
    else (do
      proof ← right
      some (left_child (root n) ∷ map (λ node. (node + 2 * k) % 2 ^ 64) proof))

unfoldable pub consistency_proof : ℕ → ℕ → Option (List ℕ)
consistency_proof m n = if m == 0 || leb n m then some [] else sub_proof n m n true

-- `path.sort()`
unfoldable pub insert_sorted : ℕ → List ℕ → List ℕ
insert_sorted p [] = p ∷ []
insert_sorted p (q ∷ path) =
    let rest = insert_sorted p path in if leb p q then p ∷ q ∷ path else q ∷ rest

unfoldable pub sorted_above : ℕ → List ℕ → List ℕ
sorted_above node_id [] = []
sorted_above node_id (p ∷ parents) =
    let path = sorted_above node_id parents in if ltb node_id p then insert_sorted p path else path

unfoldable pub full_monitoring_path : ℕ → ℕ → List ℕ
full_monitoring_path node_id tree_size = sorted_above node_id (direct_path node_id tree_size)

-- The loop of `chunk_id`, which goes to the parent.
unfoldable pub chunk_id_loop : ℕ → ℕ → ℕ
chunk_id_loop zero c = c
chunk_id_loop (suc f) c =
    let l = level c in
    let offset = shl 1 l in
    let rest = chunk_id_loop f (if shr c (l + 1) % 2 == 1 then c - offset else c + offset) in
    if l % 4 == 3 || leb 62 l then c else rest

unfoldable pub chunk_id : ℕ → ℕ
chunk_id node_id = chunk_id_loop 64 node_id

abbrev pub internal_left : ℕ → ℕ
internal_left x = bit_xor x (shl 1 (level x - 1))

abbrev pub internal_right : ℕ → ℕ
internal_right x = bit_xor x (shl 3 (level x - 1))

-- The ids of a chunk in their order; a chunk's root has level 3 or more.
unfoldable pub chunk_layout : ℕ → List ℕ
chunk_layout chunk_root =
    let id3 = internal_left chunk_root in
    let id11 = internal_right chunk_root in
    let id1 = internal_left id3 in
    let id5 = internal_right id3 in
    let id9 = internal_left id11 in
    let id13 = internal_right id11 in
    internal_left id1
    ∷ id1
    ∷ internal_right id1
    ∷ id3
    ∷ internal_left id5
    ∷ id5
    ∷ internal_right id5
    ∷ chunk_root
    ∷ internal_left id9
    ∷ id9
    ∷ internal_right id9
    ∷ id11
    ∷ internal_left id13
    ∷ id13
    ∷ internal_right id13
    ∷ []
