-- ===== src/Auditor/Served.antt =====
-- What the server stores of an auditor, and which updates it serves.
use ru_kt.Common.{
  ℕ, zero, suc, ◌+◌, ◌-◌, ◌%◌, ◌≤◌, ◌<◌, ◌^◌, ◌≡◌, ◌⊎◌, refl, sym, ap, ◌∙◌, subst, arith, Bool,
  true, false, List, [], ◌∷◌, Option, none, some, ltb, leb, leb→le, ◌==◌, same_bytes,
  same_bytes_refl, bind_then, require_then, some_injective, Bool-cases, &&_true, inl, inr, length,
  get_elem?,
}
use ru_kt.Tls.{Bytes}
use ru_kt.Crypto.{PrivateConfig, construct_auditor_tree_head_tbs}
use ru_kt.Client.{AuditorTreeHead}
use ru_kt.Auditor.{AuditorUpdate}
use ru_kt.Auditor.Service.{
  as_i64, StoredHead, LogProofs, Auditors, head_of, read_updates, end_of, audit, not_rewound,
  find_auditor, consistency_for, set_auditor_head,
}

-- The new head of an auditor is not before the stored one.
pub NotBefore : Option StoredHead → AuditorTreeHead → Type 0
NotBefore none head = Unit
NotBefore (some existing) head =
    (existing.tree_size ≤ head.tree_size) × (as_i64 existing.timestamp ≤ as_i64 head.timestamp)

not_before :
    (o : Option StoredHead) (head : AuditorTreeHead) → not_rewound o head ≡ true → NotBefore o head
unfolding NotBefore
not_before none head h = _
not_before (some existing) head h =
    let (a, b) = &&_true (leb existing.tree_size head.tree_size) _ h in
    (
      leb→le existing.tree_size head.tree_size a,
      leb→le (as_i64 existing.timestamp) (as_i64 head.timestamp) b,
    )

pub IsAmong : Bytes → List Bytes → Type 0
IsAmong pk [] = ⊥
IsAmong pk (k ∷ keys) = (pk ≡ k) ⊎ IsAmong pk keys

module _ (verify : Bytes → Bytes → Bytes → Bool) (hex_encode : Bytes → Bytes)
    (config : PrivateConfig) (log : LogProofs) where
  -- An accepted head: signed by one of the auditors over the log's root at its size.
  pub record Accepted (current_size : ℕ) (keys : List Bytes) (auditors auditors' : Auditors)
      (head : AuditorTreeHead) : Type 0 where
    pub within : head.tree_size ≤ current_size
    pub root : Bytes
    pub has_root : log.get_root head.tree_size ≡ some root
    pub pk : Bytes
    pub among : IsAmong pk keys
    pub text : Bytes
    pub has_text :
        construct_auditor_tree_head_tbs config pk head.tree_size head.timestamp root ≡ some text
    pub signed : verify pk text head.signature ≡ true
    pub forward : NotBefore (head_of auditors (hex_encode pk)) head
    pub stored : StoredHead
    pub kept : head_of auditors' (hex_encode pk) ≡ some stored
    pub the_size : stored.tree_size ≡ head.tree_size
    pub the_time : stored.timestamp ≡ head.timestamp
    pub the_root : stored.root_value ≡ root
    pub others :
        (name : Bytes)
        → same_bytes (hex_encode pk) name ≡ false
        → head_of auditors' name ≡ head_of auditors name

  find_auditor_signed :
      (keys : List Bytes) (head : AuditorTreeHead) (root pk : Bytes)
      → find_auditor verify hex_encode config log keys head root ≡ some (some pk)
      → (text : Bytes) × (construct_auditor_tree_head_tbs config pk head.tree_size head.timestamp
            root
          ≡ some text)
        × (verify pk text head.signature ≡ true)
        × IsAmong pk keys
  unfolding find_auditor IsAmong
  find_auditor_signed [] head root pk h = absurd (cc h)
  find_auditor_signed (k ∷ keys) head root pk h =
      bind_then (construct_auditor_tree_head_tbs config k head.tree_size head.timestamp root) _ _ h
        (λ text e rest. elim (Bool-cases (verify k text head.signature)) [
          | inl v ↦
              let same = some_injective _ _ (some_injective _ _ (rw v at rest)) in
              (
                text,
                subst
                    (λ q.
                      construct_auditor_tree_head_tbs config q head.tree_size head.timestamp root
                      ≡ some text)
                    same e,
                subst (λ q. verify q text head.signature ≡ true) same v,
                inl (sym same),
              )
          | inr v ↦
              let (t, a, b, c) = find_auditor_signed keys head root pk (rw v at rest) in
              (t, a, b, inr c)
        ])

  -- The server takes an auditor's head only if it covers at most the log, one of the given auditors'
  -- keys verifies its signature on the log's root at its size, and neither its size nor its time, as an
  -- i64, is before those that the server has of this auditor. It then stands for this auditor, and the
  -- other auditors' heads stay.
  pub set_auditor_head-Accepted :
      (current_size : ℕ) (keys : List Bytes) (auditors auditors' : Auditors)
      (head : AuditorTreeHead)
      → set_auditor_head verify hex_encode config log current_size keys auditors head
        ≡ some auditors'
      → Accepted current_size keys auditors auditors' head
  unfolding set_auditor_head head_of
  set_auditor_head-Accepted current_size keys auditors auditors' head h =
      require_then (leb head.tree_size current_size) _ _ h (λ within h1.
        bind_then (log.get_root head.tree_size) _ _ h1 (λ root e h2.
          bind_then (find_auditor verify hex_encode config log keys head root) _ _ h2 (λ found f h3.
            bind_then found _ _ h3 (λ pk g h4.
              require_then (not_rewound (head_of auditors (hex_encode pk)) head) _ _ h4 (λ fw h5.
                bind_then (consistency_for verify hex_encode config log head.tree_size current_size)
                  _ _ h5
                  (λ proof i end.
                    let (text, t, v, m) = find_auditor_signed keys head root pk (f ∙ ap some g) in
                    subst (λ a. Accepted current_size keys auditors a head) (some_injective _ _ end)
                      (record {
                        within = leb→le head.tree_size current_size within;
                        root = root;
                        has_root = e;
                        pk = pk;
                        among = m;
                        text = text;
                        has_text = t;
                        signed = v;
                        forward = not_before (head_of auditors (hex_encode pk)) head fw;
                        stored = record {
                          tree_size = head.tree_size;
                          timestamp = head.timestamp;
                          signature = head.signature;
                          root_value = root;
                          consistency = proof;
                        };
                        kept = rw (same_bytes_refl (hex_encode pk)) refl;
                        the_size = refl;
                        the_time = refl;
                        the_root = refl;
                        others = λ name n. rw n refl;
                      })))))))

-- The updates of the log entries from a position on.
module _ (blob : ℕ → Option AuditorUpdate) where
  read_updates_lem :
      (n i : ℕ) (updates : List AuditorUpdate)
      → read_updates blob n i ≡ some updates
      → (length updates ≡ n) × ((k : ℕ) → k < n → get_elem? updates k ≡ blob (i + k))
  unfolding read_updates
  read_updates_lem zero i updates h =
      subst
        (λ (us : List AuditorUpdate).
          (length us ≡ 0) × ((k : ℕ) → k < 0 → get_elem? us k ≡ blob (i + k)))
        (some_injective [] updates h) (refl, λ k l. absurd (omega arith))
  read_updates_lem (suc n) i updates h = bind_then (blob i) _ _ h (λ u e rest.
      bind_then (read_updates blob n (suc i)) _ _ rest (λ us f end.
        let (size, each) = read_updates_lem n (suc i) us f in
        subst
          (λ (xs : List AuditorUpdate).
            (length xs ≡ suc n) × ((k : ℕ) → k < suc n → get_elem? xs k ≡ blob (i + k)))
          (some_injective _ _ end) (ap suc size, at u us e each)))
    where
      at :
          (u : AuditorUpdate) (us : List AuditorUpdate)
          → blob i ≡ some u
          → ((k : ℕ) → k < n → get_elem? us k ≡ blob (suc i + k))
          → (k : ℕ) → k < suc n
          → get_elem? (u ∷ us) k ≡ blob (i + k)
      at u us e each zero l = sym e ∙ ap blob (omega arith)
      at u us e each (suc k) l = each k (omega arith) ∙ ap blob (omega arith)

  record End (current_size start limit e : ℕ) : Type 0 where
    from : start ≤ e
    in_log : e ≤ current_size
    asked : e ≤ start + limit
    short : e < start + limit → e ≡ current_size

  end_of-End :
      (current_size start limit : ℕ)
      → start + limit < 2 ^ 64
      → start < current_size
      → End current_size start limit (end_of start limit current_size)
  end_of-End current_size start limit w l =
      let wrapped : (start + limit) % 2 ^ 64 ≡ start + limit = omega arith in
      rw wrapped (elim (Bool-cases (ltb current_size (start + limit))) [
        | inl h ↦
            let cut : current_size < start + limit = ground arith in
            rw h (record {
              from = omega arith;
              in_log = omega arith;
              asked = omega arith;
              short = λ s. refl;
            })
        | inr h ↦
            let all : start + limit ≤ current_size = ground arith in
            rw h (record {
              from = omega arith;
              in_log = all;
              asked = omega arith;
              short = λ s. absurd (omega arith);
            })
      ])

  -- A page of the audit, from a start in the log and without an overflow of the end: it has the updates
  -- of the entries in order, as many as asked for or as there are, and tells whether any are left.
  pub audit_lem :
      (current_size start limit : ℕ) (updates : List AuditorUpdate) (more : Bool)
      → start + limit < 2 ^ 64
      → start < current_size
      → audit blob current_size start limit ≡ some (updates, more)
      → ((k : ℕ) → k < length updates → get_elem? updates k ≡ blob (start + k))
        × (length updates ≤ limit)
        × (start + length updates ≤ current_size)
        × (more ≡ ltb (start + length updates) current_size)
        × (length updates < limit → start + length updates ≡ current_size)
  unfolding audit
  audit_lem current_size start limit updates more w l h =
      let past : ltb current_size start ≡ false = ground arith in
      let at_end : (start == current_size) ≡ false = ground arith in
      let e = end_of start limit current_size in
      let bounds = end_of-End current_size start limit w l in
      bind_then (read_updates blob (e - start) start) _ _ (rw (past, at_end) at h) (λ us f end.
        let same = some_injective _ _ end in
        let (size, each) = read_updates_lem (e - start) start us f in
        let same_us = ap (λ (r : List AuditorUpdate × Bool). r.0) same in
        let size' : length updates ≡ e - start = ap length (sym same_us) ∙ size in
        let sum : start + length updates ≡ e = omega (arith, bounds.from) in
        (
          λ k b.
              subst (λ (xs : List AuditorUpdate). get_elem? xs k ≡ blob (start + k)) same_us
                (each k (omega (arith, size'))),
          omega (arith, bounds.asked, bounds.from),
          omega (arith, bounds.in_log),
          sym (ap (λ (r : List AuditorUpdate × Bool). r.1) same)
              ∙ ap (λ n. ltb n current_size) (sym sum),
          λ s. sum ∙ bounds.short (omega (arith, bounds.from)),
        ))
