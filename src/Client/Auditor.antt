-- ===== src/Client/Auditor.antt =====
-- What an accepted auditor tree head assures.
use ru_kt.Common.{
  &&_true, bind_then, require_then, ℕ, ◌+◌, ◌-◌, ◌≤◌, ◌≡◌, sym, ap, arith, Bool, true, Option, none,
  some, leb,
}
use ru_kt.Tls.{Bytes}
use ru_kt.Crypto.{PublicConfig, construct_auditor_tree_head_tbs_public}
use ru_kt.Merkle.{Values}
use ru_kt.Client.{
  TreeHead, AuditorTreeHead, FullTreeHead, KtClient, auditor_continues, auditor_in_bounds,
  auditor_root, verify_auditor_tree_head,
}

module _ (hash : Bytes → Bytes) (verify : Bytes → Bytes → Bytes → Bool)
    (config : PublicConfig) where
  -- An auditor's head that fits the log's head.
  pub record Audited (client : KtClient) (fth : FullTreeHead) (th : TreeHead) (size : ℕ)
      (root : Bytes) (captured : Values) (audited_size audited_time : ℕ) : Type 0 where
    pub ath : AuditorTreeHead
    pub has_ath : fth.auditor_tree_head ≡ some ath
    pub the_size : audited_size ≡ ath.tree_size
    pub the_time : audited_time ≡ ath.timestamp
    pub continues : auditor_continues client.auditor_head config.auditor_start_pos ≡ true
    pub not_ahead : ath.timestamp ≤ th.timestamp
    pub lag : th.timestamp ≤ ath.timestamp + config.max_auditor_lag
    pub within : ath.tree_size ≤ th.tree_size
    pub past_root : Bytes
    pub derived : auditor_root hash verify config ath size root captured ≡ some past_root
    pub text : Bytes
    pub has_text :
        construct_auditor_tree_head_tbs_public config ath.tree_size ath.timestamp past_root
        ≡ some text
    pub key : Bytes
    pub has_key : config.auditor_public_key ≡ some key
    pub signed : verify key text ath.signature ≡ true

  -- The client takes over an auditor's head only if an earlier one is not from before the auditor's
  -- start, its time is at most the permitted lag before the log's head and not after it, it covers at
  -- most the log's tree, and the configured auditor signed the root that the proof derives at its size.
  pub verify_auditor_tree_head-Audited :
      (client : KtClient) (fth : FullTreeHead) (th : TreeHead) (size : ℕ) (root : Bytes)
      (captured : Values) (audited_size audited_time : ℕ)
      → verify_auditor_tree_head hash verify config client fth th size root captured
        ≡ some (audited_size, audited_time)
      → Audited client fth th size root captured audited_size audited_time
  unfolding verify_auditor_tree_head auditor_in_bounds
  verify_auditor_tree_head-Audited client fth th size root captured s t h =
      bind_then fth.auditor_tree_head _ _ h (λ ath had rest.
        require_then (auditor_in_bounds hash verify config client th ath) _ _ rest (λ bounds rest'.
          bind_then (auditor_root hash verify config ath size root captured) _ _ rest'
            (λ past derived rest''.
              bind_then
                (construct_auditor_tree_head_tbs_public config ath.tree_size ath.timestamp past) _ _
                rest''
                (λ text has_text more.
                  bind_then config.auditor_public_key _ _ more (λ key has_key end.
                    require_then (verify key text ath.signature) _ _ end (λ signed e.
                      let (continues, b1) = &&_true _ _ bounds in
                      let (b2, b3) = &&_true (leb ath.timestamp th.timestamp) _ b1 in
                      let (b4, b5) =
                        &&_true (leb (th.timestamp - ath.timestamp) config.max_auditor_lag) _ b3 in
                      let le : ath.timestamp ≤ th.timestamp = ground arith in
                      record {
                        ath = ath;
                        has_ath = had;
                        the_size = sym (ap size_of e);
                        the_time = sym (ap time_of e);
                        continues = continues;
                        not_ahead = le;
                        lag =
                            let d : th.timestamp - ath.timestamp ≤ config.max_auditor_lag =
                              ground arith in
                            omega arith;
                        within = ground arith;
                        past_root = past;
                        derived = derived;
                        text = text;
                        has_text = has_text;
                        key = key;
                        has_key = has_key;
                        signed = signed;
                      }))))))
    where
      size_of : Option (ℕ × ℕ) → ℕ
      size_of none = s
      size_of (some p) = p.0

      time_of : Option (ℕ × ℕ) → ℕ
      time_of none = t
      time_of (some p) = p.1
