-- ===== src/Transaction/Digest.antt =====
-- The cache of `getSigHash`: when it belongs to the transaction, and when it does not.
use m_signa.Prelude.{
  ℕ, ◌≡◌, ◌≢◌, ◌⊎◌, inl, inr, refl, sym, ap, ◌∙◌, List, [], ◌∷◌, Bool, true, false, ◌==◌, Option,
  none, some, get_elem?, Bool-cases,
}
use m_signa.Result.{ok, map_ok, guard, ◌>>◌, >>=-eq-ok, ok-injective}
use mathlib.Core.Path.{subst}
use m_signa.Bytes.{Bytes}
use m_signa.Transaction.Defs.{TxIn, TxOut, Transaction, is_some_witness}
use m_signa.Transaction.SigHash.{
  Cache, SigError, unsupported_hash_type, sign_input, reset_sig_hash, sighash_all, fill, prevouts,
  sequences, all_outputs, filled, digest, get_sig_hash, witness_preimage,
}

module _ (sha256_2 : Bytes → Bytes) where
  -- Each hash is missing or that of the transaction as it is.
  pub record IsCurrent (c : Cache) (tx : Transaction) : Type 0 where
    pub prevouts_current : (c.hash_prevouts ≡ []) ⊎ (c.hash_prevouts ≡ sha256_2 (prevouts tx))
    pub sequence_current : (c.hash_sequence ≡ []) ⊎ (c.hash_sequence ≡ sha256_2 (sequences tx))
    pub outputs_current : (c.hash_outputs ≡ []) ⊎ (c.hash_outputs ≡ sha256_2 (all_outputs tx))

  fill-eq : (h fresh : Bytes) → (h ≡ []) ⊎ (h ≡ fresh) → fill h fresh ≡ fresh
  fill-eq [] fresh e = refl
  fill-eq (b ∷ bs) fresh (inl e) = cc
  fill-eq (b ∷ bs) fresh (inr e) = e

  filled-current :
      (c : Cache) (tx : Transaction)
      → IsCurrent c tx
      → filled sha256_2 c tx ≡ filled sha256_2 reset_sig_hash tx
  filled-current c tx v = λ i. record {
    hash_prevouts = fill-eq c.hash_prevouts _ v.prevouts_current i;
    hash_sequence = fill-eq c.hash_sequence _ v.sequence_current i;
    hash_outputs = fill-eq c.hash_outputs _ v.outputs_current i;
  }

  IsCurrent-reset : (tx : Transaction) → IsCurrent reset_sig_hash tx
  IsCurrent-reset tx = record {
    prevouts_current = inl refl;
    sequence_current = inl refl;
    outputs_current = inl refl;
  }

  digest-cache :
      (c : Cache) (tx : Transaction) (hash_type index : ℕ) (input : TxIn) (script : Bytes)
      (value : ℕ)
      → IsCurrent c tx
      → ((digest sha256_2 c tx hash_type index input script value).0
          ≡ (digest sha256_2 reset_sig_hash tx hash_type index input script value).0)
        × IsCurrent (digest sha256_2 c tx hash_type index input script value).1 tx
  digest-cache c tx hash_type index input script value v =
      elim (Bool-cases (is_some_witness input.script_witness)) [
        | inl e ↦
            unfold digest in
            rw e (
              ap (λ (k : Cache). sha256_2 (witness_preimage k tx hash_type input script value))
                  (filled-current c tx v),
              record {
                prevouts_current = inr (fill-eq c.hash_prevouts _ v.prevouts_current);
                sequence_current = inr (fill-eq c.hash_sequence _ v.sequence_current);
                outputs_current = inr (fill-eq c.hash_outputs _ v.outputs_current);
              },
            )
        | inr e ↦ unfold digest in rw e (refl, v)
      ]

  guarded :
      (g : Bool) (e : SigError) (a b : Bytes × Cache)
      → a.0 ≡ b.0
      → map_ok (λ (r : Bytes × Cache). r.0) (guard g e >> ok a)
        ≡ map_ok (λ r. r.0) (guard g e >> ok b)
  guarded true e a b p = ap ok p
  guarded false e a b p = refl

  sign_input-cache :
      (c : Cache) (tx : Transaction) (hash_type index : ℕ) (script : Bytes) (value : ℕ)
      (o : Option TxIn)
      → IsCurrent c tx
      → map_ok (λ r. r.0) (sign_input sha256_2 c tx hash_type index script value o)
        ≡ map_ok (λ r. r.0) (sign_input sha256_2 reset_sig_hash tx hash_type index script value o)
  unfolding sign_input
  sign_input-cache c tx hash_type index script value none v = refl
  sign_input-cache c tx hash_type index script value (some input) v =
      guarded (hash_type == sighash_all) unsupported_hash_type _ _
        (digest-cache c tx hash_type index input script value v).0

  -- As long as the cached hashes are missing or those of the transaction as it is, the cache
  -- changes nothing: the digest, or the error, is the one that an empty cache gives.
  pub get_sig_hash-cache :
      (c : Cache) (tx : Transaction) (hash_type index : ℕ) (script : Bytes) (value : ℕ)
      → IsCurrent c tx
      → map_ok (λ r. r.0) (get_sig_hash sha256_2 c tx hash_type index script value)
        ≡ map_ok (λ r. r.0) (get_sig_hash sha256_2 reset_sig_hash tx hash_type index script value)
  get_sig_hash-cache c tx hash_type index script value v =
      unfold get_sig_hash in
      sign_input-cache c tx hash_type index script value (get_elem? tx.inputs index) v

  sign_input-IsCurrent :
      (c c' : Cache) (tx : Transaction) (hash_type index : ℕ) (script : Bytes) (value : ℕ)
      (h : Bytes) (o : Option TxIn)
      → IsCurrent c tx
      → sign_input sha256_2 c tx hash_type index script value o ≡ ok (h, c')
      → IsCurrent c' tx
  unfolding sign_input
  sign_input-IsCurrent c c' tx hash_type index script value h none v e = cc
  sign_input-IsCurrent c c' tx hash_type index script value h (some input) v e =
      let (_, _, e') = >>=-eq-ok (guard (hash_type == sighash_all) unsupported_hash_type) _ e in
      subst (λ (k : Cache). IsCurrent k tx) (ap (λ (r : Bytes × Cache). r.1) (ok-injective e'))
        (digest-cache c tx hash_type index input script value v).1

  -- Of such a cache a successful call leaves such a cache.
  pub get_sig_hash-IsCurrent :
      (c c' : Cache) (tx : Transaction) (hash_type index : ℕ) (script : Bytes) (value : ℕ)
      (h : Bytes)
      → IsCurrent c tx
      → get_sig_hash sha256_2 c tx hash_type index script value ≡ ok (h, c')
      → IsCurrent c' tx
  get_sig_hash-IsCurrent c c' tx hash_type index script value h v e =
      sign_input-IsCurrent c c' tx hash_type index script value h (get_elem? tx.inputs index) v
        (unfold get_sig_hash in e)

  fill_twice : (h x y : Bytes) → x ≢ [] → fill (fill h x) y ≡ fill h x
  fill_twice [] [] y n = absurd (n refl)
  fill_twice [] (b ∷ bs) y n = refl
  fill_twice (b ∷ bs) x y n = refl

  -- Once the three hashes are there, no transaction changes them.
  filled_twice :
      (c : Cache) (tx other : Transaction)
      → ((bs : Bytes) → sha256_2 bs ≢ [])
      → filled sha256_2 (filled sha256_2 c tx) other ≡ filled sha256_2 c tx
  filled_twice c tx other n = λ i. record {
    hash_prevouts =
        fill_twice c.hash_prevouts (sha256_2 (prevouts tx)) (sha256_2 (prevouts other))
          (n (prevouts tx)) i;
    hash_sequence =
        fill_twice c.hash_sequence (sha256_2 (sequences tx)) (sha256_2 (sequences other))
          (n (sequences tx)) i;
    hash_outputs =
        fill_twice c.hash_outputs (sha256_2 (all_outputs tx)) (sha256_2 (all_outputs other))
          (n (all_outputs tx)) i;
  }

  -- After a successful call for a witness input, the same call returns the same digest, and leaves the
  -- same cache, once the outputs of the transaction were replaced by any others. No hash is empty here.
  pub get_sig_hash_stale :
      (c kept : Cache) (tx : Transaction) (outputs : List TxOut) (input : TxIn)
      (hash_type index : ℕ) (script : Bytes) (value : ℕ) (hash : Bytes)
      → get_elem? tx.inputs index ≡ some input
      → is_some_witness input.script_witness ≡ true
      → ((bs : Bytes) → sha256_2 bs ≢ [])
      → get_sig_hash sha256_2 c tx hash_type index script value ≡ ok (hash, kept)
      → get_sig_hash sha256_2 kept (record tx { outputs = outputs }) hash_type index script value
        ≡ ok (hash, kept)
  unfolding get_sig_hash sign_input digest witness_preimage
  get_sig_hash_stale c kept tx outputs input hash_type index script value hash e w some_hash first =
      let first' = rw (e, w) at first in
      let (u, g, done) =
        >>=-eq-ok (guard (hash_type == sighash_all) unsupported_hash_type) _ first' in
      let result = ok-injective done in
      let same : filled sha256_2 kept (record tx { outputs = outputs }) ≡ filled sha256_2 c tx =
        ap (λ (k : Cache). filled sha256_2 k (record tx { outputs = outputs }))
          (sym (ap (λ (r : Bytes × Cache). r.1) result))
        ∙ filled_twice c tx (record tx { outputs = outputs }) some_hash in
      rw (e, w, g)
        (ap (λ (k : Cache). ok (sha256_2 (witness_preimage k tx hash_type input script value), k))
            same
          ∙ ap ok result)
