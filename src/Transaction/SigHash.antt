-- ===== src/Transaction/SigHash.antt =====
-- Transaction::getSigHash with its cache: the three hashes that it keeps between calls.
use m_signa.Prelude.{
  ℕ, ◌+◌, List, [], ◌∷◌, ◌++◌, false, ◌==◌, if◌then◌else◌, length, get_elem?, Option, none, some,
}
use m_signa.Result.{Result, ok, err, guard, ◌>>◌}
use m_signa.Bytes.{Bytes, little_endian, uint_to_vch}
use m_signa.Bytes.Loop.{flat}
use m_signa.VarInt.{put_var_int}
use m_signa.Transaction.Defs.{TxIn, Transaction, put_out_point, put_tx_out, is_some_witness, put_tx}

pub data SigError : Type 0 where
  index_out_of_range unsupported_hash_type : SigError

-- hashPrevouts, hashSequence and hashOutputs; empty until they are computed.
pub record Cache : Type 0 where
  pub hash_prevouts : Bytes
  pub hash_sequence : Bytes
  pub hash_outputs : Bytes

-- Transaction::resetSigHash
abbrev pub reset_sig_hash : Cache
reset_sig_hash = record { hash_prevouts = []; hash_sequence = []; hash_outputs = [] }

abbrev pub sighash_all : ℕ
sighash_all = 1

-- The inputs of the copy that the old digest hashes, from input `i` on.
unfoldable pub signed_inputs : ℕ → ℕ → Bytes → List TxIn → List TxIn
signed_inputs i index script [] = []
signed_inputs i index script (x ∷ xs) =
    record x { script_sig = if index == i then script else [] }
    ∷ signed_inputs (i + 1) index script xs

-- `if (hash.empty()) { hash = sha256_2(ss); }`
abbrev pub fill : Bytes → Bytes → Bytes
fill [] fresh = fresh
fill (b ∷ bs) fresh = b ∷ bs

unfoldable pub prevouts : Transaction → Bytes
unfolding flat put_out_point
prevouts tx = flat (λ i. put_out_point i.previous_out) tx.inputs

unfoldable pub sequences : Transaction → Bytes
unfolding flat
sequences tx = flat (λ i. uint_to_vch 4 i.sequence little_endian) tx.inputs

unfoldable pub all_outputs : Transaction → Bytes
unfolding flat put_tx_out
all_outputs tx = flat put_tx_out tx.outputs

-- The bytes that the witness digest hashes.
unfoldable pub witness_preimage : Cache → Transaction → ℕ → TxIn → Bytes → ℕ → Bytes
unfolding put_out_point
witness_preimage c tx hash_type input script value =
    uint_to_vch 4 tx.version little_endian
    ++ (c.hash_prevouts
        ++ (c.hash_sequence
            ++ (put_out_point input.previous_out
                ++ (put_var_int (length script)
                    ++ (script
                        ++ (uint_to_vch 8 value little_endian
                            ++ (uint_to_vch 4 input.sequence little_endian
                                ++ (c.hash_outputs
                                    ++ (uint_to_vch 4 tx.lock_time little_endian
                                        ++ uint_to_vch 4 hash_type little_endian)))))))))

module _ (sha256_2 : Bytes → Bytes) where
  abbrev pub filled : Cache → Transaction → Cache
  filled c tx = record {
    hash_prevouts = fill c.hash_prevouts (sha256_2 (prevouts tx));
    hash_sequence = fill c.hash_sequence (sha256_2 (sequences tx));
    hash_outputs = fill c.hash_outputs (sha256_2 (all_outputs tx));
  }

  -- The two digests, for an input that exists.
  unfoldable pub digest : Cache → Transaction → ℕ → ℕ → TxIn → Bytes → ℕ → Bytes × Cache
  digest c tx hash_type index input script value =
      if is_some_witness input.script_witness
      then (sha256_2 (witness_preimage (filled c tx) tx hash_type input script value), filled c tx)
      else (
        sha256_2 (
            put_tx false (record tx { inputs = signed_inputs 0 index script tx.inputs })
            ++ uint_to_vch 4 hash_type little_endian),
        c,
      )

  -- After the bounds check.
  unfoldable pub sign_input :
      Cache → Transaction → ℕ → ℕ → Bytes → ℕ → Option TxIn → Result SigError (Bytes × Cache)
  sign_input c tx hash_type index script value none = err index_out_of_range
  sign_input c tx hash_type index script value (some input) = do
    guard (hash_type == sighash_all) unsupported_hash_type
    ok (digest c tx hash_type index input script value)

  -- Transaction::getSigHash
  unfoldable pub get_sig_hash :
      Cache → Transaction → ℕ → ℕ → Bytes → ℕ → Result SigError (Bytes × Cache)
  unfolding sign_input
  get_sig_hash c tx hash_type index script value =
      sign_input c tx hash_type index script value (get_elem? tx.inputs index)
