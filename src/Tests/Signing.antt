-- ===== src/Tests/Signing.antt =====
-- A transaction with a witness: its bytes, its sizes and its digests under a toy hash.
use m_signa.Prelude.{
  ◌+◌, ◌/◌, ◌^◌, ◌<◌, ◌≡◌, ◌≢◌, refl, [], ◌∷◌, ◌++◌, true, false, length, replicate, inl, inr,
  arith,
}
use m_signa.Result.{ok, err, map_ok}
use m_signa.Bytes.{Bytes, uint_to_vch, low_bytes}
use m_signa.Bytes.Loop.{flat}
use m_signa.VarInt.{put_var_int}
use m_signa.Transaction.{
  TxIn, TxOut, Transaction, put_tx, get_tx, tx_size, tx_v_size, put_witness, put_tx_in, put_tx_out,
  put_out_point, put_item,
}
use m_signa.Transaction.Parts.{IsTxIn}
use m_signa.Transaction.Body.{IsTransaction}
use m_signa.Transaction.RoundTrip.{get_tx-put_tx}
use m_signa.Transaction.Size.{length-put_tx, tx_v_size-eq}
use m_signa.Transaction.SigHash.{
  Cache, reset_sig_hash, sighash_all, filled, get_sig_hash, digest, witness_preimage,
  index_out_of_range,
}
use m_signa.Transaction.Digest.{
  IsCurrent, get_sig_hash-cache, get_sig_hash-IsCurrent, get_sig_hash_stale,
}

-- The first byte, and a constant behind it, so that no hash is empty.
abbrev pub front_hash : Bytes → Bytes
front_hash [] = 7 ∷ []
front_hash (b ∷ bs) = b ∷ []

abbrev pub an_input : TxIn
an_input = record {
  previous_out = record { hash = replicate 32 1; index = 0 };
  script_sig = 81 ∷ [];
  sequence = 4294967295;
  script_witness = (5 ∷ 6 ∷ []) ∷ [];
}

abbrev pub an_output : TxOut
an_output = record { value = 5000; script_pub_key = 118 ∷ 169 ∷ [] }

abbrev pub a_tx : Transaction
a_tx = record { version = 1; inputs = an_input ∷ []; outputs = an_output ∷ []; lock_time = 0 }

an_input-IsTxIn : IsTxIn an_input
an_input-IsTxIn = record {
  out_point = record { hash_size = refl; index_u32 = omega arith };
  sequence_u32 = omega arith;
}

pub a_tx-IsTransaction : IsTransaction a_tx
a_tx-IsTransaction = record {
  version_u32 = omega arith;
  lock_time_u32 = omega arith;
  inputs_typed = (an_input-IsTxIn, tt);
  outputs_typed = (omega arith, tt);
  some_input = omega arith;
  inputs_u32 = omega arith;
  outputs_u32 = omega arith;
}

tx_short : length (put_tx true a_tx ++ (9 ∷ [])) < 2 ^ 32
unfolding put_tx put_tx_in put_tx_out put_out_point put_witness put_item flat put_var_int
    uint_to_vch low_bytes
tx_short = omega arith

get_tx-put_tx_example : get_tx (put_tx true a_tx ++ (9 ∷ [])) ≡ ok a_tx
get_tx-put_tx_example = get_tx-put_tx a_tx (9 ∷ []) a_tx-IsTransaction tx_short

length-put_tx_example : length (put_tx true a_tx) ≡ tx_size true a_tx
length-put_tx_example = length-put_tx true a_tx (an_input-IsTxIn, tt)

tx_v_size-eq_example :
    (tx_v_size a_tx
      ≡ length (put_tx false a_tx)
        + (length (flat (λ (i : TxIn). put_witness i.script_witness) a_tx.inputs) + 3) / 4)
    × (length (put_tx true a_tx)
        ≡ length (put_tx false a_tx)
          + (2 + length (flat (λ (i : TxIn). put_witness i.script_witness) a_tx.inputs)))
tx_v_size-eq_example = tx_v_size-eq a_tx (an_input-IsTxIn, tt) refl

no_input :
    get_sig_hash front_hash reset_sig_hash a_tx sighash_all 1 (81 ∷ []) 7 ≡ err index_out_of_range
unfolding get_sig_hash
no_input = refl

reset-IsCurrent : IsCurrent front_hash reset_sig_hash a_tx
reset-IsCurrent = record {
  prevouts_current = inl refl;
  sequence_current = inl refl;
  outputs_current = inl refl;
}

abbrev kept_cache : Cache
kept_cache = filled front_hash reset_sig_hash a_tx

kept-IsCurrent : IsCurrent front_hash kept_cache a_tx
kept-IsCurrent = record {
  prevouts_current = inr refl;
  sequence_current = inr refl;
  outputs_current = inr refl;
}

get_sig_hash-cache_example :
    map_ok (λ r. r.0) (get_sig_hash front_hash kept_cache a_tx sighash_all 0 (81 ∷ []) 7)
    ≡ map_ok (λ r. r.0) (get_sig_hash front_hash reset_sig_hash a_tx sighash_all 0 (81 ∷ []) 7)
get_sig_hash-cache_example =
    get_sig_hash-cache front_hash kept_cache a_tx sighash_all 0 (81 ∷ []) 7 kept-IsCurrent

signed :
    get_sig_hash front_hash reset_sig_hash a_tx sighash_all 0 (81 ∷ []) 7 ≡ ok (1 ∷ [], kept_cache)
unfolding get_sig_hash digest witness_preimage uint_to_vch low_bytes
signed = refl

get_sig_hash-IsCurrent_example : IsCurrent front_hash kept_cache a_tx
get_sig_hash-IsCurrent_example =
    get_sig_hash-IsCurrent front_hash reset_sig_hash kept_cache a_tx sighash_all 0 (81 ∷ []) 7
      (1 ∷ []) reset-IsCurrent signed

some_front : (bs : Bytes) → front_hash bs ≢ []
some_front [] e = cc
some_front (b ∷ bs) e = cc

get_sig_hash_stale_example :
    get_sig_hash front_hash kept_cache (record a_tx { outputs = [] }) sighash_all 0 (81 ∷ []) 7
    ≡ ok (1 ∷ [], kept_cache)
get_sig_hash_stale_example =
    get_sig_hash_stale front_hash reset_sig_hash kept_cache a_tx [] an_input sighash_all 0 (81 ∷ [])
      7 (1 ∷ []) refl refl some_front signed
