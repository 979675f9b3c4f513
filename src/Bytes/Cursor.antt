-- ===== src/Bytes/Cursor.antt =====
-- Reading at a position: what a deserialiser sees when the bytes from `pos` on are known.
use m_signa.Prelude.{
  ℕ, ◌+◌, ◌-◌, ◌≤◌, ◌≡◌, refl, ap, ◌∙◌, ◌++◌, length, length-append, drop, take-append, drop-append,
  length-drop, drop-add, le→leb, arith,
}
use m_signa.Result.{ok}
use m_signa.Bytes.{Bytes, slice, suffix}

-- From position `pos` on, `bytes` holds `rest`.
pub record At (pos : ℕ) (bytes rest : Bytes) : Type 0 where
  pub inside : pos ≤ length bytes
  pub remains : drop pos bytes ≡ rest

pub At-start : (bytes : Bytes) → At 0 bytes bytes
At-start bytes = record { inside = omega arith; remains = refl }

pub At-length :
    (pos : ℕ) (bytes rest : Bytes) → At pos bytes rest → length bytes ≡ pos + length rest
At-length pos bytes rest a = omega (arith, a.inside, length-drop pos bytes, ap length a.remains)

-- Past a part that is known.
pub At-next :
    (pos p : ℕ) (bytes front rest : Bytes)
    → At pos bytes (front ++ rest)
    → p ≡ pos + length front
    → At p bytes rest
At-next pos p bytes front rest a e = record {
  inside = omega (arith, At-length pos bytes (front ++ rest) a, length-append front rest);
  remains =
      ap (λ (k : ℕ). drop k bytes) e
      ∙ drop-add pos (length front) bytes
      ∙ ap (drop (length front)) a.remains
      ∙ drop-append (length front) front rest refl;
}

pub At-skip : (p : ℕ) (front rest : Bytes) → length front ≡ p → At p (front ++ rest) rest
At-skip p front rest e =
    At-next 0 p (front ++ rest) front rest (At-start (front ++ rest)) (omega arith)

pub slice-At :
    (pos p : ℕ) (bytes front rest : Bytes)
    → At pos bytes (front ++ rest)
    → p ≡ pos + length front
    → slice pos p bytes ≡ ok front
unfolding slice
slice-At pos p bytes front rest a e =
    let fits : p ≤ length bytes =
      omega (arith, At-length pos bytes (front ++ rest) a, length-append front rest) in
    let amount : p - pos ≡ length front = omega arith in
    rw (le→leb p (length bytes) fits, amount, a.remains)
      (ap ok (take-append (length front) front rest refl))

pub slice-front :
    (n : ℕ) (front rest : Bytes) → length front ≡ n → slice 0 n (front ++ rest) ≡ ok front
slice-front n front rest e =
    slice-At 0 n (front ++ rest) front rest (At-start (front ++ rest)) (omega arith)

pub suffix-At : (pos : ℕ) (bytes rest : Bytes) → At pos bytes rest → suffix pos bytes ≡ ok rest
unfolding suffix
suffix-At pos bytes rest a = rw (le→leb pos (length bytes) a.inside) (ap ok a.remains)
