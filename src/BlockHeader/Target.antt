-- ===== src/BlockHeader/Target.antt =====
-- The target and the work that the compact bits of a header stand for.
use m_signa.Prelude.{
  ℕ, ◌+◌, ◌/◌, ◌^◌, ◌≤◌, ◌<◌, ◌≡◌, ◌≢◌, ◌↔◌, ◌==◌, ==_iff, Bool-cases, inl, inr, arith,
}
use m_signa.Prelude.{dec_lt}
use native.Mathlib.Nat.{div-eq_of_lt, div-lt_iff_lt-mul}
use m_signa.BlockHeader.{target_of_bits, work_of_bits}

quotient_zero : (n t : ℕ) → n ≤ t → n / (t + 1) ≡ 0
quotient_zero n t h = div-eq_of_lt {n = n} {m = t + 1} (omega arith)

quotient_pos : (n t : ℕ) → t < n → 0 < n / (t + 1)
quotient_pos n t h = elim (dec_lt 0 (n / (t + 1))) [
  | yes p ↦ p
  | no p ↦
      absurd (
        omega
          (arith, (div-lt_iff_lt-mul {k = t + 1} {x = n} {y = 1} (omega arith)).0 (omega arith)))
]

-- A header carries work exactly if its target is positive and below 2 ^ 256.
pub work_of_bits-pos :
    (bits : ℕ)
    → (0 < work_of_bits bits) ↔ ((target_of_bits bits ≢ 0) × (target_of_bits bits < 2 ^ 256))
unfolding work_of_bits
work_of_bits-pos bits = (there, back)
  where
    there : 0 < work_of_bits bits → (target_of_bits bits ≢ 0) × (target_of_bits bits < 2 ^ 256)
    there h = elim (Bool-cases (target_of_bits bits == 0)) [
      | inl e ↦ absurd (omega (arith, (rw e at h)))
      | inr e ↦ (
        (λ z. cc (e, (==_iff (target_of_bits bits) 0).1 z)),
        elim (dec_lt (target_of_bits bits) (2 ^ 256)) [
          | yes p ↦ p
          | no p ↦ absurd (
              omega
                (arith, quotient_zero (2 ^ 256) (target_of_bits bits) (omega arith), (rw e at h)))
        ],
      )
    ]

    back : (target_of_bits bits ≢ 0) × (target_of_bits bits < 2 ^ 256) → 0 < work_of_bits bits
    back h = elim (Bool-cases (target_of_bits bits == 0)) [
      | inl e ↦ absurd (h.0 ((==_iff (target_of_bits bits) 0).0 e))
      | inr e ↦ rw e (quotient_pos (2 ^ 256) (target_of_bits bits) h.1)
    ]
