-- ===== src/Result.antt =====
-- A result in place of a C++ exception: `ok` for a normal return, `err` for a throw.
use m_signa.Prelude.{◌≡◌, refl, ap, Bool, true, false}

pub data Result (E A : Type 0) : Type 0 where
  ok : A → Result E A
  err : E → Result E A

-- `if (!b) throw e;`
abbrev pub guard : {E : Type 0} → Bool → E → Result E (Unit {0})
guard false thrown = err thrown
guard true thrown = ok tt

infixl 5 ◌>>=◌ ◌>>◌
abbrev pub ◌>>=◌ : {E A B : Type 0} → Result E A → (A → Result E B) → Result E B
err thrown >>= next = err thrown
ok value >>= next = next value

abbrev pub ◌>>◌ : {E B : Type 0} → Result E (Unit {0}) → Result E B → Result E B
first >> next = first >>= λ _. next

-- A function of what is returned.
abbrev pub map_ok : {E A B : Type 0} → (A → B) → Result E A → Result E B
map_ok f (ok a) = ok (f a)
map_ok f (err e) = err e

-- What a chain that returns went through.
pub >>=-eq-ok :
    {E A B : Type 0} (first : Result E A) (next : A → Result E B) {result : B}
    → (first >>= next) ≡ ok result
    → (value : A) × (first ≡ ok value) × (next value ≡ ok result)
>>=-eq-ok (err thrown) next returns = cc
>>=-eq-ok (ok value) next returns = (value, refl, returns)

pub guard-eq-ok : {E : Type 0} (b : Bool) (e : E) {u : Unit {0}} → guard b e ≡ ok u → b ≡ true
guard-eq-ok true e h = refl
guard-eq-ok false e h = cc

-- What equal returns hold.
pub ok-injective : {E A : Type 0} {a a' : A} → ◌≡◌ {A = Result E A} (ok a) (ok a') → a ≡ a'
ok-injective {a = a} e = ap (λ r. elim r [ ok p ↦ p | err x ↦ a ]) e

pub ok-injective_fst :
    {E A B : Type 0} {a a' : A} {b b' : B}
    → ◌≡◌ {A = Result E (A × B)} (ok (a, b)) (ok (a', b'))
    → a ≡ a'
ok-injective_fst e = ap (λ p. p.0) (ok-injective e)
