-- ===== src/BlockTree/Locator.antt =====
-- `getLocatorHashes` on a tree with the invariant.
use m_signa.Prelude.{
  ℕ, zero, suc, ◌+◌, ◌-◌, ◌*◌, ◌^◌, ◌≤◌, ◌<◌, ◌≡◌, refl, sym, ap, ◌∙◌, inl, inr, ℤ, pos, negsuc,
  List, [], ◌∷◌, false, ◌&&◌, ◌==◌, ltb, if◌then◌else◌, some, Bool-cases, dec_lt, ltb→lt, length,
  get_elem?, arith,
}
use mathlib.Core.Path.{subst}
use native.Mathlib.Nat.{two-pow-succ}
use m_signa.Result.{ok}
use m_signa.Bytes.{Bytes}
use m_signa.BlockTree.Defs.{ChainHeader, BlockTree, Hashing}
use m_signa.BlockTree.Queries.{at_height, locator_loop, get_locator_hashes}
use m_signa.BlockTree.Invariant.{WellFormed}
use m_signa.BlockTree.Lookup.{at_height-best}

-- The step before the hash number `n`.
abbrev next_step : ℕ → ℕ → ℕ
next_step n step = if ltb 10 (n + 1) then step * 2 else step

twice : (k s : ℕ) → 2 ^ suc k * s ≡ 2 ^ k * (s * 2)
twice k s = grind (arith, two-pow-succ k)

few_more :
    (next n step m : ℕ)
    → 0 < next
    → (next ≤ step → m ≡ 0)
    → 2 ^ (m - (10 - (n + 1))) * next_step n step ≤ 2 * (next - step + next_step n step)
    → 2 ^ (suc m - (10 - n)) * step ≤ 2 * (next + step)
few_more next n step m low end e = elim (Bool-cases (ltb 10 (n + 1))) [
  | inl many ↦
      let past : 10 < n + 1 = ltb→lt 10 (n + 1) many in
      let k0 : 10 - n ≡ 0 = omega (arith, past) in
      let k1 : 10 - (n + 1) ≡ 0 = omega (arith, past) in
      elim (dec_lt step next) [
        | yes inside ↦
            let e' = rw (k1, many) at e in
            let m0 : m - 0 ≡ m = omega arith in
            let e'' = rw m0 at e' in
            let s0 : suc m - 0 ≡ suc m = omega arith in
            rw (k0, s0) (omega (arith, inside, twice m step, e''))
        | no outside ↦ rw (k0, end (omega (arith, outside))) (omega arith)
      ]
  | inr fewer ↦
      let k : m - (10 - (n + 1)) ≡ suc m - (10 - n) = ground (arith, fewer) in
      let e' = rw (k, fewer) at e in omega (arith, e')
]

stays_pos : (n step : ℕ) → 0 < step → 0 < next_step n step
stays_pos n step p = ground (arith, p)

stays_one : (n step : ℕ) → n + 1 ≤ 10 → (n ≤ 10 → step ≡ 1) → next_step n step ≡ 1
stays_one n step few ones = ground (arith, few, ones (omega (arith, few)))

fewest : (n step next : ℕ) → 2 ^ (0 - (10 - n)) * step ≤ 2 * (next + step)
fewest n step next = let z : 0 - (10 - n) ≡ 0 = omega arith in rw z (omega arith)

module _ (hashing : Hashing) (t : BlockTree) (w : WellFormed t) where
  open hashing use {hash}

  -- The hashes of best headers at falling heights below `next`.
  pub data Falling : ℕ → List Bytes → Type 0 where
    done : {next : ℕ} → Falling next []
    more :
        {next : ℕ} {hs : List Bytes} (h : ChainHeader)
        → at_height t h.height ≡ ok h
        → h.height < next
        → Falling h.height hs
        → Falling next (hash h.header ∷ hs)

  -- What the loop returns, from below `next`, with `n` hashes taken.
  pub record Located (max_size next n step : ℕ) (hs : List Bytes) : Type 0 where
    pub falling : Falling next hs
    pub size : length hs ≤ max_size - n
    pub dense :
        (i : ℕ)
        → n + i ≤ 10
        → n + i < max_size
        → i < next
        → (h : ChainHeader) × (at_height t (next - suc i) ≡ ok h)
          × (get_elem? hs i ≡ some (hash h.header))
    pub few : 2 ^ (length hs - (10 - n)) * step ≤ 2 * (next + step)

  Falling-nothing : (hs : List Bytes) → Falling 0 hs → length hs ≡ 0
  Falling-nothing hs f = from 0 hs f refl
    where
      from : (next : ℕ) (hs : List Bytes) → Falling next hs → next ≡ 0 → length hs ≡ 0
      from next hs done e = refl
      from next hs (more h found low rest) e = absurd (omega (arith, low, e))

  Falling-above : (a b : ℕ) (hs : List Bytes) → a ≤ b → Falling a hs → Falling b hs
  Falling-above a b hs le done = done
  Falling-above a b hs le (more h found low rest) = more h found (omega (arith, low, le)) rest

  locator_loop-Located :
      (fuel max_size next n step : ℕ)
      → next < fuel
      → next ≤ t.next_height
      → 0 < step
      → (n ≤ 10 → step ≡ 1)
      → (hs : List Bytes) × (locator_loop hashing fuel t max_size next n step ≡ ok hs)
        × Located max_size next n step hs
  unfolding locator_loop
  locator_loop-Located zero max_size next n step enough low pos_step ones = elim enough [ ]
  locator_loop-Located (suc fuel) max_size next n step enough low pos_step ones =
      elim (Bool-cases (ltb 0 next && ltb n max_size)) [
        | inl go ↦
            let inside : 0 < next = ground (arith, go) in
            let room : n < max_size = ground (arith, go) in
            let (k, h, ek, found, high, flag) =
              at_height-best t w (next - 1) (omega (arith, inside, low)) in
            let (hs, done_, l) =
              locator_loop-Located fuel max_size (next - step) (n + 1) (next_step n step)
                (omega (arith, inside, enough, pos_step)) (omega (arith, low))
                (stays_pos n step pos_step) (λ few. stays_one n step few ones) in
            (
              hash h.header ∷ hs,
              rw (go, found, done_),
              record {
                falling = more h (ap (at_height t) high ∙ found) (omega (arith, high, inside)) (
                    Falling-above (next - step) h.height hs (omega (arith, high, pos_step))
                      l.falling);
                size = omega (arith, l.size, room);
                dense = λ i few_i room_i in_i.
                    denser hs h found l.dense (λ few. ones few) i few_i room_i in_i;
                few =
                    few_more next n step (length hs) inside
                      (λ e.
                        Falling-nothing hs
                          (subst (λ (m : ℕ). Falling m hs) (omega (arith, e)) l.falling))
                      l.few;
              },
            )
        | inr end ↦ (
          [],
          rw end,
          record {
            falling = done;
            size = omega arith;
            dense = λ i few_i room_i in_i. absurd (ground (arith, end, in_i, room_i));
            few = fewest n step next;
          },
        )
      ]
    where
      denser :
          (hs : List Bytes) (h : ChainHeader)
          → at_height t (next - 1) ≡ ok h
          → ((i : ℕ)
              → (n + 1) + i ≤ 10
              → (n + 1) + i < max_size
              → i < next - step
              → (x : ChainHeader) × (at_height t (next - step - suc i) ≡ ok x)
                × (get_elem? hs i ≡ some (hash x.header)))
          → (n ≤ 10 → step ≡ 1)
          → (i : ℕ) → n + i ≤ 10
          → n + i < max_size
          → i < next
          → (x : ChainHeader) × (at_height t (next - suc i) ≡ ok x)
            × (get_elem? (hash h.header ∷ hs) i ≡ some (hash x.header))
      denser hs h found tail one zero few_i room_i in_i = (h, found, refl)
      denser hs h found tail one (suc i) few_i room_i in_i =
          let step_one : step ≡ 1 = one (omega (arith, few_i)) in
          let (x, ex, place) =
            tail i (omega (arith, few_i)) (omega (arith, room_i)) (omega (arith, in_i, step_one)) in
          let same : next - step - suc i ≡ next - suc (suc i) = omega (arith, step_one) in
          (x, ap (at_height t) (sym same) ∙ ex, place)

  -- `getLocatorHashes` of a tree with the invariant always returns, with the hashes of best headers
  -- at falling heights: no more than the given number; the first eleven, as far as the chain and the
  -- number reach, those of the tip and the headers below it; and all in all so few that 2 to the
  -- power of their number less 10 is at most twice the number of best headers and 2 more. A negative
  -- number stands for the length of the chain.
  pub get_locator_hashes-Located :
      (max_size : ℤ)
      → (hs : List Bytes) × (get_locator_hashes hashing t max_size ≡ ok hs)
        × Located (elim max_size [ pos n ↦ n | negsuc n ↦ t.next_height ]) t.next_height 0 1 hs
  unfolding get_locator_hashes
  get_locator_hashes-Located max_size =
      let (hs, e, l) =
        locator_loop-Located (suc t.next_height)
          (elim max_size [ pos n ↦ n | negsuc n ↦ t.next_height ]) t.next_height 0 1 (omega arith)
          (omega arith) (omega arith) (λ few. refl) in
      (
        hs,
        rw (some_height t.next_height (omega (arith, w.charted.next_height_eq, w.tip_last))) e,
        l,
      )
    where
      some_height : (n : ℕ) → 0 < n → (n == 0) ≡ false
      some_height n p = ground (arith, p)
