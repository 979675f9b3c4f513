-- ===== src/Tests/Files.antt =====
-- Block trees of one line of headers, written to a file and loaded from it. A hash is the nonce and
-- 31 bytes of zero.
use m_signa.Prelude.{
  ℕ, zero, suc, ◌<◌, ◌≤◌, ◌≡◌, ◌≢◌, refl, sym, ap, ◌∙◌, inl, inr, List, [], ◌∷◌, Bool, true, false,
  if◌then◌else◌, none, some, Option-cases, Bool-cases, length, get_or, replicate, length-replicate,
  arith,
}
use mathlib.Core.Path.{subst}
use m_signa.Result.{ok, err, ok-injective}
use m_signa.Bytes.{Bytes, bytes_eq, bytes_eq→eq}
use m_signa.BlockHeader.{BlockHeader, work_of_bits}
use m_signa.BlockHeader.RoundTrip.{IsHeader}
use m_signa.BlockTree.{
  ChainHeader, BlockTree, Event, Hashing, empty_tree, set_genesis_block, inserted, added_best,
  delete_header,
}
use m_signa.BlockTree.File.{flush_to_file, load_from_file, out_of_bounds}
use m_signa.BlockTree.Links.{some-injective}
use m_signa.BlockTree.Extend.{IsTip, insert_header-Extended}
use m_signa.BlockTree.Invariant.{WellFormed, insert_header-WellFormed}
use m_signa.BlockTree.Genesis.{set_genesis_block-WellFormed}
use m_signa.BlockTree.Undeletable.{delete_header_never}
use m_signa.BlockTree.File.Replay.{Sound, always, alone, started}
use m_signa.BlockTree.File.Checked.{insert_header-Sound}
use m_signa.BlockTree.File.RoundTrip.{
  SameBest, load_from_file-flush_to_file, load_from_file-overrun,
}
use m_signa.Tests.Chain.{some_work, easy}

abbrev label : ℕ → Bytes
label n = n ∷ replicate 31 0

abbrev wide : Hashing
wide = record { hash = λ h. label h.nonce; pow_hash = λ h. [] }

-- The header number `n`, under the label `suc n`.
abbrev block : ℕ → BlockHeader
block n = record {
  version = 1;
  prev_block_hash = label n;
  merkle_root = replicate 32 0;
  timestamp = 0;
  bits = 486604799;
  nonce = suc n;
}

block-IsHeader : (n : ℕ) → n < 1000 → IsHeader (block n)
block-IsHeader n low = record {
  version_u32 = omega arith;
  prev_size = refl;
  root_size = refl;
  timestamp_u32 = omega arith;
  bits_u32 = omega arith;
  nonce_u32 = omega arith;
}

-- A tree of the headers up to number `n`.
record Tower (n : ℕ) : Type 0 where
  tree : BlockTree
  well : WellFormed tree
  sound : Sound wide tree.headers
  last : ChainHeader
  tip : IsTip tree (label (suc n)) last
  height_eq : last.height ≡ n
  next_height_eq : tree.next_height ≡ suc n
  count_pos : tree.count ≢ 0
  known :
      (j : Bytes) (y : ChainHeader)
      → tree.headers j ≡ some y
      → (m : ℕ) × (m ≤ suc n) × (j ≡ label m)

label_injective : (m n : ℕ) → label m ≡ label n → m ≡ n
label_injective m n e = ap (λ (l : Bytes). get_or l 0 0) e

ground_floor : Tower 0
unfolding set_genesis_block
ground_floor =
    let (t, events, e, w) = set_genesis_block-WellFormed wide (block 0) in
    let same : t ≡ started (label 1) (block 0) =
      ap (λ (r : BlockTree × List Event). r.0) (ok-injective (sym e ∙ built)) in
    record {
      tree = started (label 1) (block 0);
      well = subst WellFormed same w;
      sound = record {
        keyed = λ j y ey.
            let (at_root, is_root) = only j y ey in
            ap (λ (h : ChainHeader). label h.header.nonce) is_root ∙ sym at_root;
        sized = λ j y ey.
            subst (λ (h : ChainHeader). IsHeader h.header) (sym (only j y ey).1)
              (block-IsHeader 0 (omega arith));
        hash_size =
            λ j y ey. subst (λ (b : Bytes). 4 ≤ length b) (sym (only j y ey).0) (omega arith);
        first_work = λ j y ey low.
            subst (λ (h : ChainHeader). h.chain_work ≡ work_of_bits h.header.bits)
              (sym (only j y ey).1) refl;
        proved = λ j y ey high.
            absurd (omega (arith, high, ap (λ (h : ChainHeader). h.height) (only j y ey).1));
      };
      last = alone (block 0);
      tip = record { stored = refl; best = refl; leaf = refl; total = refl };
      height_eq = refl;
      next_height_eq = refl;
      count_pos = λ z. absurd (omega (arith, z));
      known = λ j y ey. (1, omega arith, (only j y ey).0);
    }
  where
    built :
        set_genesis_block wide empty_tree (block 0)
        ≡ ok (started (label 1) (block 0), inserted (label 1) ∷ (added_best (label 1) ∷ []))
    built = refl

    only :
        (j : Bytes) (y : ChainHeader)
        → (if bytes_eq (label 1) j then some (alone (block 0)) else none) ≡ some y
        → (j ≡ label 1) × (y ≡ alone (block 0))
    only j y e = elim (Bool-cases (bytes_eq (label 1) j)) [
      | inl same ↦ (sym (bytes_eq→eq (label 1) j same), sym (some-injective (rw same at e)))
      | inr other ↦ cc (rw other at e)
    ]

next_floor : (n : ℕ) → suc n < 1000 → Tower n → Tower (suc n)
next_floor n low f =
    let new : f.tree.headers (label (suc (suc n))) ≡ none =
      elim (Option-cases (f.tree.headers (label (suc (suc n))))) [
        | inl nothing ↦ nothing
        | inr (y, ey) ↦
            let (m, le, e) = f.known (label (suc (suc n))) y ey in
            absurd (omega (arith, le, label_injective (suc (suc n)) m e))
      ] in
    let (t, e, x) =
      insert_header-Extended wide f.tree (block (suc n)) f.last false f.count_pos new f.tip
        some_work easy in
    let (t', events, e', w) =
      insert_header-WellFormed wide f.tree (block (suc n)) f.last true false f.well new f.tip.stored
        some_work (inr easy) in
    let same : t' ≡ t =
      ap (λ (r : Bool × BlockTree × List Event). r.1) (ok-injective (sym e' ∙ e)) in
    record {
      tree = t;
      well = subst WellFormed same w;
      sound =
          insert_header-Sound wide f.tree (block (suc n)) f.last false _ f.sound
            (block-IsHeader (suc n) low) (omega arith) new f.tip.stored e;
      last = _;
      tip = x.tip;
      height_eq = omega (arith, f.height_eq);
      next_height_eq = omega (arith, x.next_height_eq, f.height_eq);
      count_pos = λ z. absurd (omega (arith, z, x.count_eq));
      known = λ j y ey. elim (x.known j y ey) [
        | inl at_new ↦ (suc (suc n), omega arith, at_new)
        | inr (z, ez) ↦ let (m, le, at_m) = f.known j z ez in (m, omega (arith, le), at_m)
      ];
    }

tower : (n : ℕ) → n < 1000 → Tower n
tower zero low = ground_floor
tower (suc n) low = next_floor n low (tower n (omega (arith, low)))

two_high : Tower 1
two_high = tower 1 (omega arith)

load_from_file-flush_to_file_example :
    (file : Bytes) × (flush_to_file wide two_high.tree ≡ ok file)
    × (t' : BlockTree) × (load_from_file wide true always [] file ≡ ok t')
    × SameBest two_high.tree t'
load_from_file-flush_to_file_example =
    load_from_file-flush_to_file wide two_high.tree two_high.well two_high.sound []
      (λ e. absurd (omega (arith, e, two_high.next_height_eq)))

-- A file of 64 headers.
full_height : Tower 63
full_height = tower 63 (omega arith)

load_from_file-overrun_example :
    (file : Bytes) × (flush_to_file wide full_height.tree ≡ ok file)
    × (load_from_file wide true always (replicate 5376 0) file ≡ err out_of_bounds)
load_from_file-overrun_example =
    load_from_file-overrun wide full_height.tree full_height.well full_height.sound
      (replicate 5376 0) (length-replicate {A = ℕ} 5376 0)
      (omega (arith, full_height.next_height_eq))

delete_header_never_example :
    delete_header wide 9 two_high.tree (label 2) ≢ ok (true, empty_tree, [])
delete_header_never_example =
    delete_header_never wide 9 two_high.tree (label 2) two_high.last (true, empty_tree, [])
      two_high.well two_high.sound.keyed two_high.tip.stored
