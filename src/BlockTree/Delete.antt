-- ===== src/BlockTree/Delete.antt =====
-- What `deleteHeader` does to a header without children.
use m_signa.Prelude.{ℕ, suc, ◌≡◌, [], false, some}
use m_signa.Result.{ok, err}
use m_signa.Bytes.{Bytes}
use m_signa.BlockTree.Links.{at_hash-some}
use m_signa.BlockTree.Defs.{
  assertion_failed, ChainHeader, BlockTree, Hashing, unset_best_chain, remove_header, delete_header,
}

unset_outside :
    (t : BlockTree) (k : Bytes) (h : ChainHeader)
    → t.headers k ≡ some h
    → h.in_best_chain ≡ false
    → unset_best_chain t k ≡ ok (t, [])
unfolding unset_best_chain
unset_outside t k h p outside = rw (at_hash-some t.headers k h p, outside)

-- A header outside the best chain that has no children, and is stored under its own hash, is never
-- deleted: the assertion about its parent fails, because the header itself is taken for the parent.
pub delete_header_fails :
    (hashing : Hashing) (fuel : ℕ) (t : BlockTree) (k : Bytes) (h : ChainHeader)
    → t.headers k ≡ some h
    → hashing.hash h.header ≡ k
    → h.in_best_chain ≡ false
    → h.child_hashes ≡ []
    → delete_header hashing (suc fuel) t k ≡ err assertion_failed
unfolding delete_header remove_header
delete_header_fails hashing fuel t k h p own outside leaf = rw (
  p,
  delete_header,
  unset_outside t k h p outside,
  own,
  at_hash-some t.headers k h p,
  leaf,
  at_hash-some t.headers k h p,
  leaf,
)
