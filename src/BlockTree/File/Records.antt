-- ===== src/BlockTree/File/Records.antt =====
-- The loops of `loadFromFile` over a file of records as `flushToFile` writes them.
use m_signa.Prelude.{
  ℕ, zero, suc, ◌+◌, ◌-◌, ◌*◌, ◌%◌, ◌^◌, ◌≤◌, ◌<◌, ◌≡◌, refl, sym, ap, ◌∙◌, List, [], ◌∷◌, ◌++◌,
  true, false, leb, le→leb, leb-false, All, length, take, length-append, length-take, take-all,
  append_assoc, append-nil, arith,
}
use mathlib.Core.Path.{subst}
use m_signa.Result.{ok, >>=-eq-ok, ok-injective}
use m_signa.Bytes.{Bytes, bytes_eq_refl}
use m_signa.Bytes.Cursor.{At, At-start, At-next, slice-At}
use m_signa.BlockHeader.{BlockHeader, put_header, get_header}
use m_signa.BlockHeader.RoundTrip.{IsHeader, length-put_header, get_header-put_header}
use m_signa.BlockTree.Defs.{BlockTree, Hashing}
use m_signa.BlockTree.File.{put_record, load_header, load_record, load_records}
use m_signa.BlockTree.File.Replay.{always, load_headers}

module _ (hashing : Hashing) where
  open hashing use {hash}

  -- A header that `flushToFile` can write.
  abbrev pub Writable : BlockHeader → Type 0
  Writable h = IsHeader h × (4 ≤ length (hash h))

  abbrev pub record_of : BlockHeader → Bytes
  record_of h = put_header h ++ take 4 (hash h)

  abbrev pub records : List BlockHeader → Bytes
  records [] = []
  records (h ∷ hs) = record_of h ++ records hs

  length-check : (h : BlockHeader) → Writable h → length (take 4 (hash h)) ≡ 4
  length-check h v = omega (arith, length-take 4 (hash h), v.1)

  length-record_of : (h : BlockHeader) → Writable h → length (record_of h) ≡ 84
  length-record_of h v = omega (
    arith,
    length-append (put_header h) (take 4 (hash h)),
    length-put_header h v.0,
    length-check h v,
  )

  pub length-records :
      (hs : List BlockHeader) → All Writable hs → length (records hs) ≡ 84 * length hs
  length-records [] v = refl
  length-records (h ∷ hs) v = omega (
    arith,
    length-append (record_of h) (records hs),
    length-record_of h v.0,
    length-records hs v.1,
  )

  pub records-append : (xs ys : List BlockHeader) → records (xs ++ ys) ≡ records xs ++ records ys
  records-append [] ys = refl
  records-append (x ∷ xs) ys =
      ap (λ (bs : Bytes). record_of x ++ bs) (records-append xs ys)
      ∙ sym (append_assoc (record_of x) (records xs) (records ys))

  pub put_record-record_of :
      (h : BlockHeader) → Writable h → put_record hashing h ≡ ok (record_of h)
  unfolding put_record
  put_record-record_of h v =
      let size = length-put_header h v.0 in
      rw (
        le→leb 80 (length (put_header h)) (omega (arith, size)),
        le→leb 4 (length (hash h)) v.1,
        take-all 80 (put_header h) (omega (arith, size)),
      )

  -- A record is read back.
  load_record-At :
      (buf rest : Bytes) (pos count : ℕ) (t : BlockTree) (h : BlockHeader)
      → Writable h
      → At pos buf (record_of h ++ rest)
      → load_record hashing true always buf pos t count ≡ load_header hashing true always t count h
  unfolding load_record
  load_record-At buf rest pos count t h v a =
      let size = length-put_header h v.0 in
      let a1 : At pos buf (put_header h ++ (take 4 (hash h) ++ rest)) =
        subst (At pos buf) (append_assoc (put_header h) (take 4 (hash h)) rest) a in
      let a2 : At (pos + 80) buf (take 4 (hash h) ++ rest) =
        At-next pos (pos + 80) buf (put_header h) _ a1 (omega (arith, size)) in
      let header : get_header (put_header h) ≡ ok h =
        subst (λ (bs : Bytes). get_header bs ≡ ok h) (append-nil (put_header h))
          (get_header-put_header h [] v.0) in
      rw (
        slice-At pos (pos + 80) buf (put_header h) _ a1 (omega (arith, size)),
        header,
        slice-At (pos + 80) (pos + 84) buf (take 4 (hash h)) rest a2
            (omega (arith, length-check h v)),
        bytes_eq_refl (take 4 (hash h)),
      )

  -- The loop goes over the records while the bound allows it.
  pub load_records-At :
      (hs : List BlockHeader) (total fuel : ℕ) (buf rest : Bytes) (n pos count : ℕ) (t : BlockTree)
      (r : BlockTree × ℕ)
      → total ≡ length hs + fuel
      → All Writable hs
      → At pos buf (records hs ++ rest)
      → pos + 84 * length hs ≤ (n + 2 ^ 32 - 84) % 2 ^ 32 + 84
      → load_headers hashing t count hs ≡ ok r
      → load_records hashing true always total buf n pos t count
        ≡ load_records hashing true always fuel buf n (pos + 84 * length hs) r.0 r.1
  unfolding load_records load_headers
  load_records-At [] total fuel buf rest n pos count t r amount v a low e =
      let total_fuel : total ≡ fuel = omega (arith, amount) in
      let stop : pos + 84 * 0 ≡ pos = omega arith in
      let same : (t, count) ≡ r = ok-injective e in
      rw (total_fuel, stop)
        (ap (λ (x : BlockTree × ℕ). load_records hashing true always fuel buf n pos x.0 x.1) same)
  load_records-At (h ∷ hs) zero fuel buf rest n pos count t r amount v a low e =
      absurd (omega (arith, amount))
  load_records-At (h ∷ hs) (suc total) fuel buf rest n pos count t r amount v a low e =
      let a0 : At pos buf (record_of h ++ (records hs ++ rest)) =
        subst (At pos buf) (append_assoc (record_of h) (records hs) rest) a in
      let (x, e1, e2) = >>=-eq-ok (load_header hashing true always t count h) _ e in
      let go : leb pos ((n + 2 ^ 32 - 84) % 2 ^ 32) ≡ true =
        le→leb pos ((n + 2 ^ 32 - 84) % 2 ^ 32) (omega (arith, low)) in
      let further : pos + 84 * suc (length hs) ≡ pos + 84 + 84 * length hs = omega arith in
      rw (go, load_record-At buf (records hs ++ rest) pos count t h v.0 a0, e1, further)
        (load_records-At hs total fuel buf rest n (pos + 84) x.1 x.0 r (omega (arith, amount)) v.1
          (At-next pos (pos + 84) buf (record_of h) (records hs ++ rest) a0
            (omega (arith, length-record_of h v.0)))
          (omega (arith, low)) e2)

  -- It ends behind the bytes that were read.
  pub load_records-exact :
      (hs : List BlockHeader) (buf rest : Bytes) (count : ℕ) (t : BlockTree) (r : BlockTree × ℕ)
      → All Writable hs
      → buf ≡ records hs ++ rest
      → 0 < length hs
      → length hs ≤ 64
      → load_headers hashing t count hs ≡ ok r
      → load_records hashing true always 65 buf (84 * length hs) 0 t count
        ≡ ok (r.0, r.1, 84 * length hs)
  unfolding load_records
  load_records-exact hs buf rest count t r v shape low high e =
      let n : ℕ = 84 * length hs in
      let bound : (n + 2 ^ 32 - 84) % 2 ^ 32 ≡ n - 84 = omega (arith, low, high) in
      let stop : leb (0 + n) ((n + 2 ^ 32 - 84) % 2 ^ 32) ≡ false =
        leb-false (0 + n) ((n + 2 ^ 32 - 84) % 2 ^ 32) (omega (arith, bound, low)) in
      let zero_n : 0 + n ≡ n = omega arith in
      load_records-At hs 65 (suc (64 - length hs)) buf rest n 0 count t r (omega (arith, high)) v
        (subst (At 0 buf) shape (At-start buf)) (omega (arith, bound, low)) e
      ∙ rw (stop, zero_n)
