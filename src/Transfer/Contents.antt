-- ===== src/Transfer/Contents.antt =====
-- The contents of a file's blocks, and a write to one of them.
use fcfs.Base.{
  ℕ, ◌*◌, ◌<◌, ◌≡◌, ◌≢◌, sym, subst, inl, inr, ◌⊎◌, Bool, List, arith, length, ◌==◌, if◌then◌else◌,
  Bool-cases, ==→eq,
}
use fcfs.Base.Monad.{ok}
use fcfs.Structs.{BlkInfo}
use fcfs.Volume.{Volume, IsCipher, lblk_sz}
use fcfs.Device.{need_crypt, at, bytes_at}
use fcfs.Device.Blocks.{Holds, plain, crypted}
use fcfs.Device.Frame.{Holds-Written}
use fcfs.Seq.{write_by_id}
use fcfs.Seq.ById.{Placed, Placed-Written, write_by_id-Written}

-- The list places the first `n` logical numbers in blocks of their own, which hold `c 0`, `c 1`, ...
pub record IsFile (v : Volume) (l : List BlkInfo) (n : ℕ) (c : ℕ → List ℕ) : Type 0 where
  pub blk : ℕ → BlkInfo
  pub placed : (i : ℕ) → i < n → Placed v (length l) l i (blk i)
  pub apart :
      (i j : ℕ) → i < n → j < n → i ≢ j → ((blk i).cid ≢ (blk j).cid) ⊎ ((blk i).bid ≢ (blk j).bid)
  pub holds : (i : ℕ) → i < n → Holds v (blk i).cid (blk i).bid need_crypt (c i)

-- The contents as one sequence of bytes.
abbrev pub blocks_of : ℕ → (ℕ → ℕ) → ℕ → List ℕ
blocks_of lblk g i = bytes_at g (i * lblk) lblk

Holds-at :
    {v : Volume} {cid bid : ℕ} {flag : Bool} {bs : List ℕ} (p : ℕ)
    → Holds v cid bid flag bs
    → Holds (at v p) cid bid flag bs
Holds-at p (plain e) = plain e
Holds-at p (crypted e) = crypted e

-- Reading moves the stream only.
pub IsFile-at :
    {v : Volume} {l : List BlkInfo} {n : ℕ} {c : ℕ → List ℕ} (p : ℕ)
    → IsFile v l n c
    → IsFile (at v p) l n c
IsFile-at {v} p f = record {
  blk = f.blk;
  placed = λ i h.
      let q = f.placed i h in
      record {
        found = q.found;
        block = record {
          nonneg = q.block.nonneg;
          addressed = q.block.addressed;
          inside = q.block.inside;
        };
        small = q.small;
      };
  apart = f.apart;
  holds = λ i h. Holds-at p (f.holds i h);
}

pub IsFile-eq :
    {v : Volume} {l : List BlkInfo} {n : ℕ} {c : ℕ → List ℕ} (c' : ℕ → List ℕ)
    → ((i : ℕ) → i < n → c' i ≡ c i)
    → IsFile v l n c
    → IsFile v l n c'
IsFile-eq {v} c' e f = record {
  blk = f.blk;
  placed = f.placed;
  apart = f.apart;
  holds = λ i h. subst (Holds v (f.blk i).cid (f.blk i).bid need_crypt) (sym (e i h)) (f.holds i h);
}

abbrev pub replaced : (ℕ → List ℕ) → ℕ → List ℕ → ℕ → List ℕ
replaced c b bs i = if i == b then bs else c i

-- A write of a whole block replaces it and keeps the others.
pub write_by_id-IsFile :
    (v : Volume) (l : List BlkInfo) (n : ℕ) (c : ℕ → List ℕ) (b : ℕ) (bs : List ℕ)
    → IsFile v l n c
    → IsCipher (lblk_sz v) v.ciph
    → b < n
    → length bs ≡ lblk_sz v
    → (w : Volume) × (write_by_id b bs l (length l) v ≡ ok 0 w)
      × (w ≡ record v { dev = w.dev })
      × IsFile w l n (replaced c b bs)
write_by_id-IsFile v l n c b bs f cipher small whole =
    let (w, eq, r) =
      write_by_id-Written v (length l) l b (f.blk b) bs (f.placed b small) cipher whole in
    (
      w,
      eq,
      r.rest,
      record {
        blk = f.blk;
        placed = λ i h. Placed-Written (length l) l i (f.blk i) r (f.placed i h);
        apart = f.apart;
        holds = λ i h. elim (Bool-cases (i == b)) [
          | inl same ↦ rw (same, ==→eq _ _ same) r.holds
          | inr other ↦ rw other (
              Holds-Written (f.blk i).cid (f.blk i).bid r (f.placed i h).small
                (f.apart i b h small (ground arith)) (f.holds i h))
        ];
      },
    )
