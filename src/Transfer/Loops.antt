-- ===== src/Transfer/Loops.antt =====
-- The two loops over the blocks of a file.
use fcfs.Base.{
  ℕ, zero, suc, ◌+◌, ◌-◌, ◌*◌, ◌≤◌, ◌<◌, ◌≡◌, refl, ap, ◌∙◌, sym, subst, inl, inr, ◌⊎◌, some,
  Option, List, ◌++◌, arith, length, take, drop, ◌==◌, get_elem?, Bool-cases, ==→eq,
}
use fcfs.Base.Monad.{ok}
use fcfs.Structs.{BlkInfo}
use fcfs.Volume.{Volume, IsCipher, lblk_sz}
use fcfs.Device.{at, bytes_at, block_pos}
use fcfs.Device.Bytes.{length-bytes_at}
use fcfs.Seq.ById.{read_by_id-Holds}
use fcfs.Seq.{read_by_id, write_by_id}
use fcfs.FileSeq.{read_from, write_to}
use fcfs.Cache.{Maps, Driver, list_of, on_volume}
use fcfs.Transfer.{fetch, store}
use fcfs.Transfer.Ranges.{range, bytes_at-add, take-bytes_at, drop-bytes_at}
use fcfs.Transfer.Contents.{IsFile, IsFile-at, IsFile-eq, blocks_of, replaced, write_by_id-IsFile}

next_block : (b lblk : ℕ) → (b + 1) * lblk ≡ b * lblk + lblk
next_block b lblk = omega arith

-- The bytes of a block, and those of the blocks behind it.
pub blocks-join :
    (g : ℕ → ℕ) (lblk b k : ℕ)
    → bytes_at g (b * lblk) lblk ++ bytes_at g ((b + 1) * lblk) (k * lblk)
      ≡ bytes_at g (b * lblk) (suc k * lblk)
blocks-join g lblk b k =
    ap (λ bs. bytes_at g (b * lblk) lblk ++ bs)
      (range g {p = (b + 1) * lblk} {q = b * lblk + lblk} {n = k * lblk} (next_block b lblk) refl)
    ∙ bytes_at-add g (b * lblk) lblk (k * lblk)
    ∙ range g {p = b * lblk} {n = lblk + k * lblk} {k = suc k * lblk} refl (omega arith)

pub take-blocks :
    (g : ℕ → ℕ) (lblk b k n : ℕ)
    → n ≡ lblk
    → take n (bytes_at g (b * lblk) (suc k * lblk)) ≡ bytes_at g (b * lblk) lblk
take-blocks g lblk b k n s =
    ap (λ x. take x (bytes_at g (b * lblk) (suc k * lblk))) s
    ∙ take-bytes_at g (b * lblk) lblk (suc k * lblk) (omega arith)

pub drop-blocks :
    (g : ℕ → ℕ) (lblk b k n : ℕ)
    → n ≡ lblk
    → drop n (bytes_at g (b * lblk) (suc k * lblk)) ≡ bytes_at g ((b + 1) * lblk) (k * lblk)
drop-blocks g lblk b k n s =
    ap (λ x. drop x (bytes_at g (b * lblk) (suc k * lblk))) s
    ∙ drop-bytes_at g (b * lblk) lblk (suc k * lblk) (omega arith)
    ∙ range g {p = b * lblk + lblk} {q = (b + 1) * lblk} {n = suc k * lblk - lblk} {k = k * lblk}
        (omega arith) (omega arith)

-- The driver over another volume.
abbrev pub over : {m : Maps} → Driver m → Volume → Driver m
over d w = record d { vol = w }

module _ (m : Maps) (h : ℕ) (l : List BlkInfo) where
  pub read_from_lem :
      (d : Driver m) (id seq_sz : ℕ) (r : Option (List ℕ)) (v : Volume)
      → get_elem? d.lists h ≡ some (some l)
      → read_by_id id l seq_sz d.vol ≡ ok r v
      → read_from m id h seq_sz d ≡ ok r (over d v)
  read_from_lem d id seq_sz r v e eq = rw (e, list_of, eq, on_volume) refl

  pub write_to_lem :
      (d : Driver m) (id seq_sz r : ℕ) (buf : List ℕ) (v : Volume)
      → get_elem? d.lists h ≡ some (some l)
      → write_by_id id buf l seq_sz d.vol ≡ ok r v
      → write_to m id buf h seq_sz d ≡ ok r (over d v)
  write_to_lem d id seq_sz r buf v e eq = rw (e, list_of, eq, on_volume) refl

  -- A block of the file is read as its bytes.
  pub read_from-IsFile :
      (d : Driver m) (n b : ℕ) (g : ℕ → ℕ)
      → get_elem? d.lists h ≡ some (some l)
      → (f : IsFile d.vol l n (blocks_of (lblk_sz d.vol) g)) → b < n
      → read_from m b h (length l) d
        ≡ ok
            (some (bytes_at g (b * lblk_sz d.vol) (lblk_sz d.vol)))
            (over d (at d.vol (block_pos d.vol (f.blk b).cid (f.blk b).bid + lblk_sz d.vol)))
  read_from-IsFile d n b g e f lt =
      read_from_lem d b (length l) _ _ e
        (read_by_id-Holds d.vol (length l) l b (f.blk b) _ (f.placed b lt) (f.holds b lt))

  fetch_step :
      (d d1 d2 : Driver m) (seq_sz b k : ℕ) (bs rest : List ℕ)
      → read_from m b h seq_sz d ≡ ok (some bs) d1
      → fetch m h seq_sz (b + 1) k d1 ≡ ok (some rest) d2
      → fetch m h seq_sz b (suc k) d ≡ ok (some (bs ++ rest)) d2
  unfolding fetch
  fetch_step d d1 d2 seq_sz b k bs rest one later = rw (one, later) refl

  store_step :
      (d d1 d2 : Driver m) (seq_sz b k r : ℕ) (bs rest buf : List ℕ)
      → take (lblk_sz d.vol) buf ≡ bs
      → drop (lblk_sz d.vol) buf ≡ rest
      → write_to m b bs h seq_sz d ≡ ok 0 d1
      → store m h seq_sz (b + 1) k rest d1 ≡ ok r d2
      → store m h seq_sz b (suc k) buf d ≡ ok r d2
  unfolding store
  store_step d d1 d2 seq_sz b k r bs rest buf front back one later =
      rw (front, one, back, later) refl

  -- The first loop returns the bytes of the blocks.
  pub fetch-IsFile :
      (d : Driver m) (n b k : ℕ) (g : ℕ → ℕ)
      → get_elem? d.lists h ≡ some (some l)
      → IsFile d.vol l n (blocks_of (lblk_sz d.vol) g)
      → b + k ≤ n
      → (p : ℕ) × (fetch m h (length l) b k d
          ≡ ok (some (bytes_at g (b * lblk_sz d.vol) (k * lblk_sz d.vol))) (over d (at d.vol p)))
  unfolding fetch bytes_at
  fetch-IsFile d n b zero g e f small = (
    d.vol.dev.pos,
    ap (λ bs. ok (some bs) d)
        (range g {p = b * lblk_sz d.vol} {n = 0} {k = 0 * lblk_sz d.vol} refl (omega arith)),
  )
  fetch-IsFile d n b (suc k) g e f small =
      let q : ℕ = block_pos d.vol (f.blk b).cid (f.blk b).bid + lblk_sz d.vol in
      let (p, later) =
        fetch-IsFile (over d (at d.vol q)) n (b + 1) k g e (IsFile-at q f) (omega arith) in
      (
        p,
        fetch_step d (over d (at d.vol q)) (over d (at d.vol p)) (length l) b k _ _
              (read_from-IsFile d n b g e f (omega arith)) later
            ∙ ap (λ bs. ok (some bs) (over d (at d.vol p))) (blocks-join g (lblk_sz d.vol) b k),
      )

  -- The second loop returns 0 and leaves the bytes in the blocks.
  pub store-IsFile :
      (d : Driver m) (lblk n b k : ℕ) (g : ℕ → ℕ) (c c' : ℕ → List ℕ)
      → lblk_sz d.vol ≡ lblk
      → get_elem? d.lists h ≡ some (some l)
      → IsFile d.vol l n c
      → IsCipher lblk d.vol.ciph
      → b + k ≤ n
      → ((i : ℕ) → i < n → (i < b) ⊎ (b + k ≤ i) → c' i ≡ c i)
      → ((i : ℕ) → b ≤ i → i < b + k → c' i ≡ blocks_of lblk g i)
      → (w : Volume) × (store m h (length l) b k (bytes_at g (b * lblk) (k * lblk)) d
          ≡ ok 0 (over d w))
        × (w ≡ record d.vol { dev = w.dev })
        × IsFile w l n c'
  unfolding store
  store-IsFile d lblk n b zero g c c' s e f cipher small outside inside =
      (d.vol, refl, refl, IsFile-eq c' (λ i lt. outside i lt (ground arith)) f)
  store-IsFile d lblk n b (suc k) g c c' s e f cipher small outside inside =
      let bs : List ℕ = bytes_at g (b * lblk) lblk in
      let (w, eq, rest, f') =
        write_by_id-IsFile d.vol l n c b bs f (subst (λ x. IsCipher x d.vol.ciph) (sym s) cipher)
          (omega arith) (length-bytes_at g (b * lblk) lblk ∙ sym s) in
      let s' : lblk_sz w ≡ lblk = ap (λ x. lblk_sz x) rest ∙ s in
      let (x, later, rest', f'') =
        store-IsFile (over d w) lblk n (b + 1) k g (replaced c b bs) c' s' e f'
          (subst (λ x. IsCipher lblk x.ciph) (sym rest) cipher) (omega arith)
          (λ i lt o. elim (Bool-cases (i == b)) [
            | inl same ↦
                rw same
                  (inside i (ground arith) (ground arith) ∙ ap (blocks_of lblk g) (==→eq _ _ same))
            | inr other ↦ rw other (outside i lt (ground arith))
          ])
          (λ i lo hi. inside i (omega arith) (omega arith)) in
      (
        x,
        store_step d (over d w) (over d x) (length l) b k 0 bs _ _
            (take-blocks g lblk b k (lblk_sz d.vol) s) (drop-blocks g lblk b k (lblk_sz d.vol) s)
            (write_to_lem d b (length l) 0 bs w e eq) later,
        rest' ∙ (λ i. record (rest i) { dev = x.dev }),
        f'',
      )
