-- ===== src/Dir/Loops.antt =====
-- The loops of dev_read_dir and dev_write_dir over the blocks of a file.
use fcfs.Base.{
  ℕ, zero, suc, ◌+◌, ◌*◌, ◌≤◌, ◌<◌, ◌≡◌, refl, ap, ◌∙◌, sym, subst, inl, inr, some, List, ◌++◌,
  arith, length, take, drop, ◌==◌, get_elem?, Bool-cases, ==→eq,
}
use fcfs.Base.Monad.{ok}
use fcfs.Structs.{BlkInfo}
use fcfs.Volume.{Volume, IsCipher, lblk_sz}
use fcfs.Device.{at, bytes_at, block_pos}
use fcfs.Device.Bytes.{length-bytes_at}
use fcfs.FileSeq.{read_from, write_to}
use fcfs.Cache.{Maps, Driver}
use fcfs.Dir.{read_blocks, write_blocks}
use fcfs.Transfer.Ranges.{range}
use fcfs.Transfer.Contents.{IsFile, IsFile-at, IsFile-eq, blocks_of, replaced, write_by_id-IsFile}
use fcfs.Transfer.Loops.{
  over, blocks-join, take-blocks, drop-blocks, read_from-IsFile, write_to_lem,
}

module _ (m : Maps) (h : ℕ) (l : List BlkInfo) where
  read_step :
      (d d1 d2 : Driver m) (seq_sz i k : ℕ) (bs rest : List ℕ)
      → read_from m i h seq_sz d ≡ ok (some bs) d1
      → read_blocks m h seq_sz (i + 1) k d1 ≡ ok rest d2
      → read_blocks m h seq_sz i (suc k) d ≡ ok (bs ++ rest) d2
  unfolding read_blocks
  read_step d d1 d2 seq_sz i k bs rest one later = rw (one, later) refl

  write_step :
      (d d1 d2 : Driver m) (seq_sz i k res r out : ℕ) (bs rest buf : List ℕ)
      → take (lblk_sz d.vol) buf ≡ bs
      → drop (lblk_sz d.vol) buf ≡ rest
      → write_to m i bs h seq_sz d ≡ ok r d1
      → write_blocks m h seq_sz (i + 1) k rest r d1 ≡ ok out d2
      → write_blocks m h seq_sz i (suc k) buf res d ≡ ok out d2
  unfolding write_blocks
  write_step d d1 d2 seq_sz i k res r out bs rest buf front back one later =
      rw (front, one, back, later) refl

  -- The loop of dev_read_dir reads the bytes of the blocks.
  pub read_blocks-IsFile :
      (d : Driver m) (n b k : ℕ) (g : ℕ → ℕ)
      → get_elem? d.lists h ≡ some (some l)
      → IsFile d.vol l n (blocks_of (lblk_sz d.vol) g)
      → b + k ≤ n
      → (p : ℕ) × (read_blocks m h (length l) b k d
          ≡ ok (bytes_at g (b * lblk_sz d.vol) (k * lblk_sz d.vol)) (over d (at d.vol p)))
  unfolding read_blocks bytes_at
  read_blocks-IsFile d n b zero g e f small = (
    d.vol.dev.pos,
    ap (λ bs. ok bs d)
        (range g {p = b * lblk_sz d.vol} {n = 0} {k = 0 * lblk_sz d.vol} refl (omega arith)),
  )
  read_blocks-IsFile d n b (suc k) g e f small =
      let q : ℕ = block_pos d.vol (f.blk b).cid (f.blk b).bid + lblk_sz d.vol in
      let (p, later) =
        read_blocks-IsFile (over d (at d.vol q)) n (b + 1) k g e (IsFile-at q f) (omega arith) in
      (
        p,
        read_step d (over d (at d.vol q)) (over d (at d.vol p)) (length l) b k _ _
              (read_from-IsFile m h l d n b g e f (omega arith)) later
            ∙ ap (λ bs. ok bs (over d (at d.vol p))) (blocks-join g (lblk_sz d.vol) b k),
      )

  -- The loop of dev_write_dir over the blocks from `b` to the last one leaves the bytes in them.
  pub write_blocks-IsFile :
      (d : Driver m) (lblk n b k : ℕ) (g : ℕ → ℕ) (c c' : ℕ → List ℕ)
      → lblk_sz d.vol ≡ lblk
      → get_elem? d.lists h ≡ some (some l)
      → IsFile d.vol l n c
      → IsCipher lblk d.vol.ciph
      → b + k ≡ n
      → ((i : ℕ) → i < b → c' i ≡ c i)
      → ((i : ℕ) → b ≤ i → c' i ≡ blocks_of lblk g i)
      → (w : Volume) × (write_blocks m h (length l) b k (bytes_at g (b * lblk) (k * lblk)) 0 d
          ≡ ok 0 (over d w))
        × (w ≡ record d.vol { dev = w.dev })
        × IsFile w l n c'
  unfolding write_blocks
  write_blocks-IsFile d lblk n b zero g c c' s e f cipher all before inside =
      (d.vol, refl, refl, IsFile-eq c' (λ i lt. before i (omega arith)) f)
  write_blocks-IsFile d lblk n b (suc k) g c c' s e f cipher all before inside =
      let bs : List ℕ = bytes_at g (b * lblk) lblk in
      let (w, eq, rest, f') =
        write_by_id-IsFile d.vol l n c b bs f (subst (λ x. IsCipher x d.vol.ciph) (sym s) cipher)
          (omega arith) (length-bytes_at g (b * lblk) lblk ∙ sym s) in
      let s' : lblk_sz w ≡ lblk = ap (λ x. lblk_sz x) rest ∙ s in
      let (x, later, rest', f'') =
        write_blocks-IsFile (over d w) lblk n (b + 1) k g (replaced c b bs) c' s' e f'
          (subst (λ x. IsCipher lblk x.ciph) (sym rest) cipher) (omega arith)
          (λ i lt. elim (Bool-cases (i == b)) [
            | inl same ↦ rw same (inside i (ground arith) ∙ ap (blocks_of lblk g) (==→eq _ _ same))
            | inr other ↦ rw other (before i (ground arith))
          ])
          (λ i lo. inside i (omega arith)) in
      (
        x,
        write_step d (over d w) (over d x) (length l) b k 0 0 0 bs _ _
            (take-blocks g lblk b k (lblk_sz d.vol) s) (drop-blocks g lblk b k (lblk_sz d.vol) s)
            (write_to_lem m h l d b (length l) 0 bs w e eq) later,
        rest' ∙ (λ i. record (rest i) { dev = x.dev }),
        f'',
      )
