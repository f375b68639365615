-- ===== src/Clrs/SecondBlocks.antt =====
-- The loops of dev_tbl_save_sec and dev_tbl_load_sec over the blocks of a cluster.
use fcfs.Base.{
  ℕ, zero, suc, ◌+◌, ◌*◌, ◌≤◌, ◌<◌, ◌≡◌, ◌≢◌, ◌⊎◌, refl, ap, sym, subst, ◌∙◌, inl, inr, some, List,
  ◌++◌, arith, length, take, drop, take-add, length-take, length-drop,
}
use fcfs.Base.Monad.{ok}
use fcfs.Volume.{Volume, lblk_sz}
use fcfs.Device.{noneed, at, block_pos, read_block, write_block}
use fcfs.Device.Blocks.{raw, Holds, plain, read_block-Holds, filled, Written, write_block_lem}
use fcfs.Device.Frame.{filled_whole}
use fcfs.Layout.{IsVolume, IsVolume-kept, IsVolume-InVolume}
use fcfs.Clrs.{save_blocks, load_blocks}

-- Blocks `i` to `i + n - 1` of a cluster hold the front of the buffer.
abbrev pub Spread : Volume → ℕ → ℕ → ℕ → List ℕ → Type 0
Spread w cid i zero buf = Unit {0}
Spread w cid i (suc n) buf =
    (raw w cid i ≡ take (lblk_sz w) buf) × Spread w cid (i + 1) n (drop (lblk_sz w) buf)

load_step :
    (v u w : Volume) (n cid i : ℕ) (bs rest : List ℕ)
    → read_block cid i noneed v ≡ ok (some bs) u
    → load_blocks n cid (i + 1) u ≡ ok rest w
    → load_blocks (suc n) cid i v ≡ ok (bs ++ rest) w
unfolding load_blocks
load_step v u w n cid i bs rest one later = rw (one, later) refl

Spread-at :
    (v : Volume) (p cid i n : ℕ) (buf : List ℕ) → Spread v cid i n buf → Spread (at v p) cid i n buf
Spread-at v p cid i zero buf s = tt
Spread-at v p cid i (suc n) buf (here, later) =
    (here, Spread-at v p cid (i + 1) n (drop (lblk_sz v) buf) later)

pub load_blocks-Spread :
    (v : Volume) (n cid i : ℕ) (buf : List ℕ)
    → IsVolume v
    → cid < v.fs_head.clu_cnt
    → i + n ≤ 8
    → Spread v cid i n buf
    → (p : ℕ) × (load_blocks n cid i v ≡ ok (take (n * lblk_sz v) buf) (at v p))
unfolding load_blocks
load_blocks-Spread v zero cid i buf is small few s =
    (v.dev.pos, ap (λ k. ok (take k buf) v) {x = 0} {y = 0 * lblk_sz v} (omega arith))
load_blocks-Spread v (suc n) cid i buf is small few (here, later) =
    let l : ℕ = lblk_sz v in
    let q : ℕ = block_pos v cid i + l in
    let (p, rest) =
      load_blocks-Spread (at v q) n cid (i + 1) (drop l buf)
        (IsVolume-kept v (at v q) refl refl refl is.flag_bytes is) small (omega (arith, few))
        (Spread-at v q cid (i + 1) n (drop l buf) later) in
    let size : l + n * l ≡ suc n * l = grind arith in
    (
      p,
      load_step v (at v q) (at v p) n cid i (take l buf) (take (n * l) (drop l buf))
            (read_block-Holds v cid i (IsVolume-InVolume v cid i is small (omega (arith, few)))
              noneed (take l buf) (plain here))
            rest
          ∙ ap (λ bs. ok bs (at v p)) (take-add l (n * l) buf ∙ ap (λ k. take k buf) size),
    )

-- What the loop of dev_tbl_save_sec leaves: the buffer in `n` blocks of the cluster, and every other
-- block of it and of the other clusters as it was.
pub record Saved (v : Volume) (cid i n : ℕ) (buf : List ℕ) (w : Volume) : Type 0 where
  pub spread : Spread w cid i n buf
  pub others : (c b : ℕ) → b < 8 → (c ≢ cid) ⊎ ((b < i) ⊎ (i + n ≤ b)) → raw w c b ≡ raw v c b
  pub rest : w ≡ record v { dev = w.dev }
  pub same_size : w.dev.size ≡ v.dev.size

save_step :
    (v u w : Volume) (n cid i res : ℕ) (buf : List ℕ)
    → write_block cid i (take (lblk_sz v) buf) (lblk_sz v) noneed v ≡ ok res u
    → save_blocks n cid (i + 1) (drop (lblk_sz v) buf) u ≡ ok tt w
    → save_blocks (suc n) cid i buf v ≡ ok tt w
unfolding save_blocks
save_step v u w n cid i res buf one later = rw (one, later) refl

raw_of : {w : Volume} {cid i : ℕ} {bs : List ℕ} → Holds w cid i noneed bs → raw w cid i ≡ bs
raw_of (plain e) = e

Saved-step :
    (v u w : Volume) (cid i n : ℕ) (buf : List ℕ)
    → i < 8
    → length (take (lblk_sz v) buf) ≡ lblk_sz v
    → Written v cid i noneed (filled v (take (lblk_sz v) buf) (lblk_sz v)) u
    → Saved u cid (i + 1) n (drop (lblk_sz v) buf) w
    → Saved v cid i (suc n) buf w
Saved-step v u w cid i n buf low whole r s =
    let lblk_u : lblk_sz u ≡ lblk_sz v = ap (λ y. lblk_sz y) r.rest in
    let lblk : lblk_sz w ≡ lblk_sz v = ap (λ y. lblk_sz y) s.rest ∙ lblk_u in
    record {
      spread = (
        s.others cid i low (inr (inl (omega arith)))
            ∙ raw_of r.holds
            ∙ filled_whole v (take (lblk_sz v) buf) whole
            ∙ ap (λ l. take l buf) (sym lblk),
        subst (λ l. Spread w cid (i + 1) n (drop l buf)) (sym lblk) s.spread,
      );
      others = λ c b lt ne. elim ne [
        | inl far ↦ s.others c b lt (inl far) ∙ r.others c b lt (inl far)
        | inr (inl before) ↦
            s.others c b lt (inr (inl (omega (arith, before))))
            ∙ r.others c b lt (inr (λ e. absurd (omega (arith, e, before))))
        | inr (inr after) ↦
            s.others c b lt (inr (inr (omega (arith, after))))
            ∙ r.others c b lt (inr (λ e. absurd (omega (arith, e, after))))
      ];
      rest = s.rest ∙ λ j. record (r.rest j) { dev = w.dev };
      same_size = s.same_size ∙ r.same_size;
    }

pub save_blocks-Saved :
    (v : Volume) (n cid i : ℕ) (buf : List ℕ)
    → IsVolume v
    → cid < v.fs_head.clu_cnt
    → i + n ≤ 8
    → n * lblk_sz v ≤ length buf
    → (w : Volume) × (save_blocks n cid i buf v ≡ ok tt w) × Saved v cid i n buf w
unfolding save_blocks
save_blocks-Saved v zero cid i buf is small few enough =
    (v, refl, record { spread = tt; others = λ c b lt ne. refl; rest = refl; same_size = refl })
save_blocks-Saved v (suc n) cid i buf is small few enough =
    let l : ℕ = lblk_sz v in
    let size : l + n * l ≡ suc n * l = grind arith in
    let whole : length (take l buf) ≡ l = omega (arith, length-take l buf, enough, size) in
    let (u, eq, r) =
      write_block_lem v cid i (IsVolume-InVolume v cid i is small (omega (arith, few)))
        (omega (arith, few)) (take l buf) l noneed (λ e. absurd (ground (arith, e))) (omega arith)
        (omega (arith, whole)) in
    let head : u.fs_head ≡ v.fs_head = ap (λ y. y.fs_head) r.rest in
    let flags : u.fs_bitmap ≡ v.fs_bitmap = ap (λ y. y.fs_bitmap) r.rest in
    let is_u : IsVolume u =
      IsVolume-kept v u head r.same_size (ap length flags) (rw flags is.flag_bytes) is in
    let more : n * lblk_sz u ≤ length (drop l buf) =
      rw (ap (λ y. lblk_sz y) r.rest) (omega (arith, length-drop l buf, enough, size)) in
    let (w, eq', s) =
      save_blocks-Saved u n cid (i + 1) (drop l buf) is_u (rw head small) (omega (arith, few))
        more in
    (
      w,
      save_step v u w n cid i _ buf eq eq',
      Saved-step v u w cid i n buf (omega (arith, few)) whole r s,
    )
