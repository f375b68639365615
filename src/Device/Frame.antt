-- ===== src/Device/Frame.antt =====
-- What a write of one block leaves alone.
use fcfs.Base.{
  ℕ, ◌-◌, ◌<◌, ◌≡◌, ◌≢◌, ◌⊎◌, ap, ◌∙◌, Bool, List, ◌++◌, arith, length, take, replicate, take-all,
  append-nil,
}
use fcfs.Volume.{Volume, lblk_sz}
use fcfs.Device.{block_pos}
use fcfs.Device.Blocks.{InVolume, Written, Holds, plain, crypted, raw, filled}

-- A write moves no block.
pub InVolume-Written :
    {v w : Volume} {c b : ℕ} {flag : Bool} {bs : List ℕ} (cid bid : ℕ)
    → Written v c b flag bs w
    → InVolume v cid bid
    → InVolume w cid bid
InVolume-Written {v} {w} cid bid r i =
    let pos : block_pos w cid bid ≡ block_pos v cid bid = ap (λ x. block_pos x cid bid) r.rest in
    let lblk : lblk_sz w ≡ lblk_sz v = ap (λ x. lblk_sz x) r.rest in
    record {
      nonneg = i.nonneg;
      addressed = rw pos i.addressed;
      inside = rw (pos, lblk, r.same_size) i.inside;
    }

-- Another block holds the same data.
pub Holds-Written :
    {v w : Volume} {c b : ℕ} {flag : Bool} {bs : List ℕ} (cid bid : ℕ) {flag' : Bool} {bs' : List ℕ}
    → Written v c b flag bs w
    → bid < 8
    → (cid ≢ c) ⊎ (bid ≢ b)
    → Holds v cid bid flag' bs'
    → Holds w cid bid flag' bs'
Holds-Written cid bid r small ne (plain e) = plain (r.others cid bid small ne ∙ e)
Holds-Written {v} {w} cid bid r small ne (crypted e) = crypted (
    ap (λ x. x.ciph.decrypt (raw w cid bid)) r.rest
    ∙ ap v.ciph.decrypt (r.others cid bid small ne)
    ∙ e)

-- A whole block of data fills the block.
pub filled_whole :
    (v : Volume) (buf : List ℕ) → length buf ≡ lblk_sz v → filled v buf (lblk_sz v) ≡ buf
filled_whole v buf e =
    ap (λ n. take (lblk_sz v) buf ++ replicate n 0) {x = lblk_sz v - lblk_sz v} {y = 0}
      (omega arith)
    ∙ append-nil (take (lblk_sz v) buf)
    ∙ take-all (lblk_sz v) buf (omega arith)
