-- ===== src/Ctable/Roundtrip.antt =====
-- What dev_write_ctable stores is what dev_read_ctable returns.
use fcfs.Base.{
  ℕ, ◌+◌, ◌-◌, ◌*◌, ◌^◌, ◌≤◌, ◌<◌, ◌≡◌, refl, ap, ap₂, ◌∙◌, sym, subst, Bool, false, List, [], ◌∷◌,
  ◌++◌, arith, tests, ltb, ◌==◌, if◌then◌else◌, All, length, replicate, take-all, length-append,
  ==_refl,
}
use fcfs.Base.Bytes.{from_le-to_le}
use fcfs.Base.Monad.{ok}
use fcfs.Base.Words.{minus_one}
use fcfs.Structs.{BlockList, BlockListEntry, sizeof_block_list}
use fcfs.Volume.{Volume, lblk_sz}
use fcfs.Device.{noneed, at, block_pos}
use fcfs.Device.Blocks.{InVolume, Written, Holds, filled, write_block_lem, read_block-Holds}
use fcfs.Device.Frame.{InVolume-Written}
use fcfs.Ctable.{
  get_hashsum, encode, encode_entrs, decode, decode_entrs, copied, read_ctable, write_ctable,
}

-- The fields of an entry fit their 32 bits.
pub record FitsEntry (e : BlockListEntry) : Type 0 where
  pub fid : e.fid < 2 ^ 32
  pub num : e.num < 2 ^ 32

-- A table as the C type holds it: 7 entries of 32-bit fields.
pub record IsBlockList (entrs : List BlockListEntry) : Type 0 where
  pub count : length entrs ≡ 7
  pub fits : All FitsEntry entrs

decode-encode_entrs :
    (es : List BlockListEntry) (rest : List ℕ)
    → All FitsEntry es
    → decode_entrs (length es) (encode_entrs es ++ rest) ≡ es
decode-encode_entrs [] rest h = refl
decode-encode_entrs (e ∷ es) rest h =
    ap₂ ◌∷◌
      (λ i. record { fid = from_le-to_le 4 e.fid h.0.fid i; num = from_le-to_le 4 e.num h.0.num i })
      (decode-encode_entrs es rest h.1)

length-encode_entrs : (es : List BlockListEntry) → length (encode_entrs es) ≡ length es * 8
length-encode_entrs [] = refl
length-encode_entrs (e ∷ es) = omega (arith, length-encode_entrs es)

pub length-encode : (bl : BlockList) → IsBlockList bl.entrs → length (encode bl) ≡ sizeof_block_list
unfolding encode
length-encode bl is = omega (arith, length-encode_entrs bl.entrs, is.count)

pub decode-encode :
    (bl : BlockList) (rest : List ℕ)
    → IsBlockList bl.entrs
    → bl.hashsum < 2 ^ 64
    → decode (encode bl ++ rest) ≡ bl
unfolding decode encode
decode-encode bl rest is small =
    λ i. record { hashsum = from_le-to_le 8 bl.hashsum small i; entrs = back i }
  where
    back : decode_entrs 7 (encode_entrs bl.entrs ++ rest) ≡ bl.entrs
    back =
        ap (λ n. decode_entrs n (encode_entrs bl.entrs ++ rest)) (sym is.count)
        ∙ decode-encode_entrs bl.entrs rest is.fits

-- The table with the checksum that the volume gives it.
abbrev pub summed : Volume → BlockList → BlockList
summed v bl = record bl { hashsum = get_hashsum v bl.entrs }

get_hashsum-lt : (v : Volume) (entrs : List BlockListEntry) → get_hashsum v entrs < 2 ^ 64
unfolding get_hashsum
get_hashsum-lt v entrs = omega arith

-- A block that begins with the bytes of a table whose checksum agrees is read as that table.
read_ctable-Holds :
    (w : Volume) (id : ℕ) (bl : BlockList) (rest : List ℕ)
    → InVolume w id 0
    → IsBlockList bl.entrs
    → Holds w id 0 noneed (encode (summed w bl) ++ rest)
    → read_ctable id w ≡ ok (summed w bl) (at w (block_pos w id 0 + lblk_sz w))
unfolding read_ctable copied get_hashsum
read_ctable-Holds w id bl rest i is h =
    let long : ltb (length (encode (summed w bl) ++ rest)) sizeof_block_list ≡ false =
      omega (tests, length-append (encode (summed w bl)) rest, length-encode (summed w bl) is) in
    rw (
      read_block-Holds w id 0 i noneed _ h,
      long,
      decode-encode (summed w bl) rest is (get_hashsum-lt w bl.entrs),
      ==_refl,
    )

get_hashsum-Written :
    {v w : Volume} {c b : ℕ} {flag : Bool} {bs : List ℕ} (entrs : List BlockListEntry)
    → Written v c b flag bs w
    → get_hashsum w entrs ≡ get_hashsum v entrs
unfolding get_hashsum
get_hashsum-Written entrs r = ap (λ x. get_hashsum x entrs) r.rest

-- What a write of a table leaves: dev_read_ctable returns the table with its checksum, and nothing
-- but the first block of the cluster has changed.
pub record Recorded (v : Volume) (id : ℕ) (bl : BlockList) (w : Volume) : Type 0 where
  pub written : Written v id 0 noneed (filled v (encode (summed v bl)) sizeof_block_list) w
  pub read : read_ctable id w ≡ ok (summed v bl) (at w (block_pos w id 0 + lblk_sz w))

-- dev_write_ctable of a table of 7 entries to a cluster whose first block lies on the device:
-- dev_read_ctable returns the same entries, the other blocks keep their bytes, and the result is -1
-- unless a block has exactly the 64 bytes of a table.
pub write_ctable_lem :
    (v : Volume) (id : ℕ) (bl : BlockList)
    → InVolume v id 0
    → sizeof_block_list ≤ lblk_sz v
    → IsBlockList bl.entrs
    → (w : Volume) × (write_ctable id bl v
        ≡ ok (if lblk_sz v == sizeof_block_list then 0 else minus_one) w)
      × Recorded v id bl w
unfolding write_ctable
write_ctable_lem v id bl i fits is =
    let size : length (encode (summed v bl)) ≡ sizeof_block_list = length-encode (summed v bl) is in
    let (w, eq, r) =
      write_block_lem v id 0 i (omega arith) (encode (summed v bl)) sizeof_block_list noneed
        (λ e. absurd (cc)) fits (omega arith) in
    let hash : summed w bl ≡ summed v bl =
      λ j. record bl { hashsum = get_hashsum-Written bl.entrs r j } in
    let zeros : List ℕ = replicate (lblk_sz v - sizeof_block_list) 0 in
    let same : filled v (encode (summed v bl)) sizeof_block_list ≡ encode (summed w bl) ++ zeros =
      ap (λ bs. bs ++ zeros)
        (take-all sizeof_block_list (encode (summed v bl)) (omega arith) ∙ ap encode (sym hash)) in
    (
      w,
      eq,
      record {
        written = r;
        read =
            read_ctable-Holds w id bl zeros (InVolume-Written id 0 r i) is
              (subst (Holds w id 0 noneed) same r.holds)
            ∙ ap (λ t. ok t (at w (block_pos w id 0 + lblk_sz w))) hash;
      },
    )
