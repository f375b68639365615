-- ===== src/Fmt/Parts.antt =====
-- The contents of the regions that the formatter writes.
use fcfs.Base.{
  ℕ, ◌-◌, ◌*◌, ◌^◌, ◌≤◌, ◌<◌, ◌≡◌, refl, ap, ◌∙◌, some, List, ◌++◌, arith, length, take, take-all,
  replicate, le→ltb, length-append, length-replicate,
}
use fcfs.Structs.{Head, label_length, sizeof_block_list, sizeof_head}
use fcfs.Ctable.{encode, decode}
use fcfs.Ctable.Roundtrip.{length-encode, decode-encode}
use fcfs.Volume.{Volume}
use fcfs.Device.{bytes_at, padded}
use fcfs.Device.Bytes.{length-bytes_at}
use fcfs.Mount.{decode_head, decode_table}
use fcfs.Fmt.Layout.{IsLayout, IsDriveCipher, root_list, root_list-IsBlockList}
use fcfs.Fmt.{encode_head, label_of, root_table, root_owners}
use fcfs.Fmt.Codec.{
  IsHead, length-encode_head, length-label_of, decode_head-encode_head, root_only,
  decode_table-root_table,
}

root_owners-some :
    (stack : ℕ → ℕ) (h : Head) (n : ℕ)
    → sizeof_block_list ≤ n
    → h.ctime < 2 ^ 64
    → (bs : List ℕ) × (root_owners stack h n ≡ some bs)
      × (length bs ≡ n)
      × (decode bs ≡ root_list h)
unfolding root_owners
root_owners-some stack h n room time =
    let garbage : List ℕ = bytes_at stack 64 (n - 64) in
    (
      encode (root_list h) ++ garbage,
      rw (le→ltb n 64 room) refl,
      omega (
        arith,
        length-append (encode (root_list h)) garbage,
        length-encode (root_list h) (root_list-IsBlockList h),
        length-bytes_at stack 64 (n - 64),
      ),
      decode-encode (root_list h) garbage (root_list-IsBlockList h) time,
    )

-- the bytes of the head's block before its encryption
pub head_block : (ℕ → ℕ) → List ℕ → Head → List ℕ
head_block mem label h =
    take sizeof_head (encode_head mem label h)
    ++ replicate (h.blk_sz * h.phy_blk_sz - sizeof_head) 0

head_block_lem :
    (mem : ℕ → ℕ) (label : List ℕ) (h : Head)
    → length label ≡ label_length
    → sizeof_head ≤ h.blk_sz * h.phy_blk_sz
    → IsHead h
    → (padded (h.blk_sz * h.phy_blk_sz) (encode_head mem label h) sizeof_head
        ≡ some (head_block mem label h))
      × (length (head_block mem label h) ≡ h.blk_sz * h.phy_blk_sz)
      × (decode_head (head_block mem label h) ≡ h)
unfolding head_block padded
head_block_lem mem label h long room is =
    let size : length (encode_head mem label h) ≡ sizeof_head =
      length-encode_head mem label h long in
    let whole : take sizeof_head (encode_head mem label h) ≡ encode_head mem label h =
      take-all sizeof_head (encode_head mem label h) (omega arith) in
    let zeros : List ℕ = replicate (h.blk_sz * h.phy_blk_sz - sizeof_head) 0 in
    (
      rw
          (
            le→ltb (h.blk_sz * h.phy_blk_sz) sizeof_head room,
            le→ltb (length (encode_head mem label h)) sizeof_head (omega arith),
          )
          refl,
      rw whole (
          omega (
            arith,
            length-append (encode_head mem label h) zeros,
            length-replicate {A = ℕ} (h.blk_sz * h.phy_blk_sz - sizeof_head) 0,
          )),
      ap (λ bs. decode_head (bs ++ zeros)) whole
          ∙ decode_head-encode_head mem label h zeros long is,
    )

-- The contents of the regions, as they go to the drive.
pub record Parts (mem stack : ℕ → ℕ) (product : List ℕ) (h : Head) (v : Volume) : Type 0 where
  pub label : List ℕ
  pub eq_label : label_of mem product ≡ some label
  pub eq_head :
      padded (h.blk_sz * h.phy_blk_sz) (encode_head mem label h) sizeof_head
      ≡ some (head_block mem label h)
  pub size_head : length (head_block mem label h) ≡ h.blk_sz * h.phy_blk_sz
  pub head_is : decode_head (head_block mem label h) ≡ h
  pub coded_head : List ℕ
  pub eq_coded_head : v.ciph.encrypt (head_block mem label h) ≡ some coded_head
  pub size_coded_head : length coded_head ≡ h.blk_sz * h.phy_blk_sz
  pub fs_table : List ℕ
  pub eq_table : root_table h (h.tbl_len * (h.blk_sz * h.phy_blk_sz)) ≡ some fs_table
  pub size_table : length fs_table ≡ h.tbl_len * (h.blk_sz * h.phy_blk_sz)
  pub table_is : decode_table fs_table ≡ root_only h
  pub coded_table : List ℕ
  pub eq_coded_table : v.ciph.encrypt fs_table ≡ some coded_table
  pub size_coded_table : length coded_table ≡ h.tbl_len * (h.blk_sz * h.phy_blk_sz)
  pub first : List ℕ
  pub eq_first : root_owners stack h (h.blk_sz * h.phy_blk_sz) ≡ some first
  pub size_first : length first ≡ h.blk_sz * h.phy_blk_sz
  pub owners_are : decode first ≡ root_list h
  pub coded : List ℕ
  pub eq_coded : v.ciph.encrypt (replicate (h.blk_sz * h.phy_blk_sz * 7) 0) ≡ some coded
  pub size_coded : length coded ≡ h.blk_sz * h.phy_blk_sz * 7

pub write_regions-Parts :
    (mem stack : ℕ → ℕ) (product : List ℕ) (h : Head) (v : Volume)
    → IsLayout h v.dev.size
    → IsDriveCipher v h
    → length product ≤ label_length
    → Parts mem stack product h v
write_regions-Parts mem stack product h v is cipher short =
    let l : ℕ = h.blk_sz * h.phy_blk_sz in
    let zeros_size : length (replicate {A = ℕ} (l * 7) 0) ≡ l * 7 =
      length-replicate {A = ℕ} (l * 7) 0 in
    let (label, eq_label, long) = length-label_of mem product short in
    let (eq_head, size_head, head_is) = head_block_lem mem label h long is.head is.fields in
    let (ch, eq_ch) = cipher.block.total (head_block mem label h) size_head in
    let (ft, eq_ft, size_ft, table_is) =
      decode_table-root_table h (h.tbl_len * l) is.fields.ctime is.table is.table_small in
    let (ct, eq_ct) = cipher.table.total ft size_ft in
    let (first, eq_first, size_first, owners_are) =
      root_owners-some stack h l (omega (arith, is.head)) is.fields.ctime in
    let (cc, eq_cc) = cipher.cluster.total (replicate (l * 7) 0) zeros_size in
    record {
      label = label;
      eq_label = eq_label;
      eq_head = eq_head;
      size_head = size_head;
      head_is = head_is;
      coded_head = ch;
      eq_coded_head = eq_ch;
      size_coded_head = cipher.block.same_length (head_block mem label h) ch size_head eq_ch;
      fs_table = ft;
      eq_table = eq_ft;
      size_table = size_ft;
      table_is = table_is;
      coded_table = ct;
      eq_coded_table = eq_ct;
      size_coded_table = cipher.table.same_length ft ct size_ft eq_ct;
      first = first;
      eq_first = eq_first;
      size_first = size_first;
      owners_are = owners_are;
      coded = cc;
      eq_coded = eq_cc;
      size_coded = cipher.cluster.same_length (replicate (l * 7) 0) cc zeros_size eq_cc;
    }
