-- ===== src/Scsi/Exchange.antt =====
-- get_disc_info with a drive.
use fcfs.Base.{
  ap, ◌∙◌, ℕ, ◌≡◌, refl, true, some, List, [], ◌∷◌, ◌++◌, arith, take, drop, length, replicate,
  length-append, length-take, length-drop, length-replicate,
}
use fcfs.Base.Monad.{ok}
use fcfs.Scsi.{
  get_scsi_cmd, DscInfo, fill_field, get_disc_info, Drive, buf_len, received, transferred,
  do_scsi_cmd, or_exit, ask_drive, read_info,
}
use fcfs.Scsi.Capacity.{from_be, get_disc_info-capacity}

-- A drive that answers each of the three commands.
pub record Answers (drv : Drive) (inqr vendor_data capacity : List ℕ) : Type 0 where
  pub serial : drv (get_scsi_cmd 1) ≡ some (true, inqr)
  pub vendor : drv (get_scsi_cmd 2) ≡ some (true, vendor_data)
  pub size : drv (get_scsi_cmd 0) ≡ some (true, capacity)

length-received : (bs buf : List ℕ) → length (received bs buf) ≡ length buf
length-received bs buf = omega (
  arith,
  length-append (take (length buf) bs) (drop (length bs) buf),
  length-take (length buf) bs,
  length-drop (length bs) buf,
)

ask_drive_good :
    {S : Type 0} (drv : Drive) (type : ℕ) (buf bs : List ℕ) (s : S)
    → drv (get_scsi_cmd type) ≡ some (true, bs)
    → ask_drive drv type buf s ≡ ok (received bs buf) s
unfolding ask_drive do_scsi_cmd
ask_drive_good drv type buf bs s e = ap (λ a. or_exit (transferred buf a) s) e

-- the first eight bytes of an answer
received_eight :
    (rest buf : List ℕ) (a b c d e f g h : ℕ)
    → length buf ≡ 512
    → received (a ∷ b ∷ c ∷ d ∷ e ∷ f ∷ g ∷ h ∷ rest) buf
      ≡ a
        ∷ b
        ∷ c
        ∷ d
        ∷ e
        ∷ f
        ∷ g
        ∷ h
        ∷ (take 504 rest ++ drop (length (a ∷ b ∷ c ∷ d ∷ e ∷ f ∷ g ∷ h ∷ rest)) buf)
received_eight rest buf a b c d e f g h size =
    ap
      (λ n.
        take n (a ∷ b ∷ c ∷ d ∷ e ∷ f ∷ g ∷ h ∷ rest)
        ++ drop (length (a ∷ b ∷ c ∷ d ∷ e ∷ f ∷ g ∷ h ∷ rest)) buf)
      size

product_size :
    (inqr info capacity : List ℕ)
    → length info ≡ 512
    → length (get_disc_info inqr info capacity).product ≡ 16
unfolding get_disc_info fill_field
product_size inqr info capacity size =
    omega (arith, length-take 16 (drop 16 info), length-drop 16 info)

-- get_disc_info of a drive that answers its three commands, the last with eight bytes at least: the
-- count and the size of the sectors are the big-endian numbers in these bytes, the name of the product
-- has 16 bytes, and nothing else is changed.
pub read_info_lem :
    {S : Type 0} (drv : Drive) (inqr vendor_data rest : List ℕ) (a b c d e f g h : ℕ) (s : S)
    → Answers drv inqr vendor_data (a ∷ b ∷ c ∷ d ∷ e ∷ f ∷ g ∷ h ∷ rest)
    → (info : DscInfo) × (read_info drv s ≡ ok info s)
      × (info.sec_cnt ≡ from_be (a ∷ b ∷ c ∷ d ∷ []) 0)
      × (info.sec_sz ≡ from_be (e ∷ f ∷ g ∷ h ∷ []) 0)
      × (length info.product ≡ 16)
unfolding read_info
read_info_lem drv inqr vendor_data rest a b c d e f g h s answers =
    let capacity : List ℕ = a ∷ b ∷ c ∷ d ∷ e ∷ f ∷ g ∷ h ∷ rest in
    let buf1 : List ℕ = received inqr (replicate buf_len 0) in
    let buf2 : List ℕ = received vendor_data buf1 in
    let size : length buf2 ≡ 512 =
      length-received vendor_data buf1
      ∙ length-received inqr (replicate buf_len 0)
      ∙ length-replicate {A = ℕ} buf_len 0 in
    let eight = received_eight rest buf2 a b c d e f g h size in
    let numbers =
      get_disc_info-capacity buf1 buf2 (take 504 rest ++ drop (length capacity) buf2) a b c d e f g
        h in
    (
      get_disc_info buf1 buf2 (received capacity buf2),
      rw
          (
            ask_drive_good drv 1 (replicate buf_len 0) inqr s answers.serial,
            ask_drive_good drv 2 buf1 vendor_data s answers.vendor,
            ask_drive_good drv 0 buf2 capacity s answers.size,
          )
          refl,
      ap (λ x. (get_disc_info buf1 buf2 x).sec_cnt) eight ∙ numbers.0,
      ap (λ x. (get_disc_info buf1 buf2 x).sec_sz) eight ∙ numbers.1,
      product_size buf1 buf2 _ size,
    )
