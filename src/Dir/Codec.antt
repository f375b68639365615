-- ===== src/Dir/Codec.antt =====
-- The byte layout of a directory, written and read.
use fcfs.Base.{
  ℕ, suc, ◌+◌, ◌-◌, ◌*◌, ◌/◌, ◌^◌, ◌<◌, ◌≡◌, refl, ap, ◌∙◌, sym, none, some, Option, Bool, true,
  false, List, [], ◌∷◌, ◌++◌, arith, All, ltb, ◌==◌, if◌then◌else◌, length, take, drop, replicate,
  append_assoc, length-append, take-append, drop-append, le→ltb,
}
use fcfs.Base.Bytes.{from_le, from_le-to_le}
use fcfs.Dir.{
  DirEntry, max_file_name_length, sizeof_dir_entry, encode_dir, decode_dir, dir_of, dir_buf_of,
}

-- An entry as the C type holds it.
pub record IsDirEntry (e : DirEntry) : Type 0 where
  pub fid : e.fid < 2 ^ 16
  pub mode : e.mode < 2 ^ 32
  pub ctime : e.ctime < 2 ^ 64
  pub atime : e.atime < 2 ^ 64
  pub mtime : e.mtime < 2 ^ 64
  pub name : length e.name ≡ max_file_name_length

pub length-encode_dir :
    (es : List DirEntry) → All IsDirEntry es → length (encode_dir es) ≡ length es * sizeof_dir_entry
unfolding encode_dir
length-encode_dir [] h = refl
length-encode_dir (e ∷ es) h =
    omega (arith, length-append e.name (encode_dir es), h.0.name, length-encode_dir es h.1)

take-name : (name bs : List ℕ) (n : ℕ) → length name ≡ n → take n (name ++ bs) ≡ name
take-name name bs n e = ap (λ k. take k (name ++ bs)) (sym e) ∙ take-append name bs

drop-name : (name bs : List ℕ) (n : ℕ) → length name ≡ n → drop n (name ++ bs) ≡ bs
drop-name name bs n e = ap (λ k. drop k (name ++ bs)) (sym e) ∙ drop-append name bs

decode_dir-encode_dir :
    (es : List DirEntry) (rest : List ℕ)
    → All IsDirEntry es
    → decode_dir (length es) (encode_dir es ++ rest) ≡ es
unfolding encode_dir decode_dir
decode_dir-encode_dir [] rest h = refl
decode_dir-encode_dir (e ∷ es) rest h =
    let tail : List ℕ = encode_dir es ++ rest in
    let split : (e.name ++ encode_dir es) ++ rest ≡ e.name ++ tail =
      append_assoc e.name (encode_dir es) rest in
    let name : take 32 ((e.name ++ encode_dir es) ++ rest) ≡ e.name =
      ap (take 32) split ∙ take-name e.name tail 32 h.0.name in
    let later : drop 32 ((e.name ++ encode_dir es) ++ rest) ≡ tail =
      ap (drop 32) split ∙ drop-name e.name tail 32 h.0.name in
    λ i.
      record {
        fid = from_le-to_le 2 e.fid h.0.fid i;
        mode = from_le-to_le 4 e.mode h.0.mode i;
        ctime = from_le-to_le 8 e.ctime h.0.ctime i;
        atime = from_le-to_le 8 e.atime h.0.atime i;
        mtime = from_le-to_le 8 e.mtime h.0.mtime i;
        name = name i;
      }
      ∷ (ap (decode_dir (length es)) later ∙ decode_dir-encode_dir es rest h.1) i

length-zero : (es : List DirEntry) → (length es * sizeof_dir_entry == 0) ≡ (length es == 0)
length-zero [] = refl
length-zero (e ∷ es) =
    let a : (suc (length es) * sizeof_dir_entry == 0) ≡ false = ground arith in
    let b : (suc (length es) == 0) ≡ false = ground arith in a ∙ sym b

-- what dev_read_dir returns for the entries that dev_write_dir was given
abbrev pub read_back : List DirEntry → Option (List DirEntry)
read_back ents = if length ents == 0 then none else some ents

if_some :
    {A : Type 0} (b : Bool) (x y : A) → (if b then some x else some y) ≡ some (if b then x else y)
if_some true x y = refl
if_some false x y = refl

dir_of_step :
    (f_sz : ℕ) (bs : List ℕ) (ents : List DirEntry)
    → f_sz ≡ length ents * sizeof_dir_entry
    → length bs ≡ 4 + f_sz + (length bs - (4 + f_sz))
    → from_le (take 4 bs) ≡ f_sz
    → decode_dir (length ents) (drop 4 bs) ≡ ents
    → dir_of bs ≡ some (read_back ents)
unfolding dir_of
dir_of_step f_sz bs ents size long first rest =
    let whole : ltb (length bs) 4 ≡ false = le→ltb _ _ (omega arith) in
    let room : ltb (length bs) (4 + f_sz) ≡ false = le→ltb _ _ (omega arith) in
    let zero_size : (f_sz == 0) ≡ (length ents == 0) = ap (λ k. k == 0) size ∙ length-zero ents in
    let count : f_sz / sizeof_dir_entry ≡ length ents = omega arith in
    rw (whole, first, zero_size, room, count, rest) (if_some (length ents == 0) none (some ents))

-- A buffer of dev_write_dir that has room for the entries is read as these entries.
pub dir_of-dir_buf_of :
    (lblk dir_blk_cnt : ℕ) (ents : List DirEntry)
    → All IsDirEntry ents
    → length ents * sizeof_dir_entry < 2 ^ 32
    → dir_of (dir_buf_of lblk dir_blk_cnt ents) ≡ some (read_back ents)
unfolding dir_buf_of
dir_of-dir_buf_of lblk dir_blk_cnt ents h small =
    let size : ℕ = length ents * sizeof_dir_entry in
    let zeros : List ℕ = replicate (dir_blk_cnt * lblk - (4 + size)) 0 in
    dir_of_step size (dir_buf_of lblk dir_blk_cnt ents) ents refl
      (omega (arith, length-append (encode_dir ents) zeros, length-encode_dir ents h))
      (from_le-to_le 4 size small) (decode_dir-encode_dir ents zeros h)
