-- ===== src/Start/Session.antt =====
-- A drive that is formatted with a password, and the driver that is then started with the same one.
use fcfs.Base.{ℕ, ◌^◌, ◌≤◌, ◌<◌, ◌≡◌, refl, ◌∙◌, none, List, [], ◌∷◌, ◌++◌, lt→ltb, length}
use fcfs.Base.Monad.{ok}
use fcfs.Structs.{label_length}
use fcfs.Utils.{Text}
use fcfs.Volume.{Cipher, Volume}
use fcfs.Scsi.{DscInfo, Drive, read_info}
use fcfs.Cache.{Maps, cache_init}
use fcfs.Clusters.Ready.{Ready}
use fcfs.Mount.{mount}
use fcfs.Fmt.{format_head, format}
use fcfs.Fmt.Layout.{IsDriveCipher}
use fcfs.Fmt.Fits.{IsWholeDrive}
use fcfs.Fmt.Fresh.{IsCleared}
use fcfs.Fmt.Start.{IsDivided, format-mount-Ready}
use fcfs.Fmt.Main.{password_of, proc_args, proc_opt, fmt_main}
use fcfs.Start.{Gcrypt, opt_passwd, opt_dev, no_setup, set_up, ops_init}
use fcfs.Start.Options.{Opens, open_ciph-Opens, IsName, both_set, set_up_options}

-- A drive that the formatter lays out at time `now` with the cipher `c`.
pub record IsFormattable (info : DscInfo) (now : ℕ) (c : Cipher) (v : Volume) : Type 0 where
  pub drive : IsWholeDrive info.sec_sz info.sec_cnt v.dev.size
  pub time : now < 2 ^ 64
  pub cipher : IsDriveCipher (record v { ciph = c }) (format_head info.sec_sz info.sec_cnt now)
  pub label : length info.product ≤ label_length
  pub divided : IsDivided (format_head info.sec_sz info.sec_cnt now) v.dev.size
  pub cleared : IsCleared (format_head info.sec_sz info.sec_cnt now) v.dev.byte

-- The drive answers, with this information.
pub record Tells (drv : Drive) (info : DscInfo) : Type 1 where
  pub read : {S : Type 0} (s : S) → read_info drv s ≡ ok info s

-- the argument of the formatter that gives a password
abbrev pub dash_p : Text → Text
dash_p pass = b'-' ∷ b'p' ∷ pass

fmt_main_step :
    (g : Gcrypt) (usable : ℕ → ℕ) (mem stack : ℕ → ℕ) (dev pass : Text) (keys : List ℕ)
    (info : DscInfo) (drv : Drive) (now : ℕ) (c : Cipher) (v : Volume)
    → password_of dev ≡ none
    → length pass < usable (length pass)
    → Opens g pass c
    → Tells drv info
    → fmt_main g usable mem stack (dev ∷ dash_p pass ∷ []) keys drv now v
      ≡ format mem stack info now (record v { ciph = c })
unfolding fmt_main proc_opt proc_args password_of
fmt_main_step g usable mem stack dev pass keys info drv now c v plain spare opens tells =
    rw
      (
        plain,
        lt→ltb _ _ spare,
        open_ciph-Opens g pass c v opens,
        tells.read (record v { ciph = c }),
      )
      refl

pub ops_init_step :
    (m : Maps) (drv : Drive) (info : DscInfo) (v w : Volume)
    → Tells drv info
    → mount info v ≡ ok 0 w
    → ops_init m drv v ≡ ok tt (cache_init m w)
unfolding ops_init
ops_init_step m drv info v w tells e = rw (tells.read v, e) refl

-- A drive that answers is formatted with -p and a password, and the driver is started on it with
-- the same password and a path, with new caches. Conditions: the path of the device is no option
-- -p, the names of the options have no equals sign, every string leaves a byte behind its buffer,
-- the hash of the password has 32 bytes whose halves open a cipher, which undoes itself on a block,
-- on the file table and on the data of a cluster; the sector size and count are those of a drive
-- that holds its regions and one cluster, a block is left over by the division into clusters, the
-- bitmap has a flag for every cluster, an int holds every address, the time fits 64 bits, the name
-- of the product fits the label, and nothing at the places of the later tables has the checksum of
-- a new table. Then both programs get through, the driver has the formatter's cipher and the path,
-- ops_init succeeds with empty caches, and in the mounted volume every table has 7 entries, the
-- bitmap agrees with the tables of owners, and the file table fits its region and the cipher.
pub fmt_main-ops_init :
    (g : Gcrypt) (usable : ℕ → ℕ) (m : Maps) (mem stack : ℕ → ℕ) (dev name name' pass path : Text)
    (keys : List ℕ) (drv : Drive) (info : DscInfo) (now : ℕ) (c : Cipher) (v : Volume)
    → Tells drv info
    → password_of dev ≡ none
    → IsName name
    → IsName name'
    → length pass < usable (length pass)
    → length path < usable (length path)
    → Opens g pass c
    → IsFormattable info now c v
    → (w z : Volume) × (fmt_main g usable mem stack (dev ∷ dash_p pass ∷ []) keys drv now v
        ≡ ok tt w)
      × (set_up g usable
            ((opt_passwd, name ++ (b'=' ∷ pass)) ∷ (opt_dev, name' ++ (b'=' ∷ path)) ∷ [])
            keys
            no_setup
          ≡ ok tt (both_set c path))
      × (ops_init m drv (record v { ciph = c; dev = w.dev }) ≡ ok tt (cache_init m z))
      × Ready z
fmt_main-ops_init g usable m mem stack dev name name' pass path keys drv info now c v tells plain
      named named' spare spare' opens is =
    let v' : Volume = record v { ciph = c } in
    let (w, z, runs, mounts, ready) =
      format-mount-Ready mem stack info now v' v' is.drive is.time is.cipher is.label refl
        is.divided is.cleared in
    (
      w,
      z,
      fmt_main_step g usable mem stack dev pass keys info drv now c v plain spare opens tells
          ∙ runs,
      set_up_options g usable name pass name' path c keys opens named named' spare spare',
      ops_init_step m drv info (record v' { dev = w.dev }) z tells mounts,
      ready,
    )
