-- ===== src/Files/Remove.antt =====
-- dev_rm_file: the link count and the blocks of a file that loses a link.
use fcfs.Base.{
  ℕ, List, ◌+◌, ◌^◌, ◌≤◌, ◌<◌, ◌≡◌, ◌≢◌, refl, ap, ◌∙◌, true, false, inl, inr, some, arith, ◌==◌,
  ==→eq, get_elem?, Bool-cases,
}
use fcfs.Base.Monad.{ok}
use fcfs.Base.Words.{u8}
use fcfs.Structs.{BlockListEntry, TableEntry}
use fcfs.Volume.{Volume, ClrsCache}
use fcfs.Device.Blocks.{raw}
use fcfs.Device.Owned.{member, owns}
use fcfs.Clusters.Ready.{Ready, Ready-kept, Ready-with_entry, Ready-clusters, with_entry}
use fcfs.Clusters.Coherent.{owners, owners-kept, Coherent, Coherent-kept}
use fcfs.Clrs.{with_cache}
use fcfs.Clrs.Known.{Known, Known-at_fid, clrs_cnt-Known}
use fcfs.File.Owner.{owner}
use fcfs.Files.{unlink_file}
use fcfs.Files.Release.{OnVolume, Released, release_loop}
use fcfs.Files.Disown.{owns-released, get_elem?-released, get_elem?-released_own, no_owner}

-- `entr->lnk_cnt--` on an unsigned char
abbrev pub fewer_links : TableEntry → TableEntry
fewer_links e = record e { lnk_cnt = u8 (e.lnk_cnt + 255) }

-- What dev_rm_file leaves before it turns to the directory: one link less, and with the last link
-- gone no block of the file in its clusters.
pub record Unlinked (v : Volume) (fid : ℕ) (e : TableEntry) (ids : List ℕ) (w : Volume)
    : Type 0 where
  pub ready : Ready w
  pub gone : (c k : ℕ) → e.lnk_cnt ≡ 1 → member c ids ≡ true → owns (owners w c) k fid ≡ false
  pub freed :
      (c k : ℕ) (o : BlockListEntry)
      → e.lnk_cnt ≡ 1
      → member c ids ≡ true
      → owner v c k ≡ some o
      → o.fid ≡ fid
      → owner w c k ≡ some no_owner
  pub linked : (c : ℕ) → e.lnk_cnt ≢ 1 → owners w c ≡ owners v c
  pub kept :
      (c k : ℕ) (o : BlockListEntry) → owner v c k ≡ some o → o.fid ≢ fid → owner w c k ≡ some o
  pub contents : (c b : ℕ) → 1 ≤ b → b < 8 → raw w c b ≡ raw v c b
  pub counted : w.fs_table ≡ (with_entry v fid (fewer_links e)).fs_table
  pub head : w.fs_head ≡ v.fs_head
  pub ciph : w.ciph ≡ v.ciph

Released-Unlinked :
    (v u w : Volume) (fid : ℕ) (e : TableEntry) (ids : List ℕ) (c : ClrsCache)
    → fid ≢ 0
    → e.lnk_cnt ≡ 1
    → u ≡ with_cache (with_entry v fid (fewer_links e)) c
    → Ready u
    → Coherent w
    → Released u fid ids w
    → Unlinked v fid e ids w
Released-Unlinked v u w fid e ids c file last from ready co r =
    let start : Volume = with_cache (with_entry v fid (fewer_links e)) c in
    let same : (d : ℕ) → owners u d ≡ owners v d =
      λ d. ap (λ y. owners y d) from ∙ owners-kept v start d refl refl in
    let head : w.fs_head ≡ u.fs_head = ap (λ y. y.fs_head) r.rest in
    let table : w.fs_table ≡ u.fs_table = ap (λ y. y.fs_table) r.rest in
    let ciph : w.ciph ≡ u.ciph = ap (λ y. y.ciph) r.rest in
    record {
      ready = Ready-kept u w head table ciph co ready;
      gone = λ d k one listed.
          ap (λ es. owns es k fid) (r.owned d) ∙ rw listed (owns-released (owners u d) fid k file);
      freed = λ d k o one listed at_k mine.
          let before = ap (λ es. get_elem? es k) (same d) ∙ at_k in
          ap (λ es. get_elem? es k) (r.owned d)
          ∙ rw listed (get_elem?-released_own (owners u d) fid k o before mine);
      linked = λ d more. absurd (more last);
      kept = λ d k o at_k other.
          let before = ap (λ es. get_elem? es k) (same d) ∙ at_k in
          ap (λ es. get_elem? es k) (r.owned d) ∙ elim (Bool-cases (member d ids)) [
            | inl listed ↦ rw listed (get_elem?-released (owners u d) fid k o before other)
            | inr unlisted ↦ rw unlisted before
          ];
      contents = λ d b pos lt. r.contents d b pos lt ∙ ap (λ y. raw y d b) from;
      counted = table ∙ ap (λ y. y.fs_table) from;
      head = head ∙ ap (λ y. y.fs_head) from;
      ciph = ciph ∙ ap (λ y. y.ciph) from;
    }

-- dev_rm_file up to the directory, for a file other than 0 without a second stage, whose link count
-- is a byte and whose clusters, none of them 0, lie on a volume where the bitmap agrees with the
-- tables of owners and the file table fits its region and the cipher: it ends with the link count
-- one lower, and tells whether the last link is gone. In that case every block of the file in its
-- clusters has no owner any more; otherwise no table of owners has changed. In both, every block of
-- another file keeps its owner and number, all blocks of data are kept, and bitmap and file table
-- are in the same order again.
pub unlink_file_lem :
    (v : Volume) (fid : ℕ) (e : TableEntry) (ids : List ℕ)
    → Ready v
    → fid ≢ 0
    → Known v fid e ids
    → OnVolume v ids
    → e.lnk_cnt < 2 ^ 8
    → (w : Volume) × (unlink_file fid v ≡ ok (e.lnk_cnt == 1) w) × Unlinked v fid e ids w
unfolding unlink_file
unlink_file_lem v fid e ids ready file known on byte =
    let (c, counted, listed) = clrs_cnt-Known v fid e ids known in
    let at_fid = Known-at_fid v fid e ids known in
    let u' : Volume = with_entry v fid (fewer_links e) in
    let u : Volume = with_cache u' c in
    let ready' =
      Ready-with_entry v fid (fewer_links e) (Ready-clusters v fid e ready at_fid) ready in
    let ready_u : Ready u =
      Ready-kept u' u refl refl refl (Coherent-kept u' u refl refl refl (λ d. refl) ready'.coherent)
        ready' in
    elim (Bool-cases (e.lnk_cnt == 1)) [
      | inl last ↦
          let now : (u8 (e.lnk_cnt + 255) == 0) ≡ true = ground (arith, last) in
          let (w, eq, co', r) =
            release_loop u fid 0 ids ids ready_u.coherent listed.cached
              (λ j a h. ap (get_elem? ids) {x = 0 + j} {y = j} (omega arith) ∙ h) on in
          (
            w,
            rw (at_fid, counted, at_fid, now, eq, last) refl,
            Released-Unlinked v u w fid e ids c file (==→eq _ _ last) refl ready_u co' r,
          )
      | inr more ↦
          let now : (u8 (e.lnk_cnt + 255) == 0) ≡ false = ground (arith, more) in
          (
            u,
            rw (at_fid, counted, at_fid, now, more) refl,
            record {
              ready = ready_u;
              gone = λ d k last l. absurd (ground (arith, last, more));
              freed = λ d k o last l at_k mine. absurd (ground (arith, last, more));
              linked = λ d m. owners-kept v u d refl refl;
              kept = λ d k o at_k other.
                  ap (λ es. get_elem? es k) (owners-kept v u d refl refl) ∙ at_k;
              contents = λ d b pos lt. refl;
              counted = refl;
              head = refl;
              ciph = refl;
            },
          )
    ]
