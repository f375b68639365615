-- ===== src/Start/Listing.antt =====
-- The listing of a new file system: ops_readdir of the root behind the formatter and ops_init.
use fcfs.Base.{◌≡◌, none, some}
use fcfs.Volume.{Volume}
use fcfs.Cache.{Maps, decimal}
use fcfs.Ops.{root_path}

-- New maps, in which nothing is found and which take a list for the root.
pub record IsNew (m : Maps) (t : m.seqs.Map) : Type 0 where
  pub no_list : m.seqs.look m.seqs.new (decimal 0) ≡ none
  pub no_stat : m.stats.look m.stats.new root_path ≡ none
  pub room : m.seqs.put m.seqs.new (decimal 0) 0 ≡ some t
