-- ===== src/Tests/Listing.antt =====
-- The root of the formatted drive of four megabytes, listed.
use fcfs.Base.{[], ◌∷◌}
use fcfs.Volume.{Volume}
use fcfs.Cache.{decimal}
use fcfs.Ops.{Env}
use fcfs.Tests.Files.{maps}

abbrev user : Env
user = record { uid = 1000; gid = 100; now = 1500000001 }

abbrev one_entry : maps.seqs.Map
one_entry = (decimal 0, 0) ∷ []
