-- ===== src/Service/Rpc/Reads.antt =====
-- The endpoints of src/service.rs that only read.
use forkscanner.Prelude.{text_comparable}
use forkscanner.Models.Query.{Db, Query}
use forkscanner.Models.Query.Keeps.{Keeps}
use forkscanner.Models.Blocks
use forkscanner.Models.Chaintips
use forkscanner.Models.Nodes
use forkscanner.Models.Peers
use forkscanner.Service.Rpc.{Server, Outcome}

-- The tables after a call.
abbrev pub tables_after : {V N : Type 0} → Outcome V × Server N → Db
tables_after r = r.1.conn.db
