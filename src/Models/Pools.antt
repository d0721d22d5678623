-- ===== src/Models/Pools.antt =====
-- `Pool` of src/models.rs.
use forkscanner.Prelude.{
  ℕ, String, Bool, ◌&&◌, List, [], ◌∷◌, ◌++◌, ◌==◌, if◌then◌else◌, exists, update_if, length,
  text_comparable,
}
use forkscanner.Models.Rows.{ok, Pool}
use forkscanner.Models.Query.{Query, Statement, execute, select}

-- The fields of a `MinerPool`, under its coinbase tag.
pub record MinerPool : Type 0 where
  pub tag : String
  pub name : String
  pub link : String

abbrev same_pool : MinerPool → Pool → Bool
same_pool p row = row.tag == p.tag && (row.name == p.name && row.url == p.link)

-- ON CONFLICT (tag, name, url) DO UPDATE
abbrev upsert_pool : ℕ → MinerPool → List Pool → List Pool
upsert_pool now p rows =
    if exists (same_pool p) rows
    then update_if (same_pool p) (λ (row : Pool). record row { updated_at = now }) rows
    else rows
      ++ record { tag = p.tag; name = p.name; url = p.link; created_at = now; updated_at = now }
        ∷ []

abbrev upsert_all : ℕ → List MinerPool → List Pool → List Pool
upsert_all now [] rows = rows
upsert_all now (p ∷ ps) rows = upsert_all now ps (upsert_pool now p rows)

unfoldable pub upsert_pools : ℕ → List MinerPool → Statement ℕ
upsert_pools now pool_info d =
    (ok (length pool_info), record d { pools = upsert_all now pool_info d.pools })

-- One statement for all pools; their tags differ, since they are the keys of a map.
unfoldable pub create_or_update_batch : ℕ → List MinerPool → Query ℕ
unfolding upsert_pools
create_or_update_batch now pool_info = execute (upsert_pools now pool_info)

unfoldable pub list : Query (List Pool)
list = select (λ d. ok d.pools)
