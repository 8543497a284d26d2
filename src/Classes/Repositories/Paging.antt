-- ===== src/Classes/Repositories/Paging.antt =====
-- `skip: (page.page - 1) * page.limit`, and the directions of `orderBy`, which the class and the
-- member repositories share.
use taksees.Prelude.{ℕ, zero, suc, ◌*◌}

-- The number of rows to skip: an integer, which for the page 0 is below zero.
pub data Offset : Type 0 where
  pos : ℕ → Offset
  neg : ℕ → Offset

pub data Direction : Type 0 where
  asc desc : Direction

unfoldable pub skip : ℕ → ℕ → Offset
skip zero limit = neg limit
skip (suc page) limit = pos (page * limit)
