-- ===== src/Queries/Laws.antt =====
-- That every call and accessor of the table does what the table says.
use uv_mbt.Base.{ℕ, ℤ}
use uv_mbt.Queries.Shapes.{Replies}
use uv_mbt.Queries.Table.{Asked}

-- libuv touches neither fields nor counts, and answers `result`, with the size `extent`
pub record IsQuietly (u : Asked) : Type 0 where
  pub result : ℤ
  pub extent : ℕ
  pub answers : Replies result u.answer
  pub sizes : (capacity : ℕ) → Replies (result, extent) (u.sized_answer capacity)
