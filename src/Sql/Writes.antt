-- ===== src/Sql/Writes.antt =====
-- INSERT ... ON CONFLICT DO NOTHING RETURNING id.
use shkandal.Prelude.{List, Bool, any, if◌then◌else◌, true, false, ◌++◌, ◌∷◌, []}

-- Whether a row was inserted, and the table.
unfoldable pub insert_or_ignore {ℓ} :
    {Row : Type ℓ} → (Row → Bool) → Row → List Row → Bool × List Row
insert_or_ignore conflicts new rows =
    if any conflicts rows then (false, rows) else (true, rows ++ new ∷ [])
