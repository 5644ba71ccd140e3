-- ===== src/Models/Common.antt =====
-- Column types that the program stores and never looks into.
use ra_backend.Base.{String, ℕ}

-- A moment, in microseconds since the epoch (UTC).
abbrev pub Timestamp : Type 0
Timestamp = ℕ

-- A JSON column, as its text.
abbrev pub Json : Type 0
Json = String

-- A `double precision` column, as its bit pattern.
abbrev pub Float : Type 0
Float = ℕ
