-- ===== src/Assurance/Listing.antt =====
-- What the detail of a case shows.
use ra_backend.Base.{List}
use ra_backend.Core.World.{World}
