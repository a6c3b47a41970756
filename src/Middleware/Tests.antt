-- ===== src/Middleware/Tests.antt =====
-- A page of an origin that is listed asks.
use pred_sx.Base.{[], ◌∷◌}
use pred_sx.Http.{Request}

abbrev from_b : Request
from_b = record {
  method = "GET";
  headers = ("Origin", "https://b") ∷ [];
  query = [];
  remote_addr = "1.2.3.4:5";
}
