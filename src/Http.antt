-- ===== src/Http.antt =====
-- A request as the middleware of predsx/services/api/middleware reads it. Headers are under their
-- canonical names; a header or a value of the query string that is missing reads as "".
use pred_sx.Base.{none, some, String}
use pred_sx.Base.Dict.{Dict, lookup}

pub record Request : Type 0 where
  pub method : String
  pub headers : Dict String
  pub query : Dict String
  pub remote_addr : String

abbrev pub text_at : String → Dict String → String
text_at key d = elim (lookup key d) [ none ↦ "" | some text ↦ text ]

-- `r.Header.Get(key)`
abbrev pub header : Request → String → String
header r key = text_at key r.headers
