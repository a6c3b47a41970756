-- ===== src/Wiring/Tests.antt =====
-- An environment that sets one of the two names of the topic of order books.
use pred_sx.Base.{[], ◌∷◌, String}
use pred_sx.Base.Dict.{Dict}

abbrev env : Dict String
env = ("ORDERBOOK_TOPIC", "books") ∷ []
