-- ===== src/ReadersW/Calls.antt =====
-- Whole calls of `SCardListReadersW`, without redirection.
use apduplay.Base.{List, Text, ℕ}
use apduplay.ReadersW.Supplied.{HasReadersW, readers_w}
use apduplay.App.{App, Outside}

module _ (outside : Outside) (app : App) (w asked filled : outside.World) (h_context : ℕ)
    (groups : Text) (real : List Text)
    (has : HasReadersW outside w asked filled h_context groups real) where
  open outside use {World}

  abbrev all_readers : List Text
  all_readers = readers_w outside app w asked filled h_context groups real has
