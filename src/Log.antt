-- ===== src/Log.antt =====
-- src/core/log.cpp: the lines that the server prints, as values, where a part decides what it prints.
pub mod Files
use mcx.Prelude.{◌++◌, nat_eq, text_key}
use mcx.Prelude.Text.{Text, codes}

-- Which of Info, Warn and Error printed the line.
pub data Level : Type 0 where
  info warn error : Level

abbrev pub Line : Type 0
Line = Level × Text

-- The bytes that go to the console, the end of the line included.
unfoldable pub printed : Line → Text
printed (info, message) = codes "[MCX] " ++ (message ++ codes "\n")
printed (warn, message) = codes "[MCX][WARN] " ++ (message ++ codes "\n")
printed (error, message) = codes "[MCX][ERROR] " ++ (message ++ codes "\n")
