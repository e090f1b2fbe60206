-- ===== src/Log/Files.antt =====
-- FileLogger of src/core/file_logger.cpp: the text of the file, or `none` where it is not open.
use mcx.Prelude.{
  ◌≡◌, refl, sym, ap, ◌∙◌, Bool, true, false, Option, none, some, List, [], ◌∷◌, ◌++◌, append_nil,
}
use mathlib.Core.List.{append_assoc}
use mcx.Prelude.Text.{Text, codes}

pub record FileLogger : Type 0 where
  pub file : Option Text

-- The constructor: what the file holds stays in front.
unfoldable pub open_logger : Option Text → FileLogger
open_logger file = record { file = file }

-- With the time as `put_time` prints it.
unfoldable pub write : Text → Text → FileLogger → FileLogger
write time message logger = elim logger.file [
  | none ↦ logger
  | some text ↦ record { file = some (text ++ (time ++ (codes " " ++ (message ++ codes "\n")))) }
]

unfoldable pub is_open : FileLogger → Bool
is_open logger = elim logger.file [ none ↦ false | some _ ↦ true ]

unfoldable pub write_all : List (Text × Text) → FileLogger → FileLogger
unfolding write
write_all [] logger = logger
write_all ((time, message) ∷ messages) logger = write_all messages (write time message logger)

-- The lines of those messages.
abbrev lines_of : List (Text × Text) → Text
lines_of [] = []
lines_of ((time, message) ∷ messages) =
    (time ++ (codes " " ++ (message ++ codes "\n"))) ++ lines_of messages

-- Behind any calls of Write, the file holds what it held when it was opened and then a line for each
-- message, in their order; a file that could not be opened stays so, and nothing is written.
write_all_lem :
    (messages : List (Text × Text)) (text : Text)
    → (write_all messages (open_logger (some text))
        ≡ record { file = some (text ++ lines_of messages) })
      × (is_open (write_all messages (open_logger none)) ≡ false)
unfolding write_all write open_logger is_open
write_all_lem [] text = (ap (λ (l : Text). record { file = some l }) (sym (append_nil text)), refl)
write_all_lem ((time, message) ∷ messages) text =
    let line = time ++ (codes " " ++ (message ++ codes "\n")) in
    let (kept, closed) = write_all_lem messages (text ++ line) in
    (
      kept
          ∙ ap (λ (l : Text). record { file = some l })
              (append_assoc text line (lines_of messages)),
      closed,
    )
