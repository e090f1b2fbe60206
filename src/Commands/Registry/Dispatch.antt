-- ===== src/Commands/Registry/Dispatch.antt =====
-- What Execute does after Register and Unregister, and what the console hands on.
use mcx.Prelude.{◌≡◌, false, some, List, [], ◌∷◌, ◌++◌, arith, if◌then◌else◌, text_key}
use mcx.Prelude.Text.{Text}
use mcx.Maps.{lookup-insert, lookup-erase}
use mcx.Commands.Parser.{ParsedCommand}
use mcx.Commands.Parser.Spacing.{
  IsBlank, IsWord, Rest, render, words, IsSpaced, parse_command-render, is_empty-line,
}
use mcx.Commands.Registry.{
  CommandInfo, Ended, CommandRegistry, register, unregister, after_call, execute, notify, read_loop,
}

module _ {S : Type 0} where
  -- After Register of a name, Execute of that name calls the handler given last, with the arguments,
  -- and reports whether it threw; Execute of any other name is what it was before. After Unregister,
  -- Execute of the name refuses without a call, and other names are untouched.
  execute-register :
      (commands : CommandRegistry S) (name : Text) (i : CommandInfo) (h : List Text → S → Ended S)
      (other : Text) (args : List Text) (s : S)
      → (execute (register name i h commands) other args s ≡ (
          if text_key.beq name other
          then after_call other (h args s)
          else execute commands other args s))
        × (execute (unregister name commands) other args s ≡ (
            if text_key.beq name other
            then record { result = false; state = s; errors = [] }
            else execute commands other args s))
  unfolding execute register unregister
  execute-register commands name i h other args s =
      let e = lookup-insert name other (record { info = i; handler = h }) commands in
      let e' = lookup-erase name other commands in ground (arith, e, e')

  -- The handler of a console that executes what it is given.
  unfoldable pub run_parsed : CommandRegistry S → ParsedCommand → S → S
  run_parsed commands p s = (execute commands p.name p.args s).state

  -- A console whose handler executes the command it is given runs a line of words, with any white
  -- space around them, as Execute of the first word on the others, and goes on with the lines behind.
  read_loop-render :
      (commands : CommandRegistry S) (gap word : Text) (rest : Rest) (tail : Text)
      (lines : List Text) (s : S)
      → IsBlank gap
      → IsWord word
      → IsSpaced rest
      → IsBlank tail
      → read_loop (some (run_parsed commands)) ((gap ++ (word ++ render rest tail)) ∷ lines) s
        ≡ read_loop (some (run_parsed commands)) lines (execute commands word (words rest) s).state
  unfolding read_loop notify run_parsed
  read_loop-render commands gap word rest tail lines s g w h b =
      let e = is_empty-line gap word (render rest tail) w.0 in
      let e' = parse_command-render gap word rest tail g w h b in rw (e, e')
