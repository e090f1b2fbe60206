-- ===== src/Launchers/Imgui/Tail.antt =====
-- The console's buffer: what AppendConsole keeps of all the lines that were appended.
use mcx.Prelude.{
  ℕ, zero, suc, ◌-◌, ◌≤◌, ◌≡◌, refl, sym, ap, ◌∙◌, inl, inr, List, [], ◌∷◌, ◌++◌, arith, ltb,
  length, drop, length-append, length-drop, Bool-cases, append_nil,
}
use mathlib.Core.List.{append_assoc}
use mcx.Launchers.Imgui.Console.{ConsoleLine, push_line}

pub length-push_line-le :
    (line : ConsoleLine) (lines : List ConsoleLine)
    → length lines ≤ 1000
    → length (push_line line lines) ≤ 1000
unfolding push_line
length-push_line-le line lines h =
    ground (arith, length-append lines (line ∷ []), length-drop 1 (lines ++ (line ∷ [])))

unfoldable pub push_all : List ConsoleLine → List ConsoleLine → List ConsoleLine
push_all [] lines = lines
push_all (x ∷ xs) lines = push_all xs (push_line x lines)

-- The last 1000 of them.
unfoldable pub last_1000 : List ConsoleLine → List ConsoleLine
last_1000 lines = drop (length lines - 1000) lines

module _ {ℓ} {A : Type ℓ} where
  drop-append_left : (n : ℕ) (xs ys : List A) → n ≤ length xs → drop n (xs ++ ys) ≡ drop n xs ++ ys
  drop-append_left zero xs ys h = refl
  drop-append_left (suc n) [] ys h = absurd (omega arith)
  drop-append_left (suc n) (x ∷ xs) ys h = drop-append_left n xs ys (omega arith)

  drop_one-drop : (n : ℕ) (xs : List A) → drop 1 (drop n xs) ≡ drop (suc n) xs
  drop_one-drop zero xs = refl
  drop_one-drop (suc zero) [] = refl
  drop_one-drop (suc (suc n)) [] = refl
  drop_one-drop (suc n) (x ∷ xs) = drop_one-drop n xs

push_line-last_1000 :
    (line : ConsoleLine) (lines : List ConsoleLine)
    → push_line line (last_1000 lines) ≡ last_1000 (lines ++ (line ∷ []))
unfolding push_line last_1000
push_line-last_1000 line lines =
    let n : ℕ = length lines - 1000 in
    let grown : drop n lines ++ (line ∷ []) ≡ drop n (lines ++ (line ∷ [])) =
      sym (drop-append_left n lines (line ∷ []) (omega arith)) in
    elim (Bool-cases (ltb 1000 (length (drop n (lines ++ (line ∷ [])))))) [
      | inl full ↦
          let e : suc n ≡ length (lines ++ (line ∷ [])) - 1000 =
            ground (
              arith,
              full,
              length-drop n (lines ++ (line ∷ [])),
              length-append lines (line ∷ []),
            ) in
          rw (grown, full)
            (drop_one-drop n (lines ++ (line ∷ [])) ∙ ap (λ k. drop k (lines ++ (line ∷ []))) e)
      | inr room ↦
          let e : n ≡ length (lines ++ (line ∷ [])) - 1000 =
            ground (
              arith,
              room,
              length-drop n (lines ++ (line ∷ [])),
              length-append lines (line ∷ []),
            ) in
          rw (grown, room) (ap (λ k. drop k (lines ++ (line ∷ []))) e)
    ]

push_all-last_1000 :
    (xs lines : List ConsoleLine) → push_all xs (last_1000 lines) ≡ last_1000 (lines ++ xs)
unfolding push_all
push_all-last_1000 [] lines = ap last_1000 (sym (append_nil lines))
push_all-last_1000 (x ∷ xs) lines =
    ap (push_all xs) (push_line-last_1000 x lines)
    ∙ push_all-last_1000 xs (lines ++ (x ∷ []))
    ∙ ap last_1000 (append_assoc lines (x ∷ []) xs)

-- After any sequence of lines, the buffer that was empty before them holds the last 1000 of them in
-- their order, or all where they are not more.
pub push_all_lem : (xs : List ConsoleLine) → push_all xs [] ≡ drop (length xs - 1000) xs
unfolding last_1000
push_all_lem xs = push_all-last_1000 xs []
