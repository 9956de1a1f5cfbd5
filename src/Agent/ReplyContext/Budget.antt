-- ===== src/Agent/ReplyContext/Budget.antt =====
-- How long the context of core/reply-context.ts can get, and which rows stand in it.
use polis_game.Base.{
  ℕ, ◌+◌, ◌≤◌, ◌≡◌, ◌⊎◌, String, false, ◌&&◌, List, [], ◌∷◌, length, ltb, arith, Bool-cases, inl,
  inr,
}
use native.Mathlib.Nat.{add_comm}
use mathlib.Core.List.{reverse}
use polis_game.Base.Texts.{Text, same_text}
use polis_game.Store.Messages.{MessageRow}
use polis_game.Agent.ReplyContext.{
  max_context_chars, key_of, line_of, is_content, has_lines, render_from, context_lines,
}

-- `total` of a list of lines; the breaks between them do not count.
abbrev pub chars : List Text → ℕ
chars [] = 0
chars (l ∷ ls) = length l + chars ls

-- The lines keep to the budget, or there is only one.
abbrev pub InBudget : List Text → Type 0
InBudget ls = (chars ls ≤ max_context_chars) ⊎ (length ls ≤ 1)

InBudget-cons :
    (line : Text) (lines : List Text)
    → (ltb max_context_chars (chars lines + length line) && has_lines lines) ≡ false
    → InBudget (line ∷ lines)
InBudget-cons line [] fits = inr (omega arith)
InBudget-cons line (l ∷ ls) fits = inl (ground (arith, fits))

module _ (resolve_name : String → Text) where
  render_from-InBudget :
      (ms : List MessageRow) (lines : List Text) (last_key : Text)
      → InBudget lines
      → InBudget (render_from resolve_name ms lines (chars lines) last_key)
  render_from-InBudget [] lines last_key h = h
  render_from-InBudget (m ∷ ms) lines last_key h =
      let line = line_of resolve_name m in
      elim (Bool-cases (is_content m)) [
        | inr dull ↦ rw dull (render_from-InBudget ms lines last_key h)
        | inl content ↦ elim (Bool-cases (same_text (key_of m) last_key)) [
          | inl twice ↦ rw (content, twice) (render_from-InBudget ms lines last_key h)
          | inr fresh ↦
              elim (Bool-cases
                (ltb max_context_chars (chars lines + length line) && has_lines lines)) [
                  | inl over ↦ rw (content, fresh, over) h
                  | inr fits ↦
                      rw (content, fresh, fits, add_comm (chars lines) (length line))
                        (render_from-InBudget ms (line ∷ lines) (key_of m)
                          (InBudget-cons line lines fits))
                ]
        ]
      ]

  -- The lines of the context hold at most 2000 characters, unless there is a single line.
  pub context_lines-InBudget : (rows : List MessageRow) → InBudget (context_lines resolve_name rows)
  unfolding context_lines
  context_lines-InBudget rows = render_from-InBudget (reverse rows) [] [] (inl (omega arith))
