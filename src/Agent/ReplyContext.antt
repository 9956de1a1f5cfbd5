-- ===== src/Agent/ReplyContext.antt =====
-- core/reply-context.ts: the conversation that is handed to the model with a message. What
-- `resolveName` gives for a sender is an argument.
use polis_game.Base.{
  ℕ, ◌+◌, ◌-◌, ◌≤◌, ◌≡◌, refl, String, ◌==◌, Bool, true, false, not, ◌&&◌, ◌||◌, Option, none, some,
  List, [], ◌∷◌, ◌++◌, length, ltb, leb, arith, if◌then◌else◌,
}
use mathlib.Core.List.{reverse}
use polis_game.Base.Texts.{Text, codes, same_text, trim}
use polis_game.Store.Batch.{take}
use polis_game.Commands.Words.{is_empty}
use polis_game.Store.Messages.{MessageRow}
pub mod Budget

abbrev pub max_context_chars : ℕ
max_context_chars = 2000

abbrev pub max_quote_chars : ℕ
max_quote_chars = 1200

abbrev pub dedupe_prefix_chars : ℕ
dedupe_prefix_chars = 60

abbrev pub or_else : Text → Text → Text
or_else [] other = other
or_else (c ∷ cs) other = c ∷ cs

abbrev pub key_of : MessageRow → Text
key_of m = codes m.sender_open_id ++ (0 ∷ take dedupe_prefix_chars (trim m.text))

abbrev pub is_content : MessageRow → Bool
is_content m = not (is_empty (trim m.text)) && not (m.msg_type == "system")

abbrev pub has_lines : List Text → Bool
has_lines [] = false
has_lines (_ ∷ _) = true

-- `join('\n')`
abbrev pub join_lines : List Text → Text
join_lines [] = []
join_lines (l ∷ []) = l
join_lines (l ∷ k ∷ ls) = l ++ (10 ∷ join_lines (k ∷ ls))

abbrev pub quoted : Text → Text
quoted text =
    if ltb max_quote_chars (length text)
    then take max_quote_chars text ++ codes "…（原文过长，已截断）"
    else text

module _ (resolve_name : String → Text) where
  unfoldable pub speaker_of : MessageRow → Text
  speaker_of m =
      or_else (trim m.sender_name) (or_else (resolve_name m.sender_open_id) (codes "某成员"))

  abbrev pub line_of : MessageRow → Text
  line_of m = speaker_of m ++ codes "：" ++ trim m.text

  -- The loop, over the rows from the newest on: `lines`, `total` and `lastKey`.
  abbrev pub render_from : List MessageRow → List Text → ℕ → Text → List Text
  render_from [] lines total last_key = lines
  render_from (m ∷ ms) lines total last_key =
      let skipped = render_from ms lines total last_key in
      let line = line_of m in
      let taken = render_from ms (line ∷ lines) (total + length line) (key_of m) in
      if not (is_content m)
      then skipped
      else if same_text (key_of m) last_key
      then skipped
      else if ltb max_context_chars (total + length line) && has_lines lines
      then lines
      else taken

  unfoldable pub context_lines : List MessageRow → List Text
  unfolding speaker_of
  context_lines rows = render_from (reverse rows) [] 0 []

  unfoldable pub render_context : List MessageRow → Text
  unfolding context_lines
  render_context rows = join_lines (context_lines rows)

  abbrev pub quote_of : MessageRow → Text → Text
  quote_of m replier =
      if is_empty (trim m.text)
      then []
      else (let author = speaker_of m in
          codes "【"
          ++ replier
          ++ codes " 正在回复 "
          ++ author
          ++ codes " 的这条消息，问题就是针对它】"
          ++ (10 ∷ (author ++ codes "：" ++ quoted (trim m.text))))

  unfoldable pub render_reply_quote : Option MessageRow → Text → Text
  unfolding speaker_of
  render_reply_quote none replier = []
  render_reply_quote (some m) replier = quote_of m replier

  unfoldable pub build_reply_context : List MessageRow → Option MessageRow → Text → Text
  unfolding render_context render_reply_quote
  build_reply_context rows target replier =
      let window = render_context rows in
      let quote = render_reply_quote target replier in
      if is_empty quote
      then window
      else if is_empty window
      then quote
      else quote ++ (10 ∷ 10 ∷ window)
