-- ===== src/Commands/Parsing.antt =====
-- parseCommand of core/commands.ts reads back what a member writes in the usual form.
use polis_game.Base.{
  ℕ, zero, suc, ◌<◌, ◌≡◌, ◌≢◌, refl, ap, ◌∙◌, false, some, List, [], ◌∷◌, ◌++◌, length, All, arith,
}
use polis_game.Base.Texts.{Text, is_space, trim, trim_start, trim_end, before_end, to_lower_case}
use polis_game.Commands.Words.{
  parse_command, split_spaces, strip_mentions, drop_word, drop_mention, starts_with_space,
  after_mentions, command_words, name_and_args,
}

abbrev pub Solid : Text → Type 0
Solid = All (λ c. is_space c ≡ false)

-- A text that is not empty and has no blank.
abbrev pub IsWord : Text → Type 0
IsWord w = Solid w × (w ≢ [])

-- The words with one blank between two of them.
abbrev pub join : Text → List Text → Text
join w [] = w
join w (v ∷ vs) = w ++ 32 ∷ join v vs

word_starts : (w cs : Text) → IsWord w → starts_with_space (w ++ cs) ≡ false
word_starts [] cs h = absurd (h.1 refl)
word_starts (c ∷ w) cs h = h.0.0

join_starts : (w : Text) (ws : List Text) → IsWord w → starts_with_space (join w ws) ≡ false
join_starts [] ws h = absurd (h.1 refl)
join_starts (c ∷ w) [] h = h.0.0
join_starts (c ∷ w) (v ∷ vs) h = h.0.0

split-Solid : (w : Text) → Solid w → w ≢ [] → split_spaces w ≡ w ∷ []
split-Solid [] h ne = absurd (ne refl)
split-Solid (c ∷ []) h ne = ground (arith, h.0)
split-Solid (c ∷ d ∷ w) h ne = ground (arith, h.0, split-Solid (d ∷ w) h.1 (λ e. ground (arith, e)))

split-word :
    (w cs : Text)
    → Solid w
    → starts_with_space cs ≡ false
    → split_spaces (w ++ 32 ∷ cs) ≡ w ∷ split_spaces cs
split-word [] cs h s = ground (arith, s)
split-word (c ∷ w) cs h s = ground (arith, h.0, split-word w cs h.1 s)

split-join :
    (w : Text) (ws : List Text) → IsWord w → All IsWord ws → split_spaces (join w ws) ≡ w ∷ ws
split-join w [] h hs = split-Solid w h.0 h.1
split-join w (v ∷ vs) h hs =
    split-word w (join v vs) h.0 (join_starts v vs hs.0) ∙ ap (◌∷◌ w) (split-join v vs hs.0 hs.1)

trim_end-Solid : (w : Text) → Solid w → trim_end w ≡ w
trim_end-Solid [] h = refl
trim_end-Solid (c ∷ w) h = ap (before_end c) (trim_end-Solid w h.1) ∙ ground (arith, h.0)

trim_end-append :
    (xs : Text) (y : ℕ) (ys : Text)
    → trim_end (y ∷ ys) ≡ y ∷ ys
    → trim_end (xs ++ y ∷ ys) ≡ xs ++ y ∷ ys
trim_end-append [] y ys h = h
trim_end-append (x ∷ []) y ys h = ap (before_end x) h
trim_end-append (x ∷ z ∷ xs) y ys h = ap (before_end x) (trim_end-append (z ∷ xs) y ys h)

trim_end-prefix : (xs ys : Text) → ys ≢ [] → trim_end ys ≡ ys → trim_end (xs ++ ys) ≡ xs ++ ys
trim_end-prefix xs [] ne h = absurd (ne refl)
trim_end-prefix xs (y ∷ ys) ne h = trim_end-append xs y ys h

cons≢nil : (c : ℕ) (cs : Text) → c ∷ cs ≢ []
cons≢nil c cs e = ground (arith, e)

join≢nil : (w : Text) (ws : List Text) → IsWord w → join w ws ≢ []
join≢nil [] ws h = absurd (h.1 refl)
join≢nil (c ∷ w) [] h = cons≢nil c w
join≢nil (c ∷ w) (v ∷ vs) h = cons≢nil c (w ++ 32 ∷ join v vs)

solid_before : (c : ℕ) (cs : Text) → is_space c ≡ false → before_end c cs ≡ c ∷ cs
solid_before c [] h = ground (arith, h)
solid_before c (d ∷ cs) h = refl

blank_before : (c : ℕ) (cs : Text) → cs ≢ [] → before_end c cs ≡ c ∷ cs
blank_before c [] h = absurd (h refl)
blank_before c (d ∷ cs) h = refl

trim_end-join :
    (w : Text) (ws : List Text) → IsWord w → All IsWord ws → trim_end (join w ws) ≡ join w ws
trim_end-join w [] h hs = trim_end-Solid w h.0
trim_end-join w (v ∷ vs) h hs = trim_end-append w 32 (join v vs) (
    ap (before_end 32) (trim_end-join v vs hs.0 hs.1)
    ∙ blank_before 32 (join v vs) (join≢nil v vs hs.0))

solid_start : (cs : Text) → starts_with_space cs ≡ false → trim_start cs ≡ cs
solid_start [] h = refl
solid_start (c ∷ cs) h = ground (arith, h)

trim-join : (w : Text) (ws : List Text) → IsWord w → All IsWord ws → trim (join w ws) ≡ join w ws
trim-join w ws h hs =
    ap trim_end (solid_start (join w ws) (join_starts w ws h)) ∙ trim_end-join w ws h hs

drop_word-Solid : (m cs : Text) → Solid m → drop_word (m ++ 32 ∷ cs) ≡ 32 ∷ cs
drop_word-Solid [] cs h = refl
drop_word-Solid (c ∷ m) cs h = ground (arith, h.0, drop_word-Solid m cs h.1)

-- "@name /command": the mention is dropped.
drop_mention-addressed :
    (m cs : Text) → IsWord m → drop_mention (64 ∷ m ++ 32 ∷ 47 ∷ cs) ≡ some (47 ∷ cs)
drop_mention-addressed [] cs h = absurd (h.1 refl)
drop_mention-addressed (c ∷ m) cs h = ground (arith, h.0.0, drop_word-Solid m (47 ∷ cs) h.0.1)

strip-command : (fuel : ℕ) (cs : Text) → strip_mentions fuel (47 ∷ cs) ≡ 47 ∷ cs
strip-command zero cs = refl
strip-command (suc fuel) [] = refl
strip-command (suc fuel) (c ∷ cs) = refl

strip-addressed :
    (fuel : ℕ) (m cs : Text)
    → IsWord m
    → strip_mentions (suc fuel) (64 ∷ m ++ 32 ∷ 47 ∷ cs) ≡ 47 ∷ cs
strip-addressed fuel m cs h = rw (drop_mention-addressed m cs h) (strip-command fuel cs)

trim-addressed :
    (m name : Text) (args : List Text)
    → IsWord name
    → All IsWord args
    → trim (64 ∷ m ++ 32 ∷ 47 ∷ join name args) ≡ 64 ∷ m ++ 32 ∷ 47 ∷ join name args
trim-addressed m name args hn ha = trim_end-append (64 ∷ m) 32 (47 ∷ join name args) (
    ap (before_end 32)
      (ap (before_end 47) (trim_end-join name args hn ha) ∙ solid_before 47 (join name args) refl))

command_words-cons : (cs : Text) → cs ≢ [] → command_words cs ≡ name_and_args (split_spaces cs)
command_words-cons [] h = absurd (h refl)
command_words-cons (c ∷ cs) h = refl

command_words-join :
    (name : Text) (args : List Text)
    → IsWord name
    → All IsWord args
    → command_words (trim (join name args))
      ≡ some (record { name = to_lower_case name; args = args })
command_words-join name args hn ha =
    ap command_words (trim-join name args hn ha)
    ∙ command_words-cons (join name args) (join≢nil name args hn)
    ∙ ap name_and_args (split-join name args hn ha)

-- The message "@mention /command argument … argument", whose parts are texts that are not empty and
-- have no blank and whose command is in ASCII, is parsed as the command in lower case and the
-- arguments as they are.
pub parse_command-join :
    (mention name : Text) (args : List Text)
    → IsWord mention
    → IsWord name
    → All (λ c. c < 128) name
    → All IsWord args
    → parse_command (64 ∷ mention ++ 32 ∷ 47 ∷ join name args)
      ≡ some (record { name = to_lower_case name; args = args })
unfolding parse_command
parse_command-join mention name args hm hn _ ha =
    ap (λ t. after_mentions (strip_mentions (length t) t)) (trim-addressed mention name args hn ha)
    ∙ ap after_mentions
        (strip-addressed (length (mention ++ 32 ∷ 47 ∷ join name args)) mention (join name args) hm)
    ∙ command_words-join name args hn ha
